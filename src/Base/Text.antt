-- ===== src/Base/Text.antt =====
-- The parts of Rust's `str` that the program uses: whitespace, `trim`, and concatenation for
-- `format!`.
use Prim.Native.Nat.{ℕ, ◌+◌}
use Prim.Native.Char.{code}
use Prim.Native.String.{String}
use mathlib.Core.Bool.{Bool, true, false, ◌&&◌, ◌||◌}
use mathlib.Core.List.{List, [], ◌∷◌}
use dash_drop.Base.Tests.{leb, nat_beq, if◌then◌else◌}

-- `char::is_whitespace`, the Unicode property White_Space.
abbrev pub is_whitespace : ℕ → Bool
is_whitespace c =
    leb 0x9 c && leb c 0xD
    || nat_beq c 0x20
    || nat_beq c 0x85
    || nat_beq c 0xA0
    || nat_beq c 0x1680
    || leb 0x2000 c && leb c 0x200A
    || nat_beq c 0x2028
    || nat_beq c 0x2029
    || nat_beq c 0x202F
    || nat_beq c 0x205F
    || nat_beq c 0x3000

abbrev pub is_empty_str : String → Bool
is_empty_str String.[] = true
is_empty_str (String.◌∷◌ c s) = false

unfoldable pub trim_start : String → String
trim_start String.[] = String.[]
trim_start (String.◌∷◌ c s) =
    let rest = trim_start s in if is_whitespace (code c) then rest else String.◌∷◌ c s

-- A character is dropped when it is white and so is all that follows.
unfoldable pub trim_end : String → String
trim_end String.[] = String.[]
trim_end (String.◌∷◌ c s) =
    let rest = trim_end s in
    if is_whitespace (code c) && is_empty_str rest then String.[] else String.◌∷◌ c rest

unfoldable pub trim : String → String
unfolding trim_start trim_end
trim s = trim_end (trim_start s)

-- `s.trim().is_empty()`.
unfoldable pub is_blank : String → Bool
is_blank String.[] = true
is_blank (String.◌∷◌ c s) = is_whitespace (code c) && is_blank s

-- `s.to_ascii_lowercase()`, as the numbers of its characters.
abbrev pub ascii_lower : ℕ → ℕ
ascii_lower c = if leb 65 c && leb c 90 then c + 32 else c

unfoldable pub lower_codes : String → List ℕ
lower_codes String.[] = []
lower_codes (String.◌∷◌ c s) = ascii_lower (code c) ∷ lower_codes s

unfoldable pub starts_with_codes : List ℕ → List ℕ → Bool
starts_with_codes [] text = true
starts_with_codes (c ∷ cs) [] = false
starts_with_codes (c ∷ cs) (d ∷ text) = nat_beq c d && starts_with_codes cs text

unfoldable pub contains_codes : List ℕ → List ℕ → Bool
contains_codes part [] = starts_with_codes part []
contains_codes part (c ∷ text) = starts_with_codes part (c ∷ text) || contains_codes part text

-- `text.to_ascii_lowercase().contains(part)`, for a part of small letters.
unfoldable pub lower_contains : String → String → Bool
unfolding lower_codes contains_codes starts_with_codes
lower_contains text part = contains_codes (lower_codes part) (lower_codes text)
