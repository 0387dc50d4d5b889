-- ===== src/Pairing/Codes.antt =====
-- The normal form of a fingerprint and the verification code of src-tauri/src/pairing.rs.
use Prim.Native.Char.{Char, code}
use dash_drop.Base.{
  ℕ, String, Bool, true, false, some, List, [], ◌∷◌, ◌≡◌, refl, subst, ◌∙◌, ◌+◌, ◌*◌, ◌/◌, ◌%◌,
  ◌&&◌, ◌||◌, not, ◌==◌, nat_eq, ltb, leb, if◌then◌else◌, unwrap_or, lookup, any, is_none,
  is_empty_str, is_solid, is_whitespace, Bool-cases, Option-cases, inl, inr, arith,
}

-- `char::is_ascii_alphanumeric`.
abbrev pub is_alphanumeric : ℕ → Bool
is_alphanumeric c = leb 48 c && leb c 57 || leb 65 c && leb c 90 || leb 97 c && leb c 122

abbrev pub capitals : List (ℕ × Char)
capitals =
    (97, "A")
    ∷ (98, "B")
    ∷ (99, "C")
    ∷ (100, "D")
    ∷ (101, "E")
    ∷ (102, "F")
    ∷ (103, "G")
    ∷ (104, "H")
    ∷ (105, "I")
    ∷ (106, "J")
    ∷ (107, "K")
    ∷ (108, "L")
    ∷ (109, "M")
    ∷ (110, "N")
    ∷ (111, "O")
    ∷ (112, "P")
    ∷ (113, "Q")
    ∷ (114, "R")
    ∷ (115, "S")
    ∷ (116, "T")
    ∷ (117, "U")
    ∷ (118, "V")
    ∷ (119, "W")
    ∷ (120, "X")
    ∷ (121, "Y")
    ∷ (122, "Z")
    ∷ []

abbrev pub digits : List (ℕ × Char)
digits =
    (0, "0")
    ∷ (1, "1")
    ∷ (2, "2")
    ∷ (3, "3")
    ∷ (4, "4")
    ∷ (5, "5")
    ∷ (6, "6")
    ∷ (7, "7")
    ∷ (8, "8")
    ∷ (9, "9")
    ∷ []

-- `char::to_ascii_uppercase`.
unfoldable pub ascii_upper : Char → Char
unfolding lookup
ascii_upper c = unwrap_or (lookup (code c) capitals) c

unfoldable pub normalize_fingerprint : String → String
unfolding ascii_upper
normalize_fingerprint String.[] = String.[]
normalize_fingerprint (String.◌∷◌ c s) =
    let rest = normalize_fingerprint s in
    if is_alphanumeric (code c) then String.◌∷◌ (ascii_upper c) rest else rest

-- The three buckets after the bytes of a value, from the one with this number on. The value is
-- ASCII, so that its bytes are its characters. No sum leaves `u32` for a value of less than 200
-- million bytes.
abbrev pub mix : ℕ → ℕ → ℕ → ℕ
mix index byte bucket = (bucket * 131 + byte + index * 17) % 10000

unfoldable pub fill_buckets : ℕ → String → ℕ × ℕ × ℕ → ℕ × ℕ × ℕ
fill_buckets index String.[] b = b
fill_buckets index (String.◌∷◌ c s) (x, y, z) = fill_buckets (index + 1) s (
    if index % 3 == 0
    then (mix index (code c) x, y, z)
    else if index % 3 == 1
    then (x, mix index (code c) y, z)
    else (x, y, mix index (code c) z))

unfoldable pub digit : ℕ → Char
unfolding lookup
digit n = unwrap_or (lookup n digits) "0"

-- `{part:04}` before what follows, for a part of at most five digits, as all are.
unfoldable pub put_part : ℕ → String → String
unfolding digit
put_part n rest =
    let four : String = String.◌∷◌ (digit (n / 1000 % 10)) (
      String.◌∷◌ (digit (n / 100 % 10))
        (String.◌∷◌ (digit (n / 10 % 10)) (String.◌∷◌ (digit (n % 10)) rest))) in
    if ltb n 10000 then four else String.◌∷◌ (digit (n / 10000 % 10)) four

unfoldable pub join_parts : ℕ × ℕ × ℕ → String
unfolding put_part
join_parts (x, y, z) = put_part x (String.◌∷◌ "-" (put_part y (String.◌∷◌ "-" (put_part z ""))))

unfoldable pub code_from_value : String → String
unfolding fill_buckets join_parts
code_from_value value =
    if is_empty_str value
    then "0000-0000-0000"
    else join_parts (fill_buckets 0 value (0x1357, 0x2468, 0x369C))

unfoldable pub verification_code_from_fingerprint : String → String
unfolding normalize_fingerprint code_from_value
verification_code_from_fingerprint fp = code_from_value (normalize_fingerprint fp)

-- What holds of each entry of a table holds of the one that is found.
found_passes :
    (p : Char → Bool) (k : ℕ) (c : Char) (table : List (ℕ × Char))
    → any (λ e. not (p e.1)) table ≡ false
    → lookup k table ≡ some c
    → p c ≡ true
unfolding lookup
found_passes p k c [] h found = absurd (cc)
found_passes p k c ((j, d) ∷ table) h found = elim (Bool-cases (j == k)) [
  | inl same ↦
      let first : d ≡ c = ground (arith, same, found) in
      subst (λ d. p d ≡ true) first (ground (arith, h))
  | inr other ↦ found_passes p k c table (ground (arith, h)) (ground (arith, other, found))
]

abbrev is_fixed : Char → Bool
is_fixed c = is_alphanumeric (code c) && is_none (lookup (code c) capitals)

upper_fixed : (c : Char) → is_alphanumeric (code c) ≡ true → is_fixed (ascii_upper c) ≡ true
unfolding lookup ascii_upper
upper_fixed c h = elim (Option-cases (lookup (code c) capitals)) [
  | inl capital ↦ rw capital (ground (arith, h, capital))
  | inr (d, small) ↦ rw small (found_passes is_fixed (code c) d capitals refl small)
]

fixed_parts :
    (c : Char) → is_fixed c ≡ true → (is_alphanumeric (code c) ≡ true) × (ascii_upper c ≡ c)
unfolding lookup ascii_upper
fixed_parts c h = elim (Option-cases (lookup (code c) capitals)) [
  | inl capital ↦ (ground (arith, h), rw capital refl)
  | inr (d, small) ↦ absurd (ground (arith, h, small))
]

-- The normal form of a normal form is itself.
pub normalize_fingerprint_idem :
    (s : String) → normalize_fingerprint (normalize_fingerprint s) ≡ normalize_fingerprint s
unfolding normalize_fingerprint
normalize_fingerprint_idem String.[] = refl
normalize_fingerprint_idem (String.◌∷◌ c s) = elim (Bool-cases (is_alphanumeric (code c))) [
  | inl good ↦ rw good (
      let (keeps, same) = fixed_parts (ascii_upper c) (upper_fixed c good) in
      rw keeps (rw (same, normalize_fingerprint_idem s) refl))
  | inr bad ↦ rw bad (normalize_fingerprint_idem s)
]

solid_digit : (n : ℕ) → is_whitespace (code (digit n)) ≡ false
unfolding lookup digit
solid_digit n = elim (Option-cases (lookup n digits)) [
  | inl missing ↦ rw missing refl
  | inr (d, found) ↦
      let solid = found_passes (λ c. not (is_whitespace (code c))) n d digits refl found in
      rw found (ground (arith, solid))
]

put_part_solid : (n : ℕ) (rest : String) → is_solid (put_part n rest) ≡ is_solid rest
unfolding put_part
put_part_solid n rest = ground (
  arith,
  solid_digit (n / 10000 % 10),
  solid_digit (n / 1000 % 10),
  solid_digit (n / 100 % 10),
  solid_digit (n / 10 % 10),
  solid_digit (n % 10),
)

join_parts_solid : (b : ℕ × ℕ × ℕ) → is_solid (join_parts b) ≡ true
unfolding join_parts
join_parts_solid (x, y, z) =
    put_part_solid x (String.◌∷◌ "-" (put_part y (String.◌∷◌ "-" (put_part z ""))))
    ∙ put_part_solid y (String.◌∷◌ "-" (put_part z ""))
    ∙ put_part_solid z ""

-- A verification code has no white character.
pub code_solid : (fp : String) → is_solid (verification_code_from_fingerprint fp) ≡ true
unfolding verification_code_from_fingerprint code_from_value
code_solid fp = elim (Bool-cases (is_empty_str (normalize_fingerprint fp))) [
  | inl empty ↦ rw empty refl
  | inr given ↦
      rw given
        (join_parts_solid (fill_buckets 0 (normalize_fingerprint fp) (0x1357, 0x2468, 0x369C)))
]
