-- ===== src/Base/Trimmed.antt =====
-- What `str::trim` leaves as it is.
use Prim.Native.Char.{code}
use Prim.Native.String.{String}
use mathlib.Core.Path.{◌≡◌, refl, ap, ◌∙◌}
use mathlib.Core.Logic.{inl, inr}
use mathlib.Core.Bool.{Bool, true, false, ◌&&◌, not}
use native.Mathlib.Omega.{arith}
use dash_drop.Base.Tests.{Bool-cases}
use dash_drop.Base.Text.{is_whitespace, is_empty_str, trim_start, trim_end, trim}

-- No character is white.
abbrev pub is_solid : String → Bool
is_solid String.[] = true
is_solid (String.◌∷◌ c s) = not (is_whitespace (code c)) && is_solid s

-- The first character is not white.
abbrev starts_solid : String → Bool
starts_solid String.[] = true
starts_solid (String.◌∷◌ c s) = not (is_whitespace (code c))

trim_start_solid : (s : String) → starts_solid s ≡ true → trim_start s ≡ s
unfolding trim_start
trim_start_solid String.[] h = refl
trim_start_solid (String.◌∷◌ c s) h = elim (Bool-cases (is_whitespace (code c))) [
  | inl white ↦ absurd (ground (arith, white, h))
  | inr solid ↦ rw solid refl
]

starts-trim_start : (s : String) → starts_solid (trim_start s) ≡ true
unfolding trim_start
starts-trim_start String.[] = refl
starts-trim_start (String.◌∷◌ c s) = elim (Bool-cases (is_whitespace (code c))) [
  | inl white ↦ rw white (starts-trim_start s)
  | inr solid ↦ rw solid (ap not solid)
]

starts-trim_end : (s : String) → starts_solid s ≡ true → starts_solid (trim_end s) ≡ true
unfolding trim_end
starts-trim_end String.[] h = refl
starts-trim_end (String.◌∷◌ c s) h = ground (arith, h)

trim_end_idem : (s : String) → trim_end (trim_end s) ≡ trim_end s
unfolding trim_end
trim_end_idem String.[] = refl
trim_end_idem (String.◌∷◌ c s) =
    elim (Bool-cases (is_whitespace (code c) && is_empty_str (trim_end s))) [
      | inl dropped ↦ rw dropped refl
      | inr kept ↦ rw kept (rw (trim_end_idem s) (rw kept refl))
    ]

pub trim_idem : (s : String) → trim (trim s) ≡ trim s
unfolding trim
trim_idem s =
    ap trim_end (
      trim_start_solid (trim_end (trim_start s))
        (starts-trim_end (trim_start s) (starts-trim_start s)))
    ∙ trim_end_idem (trim_start s)

trim_end_solid : (s : String) → is_solid s ≡ true → trim_end s ≡ s
unfolding trim_end
trim_end_solid String.[] h = refl
trim_end_solid (String.◌∷◌ c s) h =
    let solid : is_whitespace (code c) ≡ false = ground (arith, h) in
    rw solid (ap (String.◌∷◌ c) (trim_end_solid s (ground (arith, h))))

solid_starts : (s : String) → is_solid s ≡ true → starts_solid s ≡ true
solid_starts String.[] h = refl
solid_starts (String.◌∷◌ c s) h = ground (arith, h)

pub trim_solid : (s : String) → is_solid s ≡ true → trim s ≡ s
unfolding trim
trim_solid s h = ap trim_end (trim_start_solid s (solid_starts s h)) ∙ trim_end_solid s h
