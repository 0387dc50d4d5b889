-- ===== src/Endings/Retry.antt =====
-- The paths that a retry of core_service.rs sends again.
use mathlib.Core.List.{Memᴰ}
use dash_drop.Base.{
  ℕ, String, Bool, true, false, some, List, [], ◌∷◌, ◌≡◌, refl, sym, inl, inr, ◌==◌, nat_eq,
  string_eq, any, lookup, Bool-cases, Distinct,
}

abbrev has : List String → String → Bool
has xs path = any (λ p. p == path) xs

-- Some failed file has this path.
abbrev pub IsFailed : List (ℕ × String) → List ℕ → String → Type 0
IsFailed mapping ids path = (id : ℕ) × Memᴰ id ids × (lookup id mapping ≡ some path)

mem-has : (xs : List String) (path : String) → Memᴰ path xs → has xs path ≡ true
mem-has [] path m = elim m [ ]
mem-has (x ∷ xs) path (Memᴰ.head e) = rw ((string_eq.eqb_iff x path).1 (sym e)) refl
mem-has (x ∷ xs) path (Memᴰ.tail m) = elim (Bool-cases (x == path)) [
  | inl same ↦ rw same refl
  | inr other ↦ rw other (mem-has xs path m)
]

-- What the paths are of: the ids that are left, and the paths that were taken before.
record Chosen (mapping : List (ℕ × String)) (ids : List ℕ) (seen r : List String) : Type 0 where
  sound : (path : String) → Memᴰ path r → IsFailed mapping ids path × (has seen path ≡ false)
  complete : (path : String) → IsFailed mapping ids path → has seen path ≡ false → Memᴰ path r
  distinct : Distinct r
