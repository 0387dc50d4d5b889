-- ===== src/Base/Dict.antt =====
-- `HashMap` as an association list with one entry for each key that was inserted. The order of
-- the entries carries no meaning in the source, and no theorem reads it.

use mathlib.Core.Path.{◌≡◌, refl}
use mathlib.Core.Logic.{◌≢◌, inl, inr}
use mathlib.Core.List.{List, [], ◌∷◌}
use mathlib.Core.Bool.{Bool, true, not}
use mathlib.Core.Option.{Option, none, some}
use native.Mathlib.Omega.{arith}
use dash_drop.Base.Tests.{Eq, ◌==◌, if◌then◌else◌, is_none, option_map, Bool-cases}

module _ {ℓ κ} {K : Type ℓ} {V : Type κ} ⦃e : Eq K⦄ where
  unfoldable pub lookup : K → List (K × V) → Option V
  lookup key [] = none
  lookup key ((head, value) ∷ rest) = if head == key then some value else lookup key rest

  unfoldable pub insert : K → V → List (K × V) → List (K × V)
  insert key value [] = (key, value) ∷ []
  insert key value ((head, old) ∷ rest) =
      if head == key then (key, value) ∷ rest else (head, old) ∷ insert key value rest

  unfoldable pub remove : K → List (K × V) → List (K × V)
  remove k [] = []
  remove k ((j, w) ∷ m) = let rest = remove k m in if j == k then rest else (j, w) ∷ rest

  unfoldable pub contains_key : K → List (K × V) → Bool
  unfolding lookup
  contains_key k m = not (is_none (lookup k m))

  -- `if let Some(v) = map.get_mut(k) { *v = f(v) }`.
  unfoldable pub update : K → (V → V) → List (K × V) → List (K × V)
  update k f [] = []
  update k f ((j, w) ∷ m) = (j, if j == k then f w else w) ∷ update k f m

module _ {ℓ κ} {K : Type ℓ} {V : Type κ} where
  -- `map.retain(|_, v| p(v))`.
  unfoldable pub retain : (V → Bool) → List (K × V) → List (K × V)
  retain p [] = []
  retain p ((j, w) ∷ m) = let rest = retain p m in if p w then (j, w) ∷ rest else rest

module _ {ℓ κ} {K : Type ℓ} {V : Type κ} ⦃e : Eq K⦄ where
  pub lookup-insert :
      (k key : K) (value : V) (m : List (K × V))
      → lookup key (insert k value m) ≡ (if k == key then some value else lookup key m)
  unfolding insert lookup
  lookup-insert k key value [] = refl
  lookup-insert k key value ((head, old) ∷ rest) =
      let tail = lookup-insert k key value rest in
      ground (arith, tail, e.eqb_iff head key, e.eqb_iff head k, e.eqb_iff k key)

  pub lookup-remove :
      (k j : K) (m : List (K × V)) → lookup j (remove k m) ≡ (if k == j then none else lookup j m)
  unfolding lookup remove
  lookup-remove k j [] = ground arith
  lookup-remove k j ((i, w) ∷ m) =
      ground (arith, e.eqb_iff k j, e.eqb_iff i k, e.eqb_iff i j, lookup-remove k j m)

  pub lookup-update :
      (k j : K) (f : V → V) (m : List (K × V))
      → lookup j (update k f m) ≡ (if k == j then option_map f (lookup j m) else lookup j m)
  unfolding lookup update
  lookup-update k j f [] = ground arith
  lookup-update k j f ((i, w) ∷ m) =
      ground (arith, e.eqb_iff k j, e.eqb_iff i k, e.eqb_iff i j, lookup-update k j f m)

  pub lookup-insert_self : (k : K) (v : V) (m : List (K × V)) → lookup k (insert k v m) ≡ some v
  lookup-insert_self k v m = ground (arith, lookup-insert k k v m, e.eqb_iff k k)

  pub lookup-insert_ne :
      (k j : K) (v : V) (m : List (K × V)) → k ≢ j → lookup j (insert k v m) ≡ lookup j m
  lookup-insert_ne k j v m h = ground (arith, lookup-insert k j v m, e.eqb_iff k j)

  pub lookup-remove_self : (k : K) (m : List (K × V)) → lookup k (remove k m) ≡ none
  lookup-remove_self k m = ground (arith, lookup-remove k k m, e.eqb_iff k k)

  pub lookup-remove_ne : (k j : K) (m : List (K × V)) → k ≢ j → lookup j (remove k m) ≡ lookup j m
  lookup-remove_ne k j m h = ground (arith, lookup-remove k j m, e.eqb_iff k j)

  pub contains_key-lookup :
      (k : K) (v : V) (m : List (K × V)) → lookup k m ≡ some v → contains_key k m ≡ true
  unfolding contains_key
  contains_key-lookup k v m h = rw h

  -- To prove of the entry at `j` after a write at `k`.
  pub insert_cases {μ} :
      (P : Option V → Type μ) (k j : K) (v : V) (m : List (K × V))
      → (k ≡ j → P (some v))
      → (k ≢ j → P (lookup j m))
      → P (lookup j (insert k v m))
  insert_cases P k j v m same other = elim (Bool-cases (k == j)) [
    | inl h ↦ rw (lookup-insert k j v m, h) (same ((e.eqb_iff k j).0 h))
    | inr h ↦ rw (lookup-insert k j v m, h) (other (λ p. ground (arith, e.eqb_iff k j)))
  ]

  pub update_cases {μ} :
      (P : Option V → Type μ) (k j : K) (f : V → V) (m : List (K × V))
      → (k ≡ j → P (option_map f (lookup j m)))
      → (k ≢ j → P (lookup j m))
      → P (lookup j (update k f m))
  update_cases P k j f m same other = elim (Bool-cases (k == j)) [
    | inl h ↦ rw (lookup-update k j f m, h) (same ((e.eqb_iff k j).0 h))
    | inr h ↦ rw (lookup-update k j f m, h) (other (λ p. ground (arith, e.eqb_iff k j)))
  ]

  pub remove_cases {μ} :
      (P : Option V → Type μ) (k j : K) (m : List (K × V))
      → (k ≡ j → P none)
      → (k ≢ j → P (lookup j m))
      → P (lookup j (remove k m))
  remove_cases P k j m same other = elim (Bool-cases (k == j)) [
    | inl h ↦ rw (lookup-remove k j m, h) (same ((e.eqb_iff k j).0 h))
    | inr h ↦ rw (lookup-remove k j m, h) (other (λ p. ground (arith, e.eqb_iff k j)))
  ]
