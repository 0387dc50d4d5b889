-- ===== src/Base/DictAll.antt =====
-- Facts about every entry of a dictionary, and its size.
use Prim.Native.Nat.{suc, ◌≤◌}
use mathlib.Core.Path.{◌≡◌, refl, subst, sym, ap}
use mathlib.Core.Logic.{◌≢◌, inl, inr}
use mathlib.Core.List.{List, [], ◌∷◌}
use mathlib.Core.Bool.{Bool, true, false}
use mathlib.Core.Option.{none, some}
use native.Mathlib.Omega.{arith}
use dash_drop.Base.Tests.{Eq, ◌==◌, Bool-cases}
use dash_drop.Base.Lists.{All, length}
use dash_drop.Base.Dict.{lookup, insert, remove, update, retain}

module _ {ℓ κ μ} {K : Type ℓ} {V : Type κ} ⦃e : Eq K⦄ (P : K × V → Type μ) where
  pub All-insert : (k : K) (v : V) (m : List (K × V)) → All P m → P (k, v) → All P (insert k v m)
  unfolding insert
  All-insert k v [] h p = (p, tt)
  All-insert k v ((j, w) ∷ m) h p = elim (Bool-cases (j == k)) [
    | inl same ↦ rw same (p, h.1)
    | inr other ↦ rw other (h.0, All-insert k v m h.1 p)
  ]

  pub All-remove : (k : K) (m : List (K × V)) → All P m → All P (remove k m)
  unfolding remove
  All-remove k [] h = tt
  All-remove k ((j, w) ∷ m) h = elim (Bool-cases (j == k)) [
    | inl same ↦ rw same (All-remove k m h.1)
    | inr other ↦ rw other (h.0, All-remove k m h.1)
  ]

  pub All-update :
      (k : K) (f : V → V) (m : List (K × V))
      → ((w : V) → P (k, w) → P (k, f w))
      → All P m
      → All P (update k f m)
  unfolding update
  All-update k f [] step h = tt
  All-update k f ((j, w) ∷ m) step h = elim (Bool-cases (j == k)) [
    | inl same ↦ rw same (
      subst (λ i. P (i, f w)) (sym ((e.eqb_iff j k).0 same))
          (step w (subst (λ i. P (i, w)) ((e.eqb_iff j k).0 same) h.0)),
      All-update k f m step h.1,
    )
    | inr other ↦ rw other (h.0, All-update k f m step h.1)
  ]

  pub All-lookup : (k : K) (v : V) (m : List (K × V)) → All P m → lookup k m ≡ some v → P (k, v)
  unfolding lookup
  All-lookup k v [] h q = absurd (cc)
  All-lookup k v ((j, w) ∷ m) h q = elim (Bool-cases (j == k)) [
    | inl same ↦
        subst (λ i. P (i, v)) ((e.eqb_iff j k).0 same) (subst (λ u. P (j, u)) (ground arith) h.0)
    | inr other ↦ All-lookup k v m h.1 (ground arith)
  ]

module _ {ℓ κ μ} {K : Type ℓ} {V : Type κ} (P : K × V → Type μ) where
  pub All-retain : (p : V → Bool) (m : List (K × V)) → All P m → All P (retain p m)
  unfolding retain
  All-retain p [] h = tt
  All-retain p ((j, w) ∷ m) h = elim (Bool-cases (p w)) [
    | inl keep ↦ rw keep (h.0, All-retain p m h.1)
    | inr drop ↦ rw drop (All-retain p m h.1)
  ]

module _ {ℓ κ} {K : Type ℓ} {V : Type κ} ⦃e : Eq K⦄ where
  pub length-update : (k : K) (f : V → V) (m : List (K × V)) → length (update k f m) ≡ length m
  unfolding update
  length-update k f [] = refl
  length-update k f ((j, w) ∷ m) = ap suc (length-update k f m)

  pub length-remove-le : (k : K) (m : List (K × V)) → length (remove k m) ≤ length m
  unfolding remove
  length-remove-le k [] = omega arith
  length-remove-le k ((j, w) ∷ m) = ground (arith, length-remove-le k m)

  pub remove_idem : (k : K) (m : List (K × V)) → remove k (remove k m) ≡ remove k m
  unfolding remove
  remove_idem k [] = refl
  remove_idem k ((j, w) ∷ m) = elim (Bool-cases (j == k)) [
    | inl same ↦ rw same (remove_idem k m)
    | inr other ↦ rw other (rw other (ap (◌∷◌ (j, w)) (remove_idem k m)))
  ]

  pub update_fusion :
      (k : K) (f g : V → V) (m : List (K × V))
      → update k f (update k g m) ≡ update k (λ v. f (g v)) m
  unfolding update
  update_fusion k f g [] = refl
  update_fusion k f g ((j, w) ∷ m) = elim (Bool-cases (j == k)) [
    | inl same ↦ rw same (ap (◌∷◌ (j, f (g w))) (update_fusion k f g m))
    | inr other ↦ rw other (ap (◌∷◌ (j, w)) (update_fusion k f g m))
  ]

module _ {ℓ κ} {K : Type ℓ} {V : Type κ} ⦃e : Eq K⦄ (p : V → Bool) where
  -- An entry that is kept is still found, and none appears.
  pub lookup-retain :
      (k : K) (v : V) (m : List (K × V))
      → p v ≡ true
      → lookup k m ≡ some v
      → lookup k (retain p m) ≡ some v
  unfolding lookup retain
  lookup-retain k v [] keep q = absurd (cc)
  lookup-retain k v ((j, w) ∷ m) keep q = elim (Bool-cases (j == k)) [
    | inl same ↦ ground (arith, same, q)
    | inr other ↦ ground (arith, other, lookup-retain k v m keep (ground arith))
  ]

  pub lookup-retain-none :
      (k : K) (m : List (K × V)) → lookup k m ≡ none → lookup k (retain p m) ≡ none
  unfolding lookup retain
  lookup-retain-none k [] q = refl
  lookup-retain-none k ((j, w) ∷ m) q = ground (arith, lookup-retain-none k m (ground arith))

module _ {ℓ κ} {K : Type ℓ} {V : Type κ} ⦃e : Eq K⦄ where
  -- Each key stands once.
  abbrev pub NodupKeys : List (K × V) → Type ℓ
  NodupKeys [] = Unit
  NodupKeys ((k, v) ∷ m) = All (λ x. x.0 ≢ k) m × NodupKeys m

  pub lookup_absent : (k : K) (m : List (K × V)) → All (λ x. x.0 ≢ k) m → lookup k m ≡ none
  unfolding lookup
  lookup_absent k [] h = refl
  lookup_absent k ((j, w) ∷ m) h = elim (Bool-cases (j == k)) [
    | inl same ↦ absurd (h.0 ((e.eqb_iff j k).0 same))
    | inr other ↦ rw other (lookup_absent k m h.1)
  ]

  -- An entry that is not kept is gone.
  pub lookup-retain_dropped :
      (p : V → Bool) (k : K) (v : V) (m : List (K × V))
      → NodupKeys m
      → lookup k m ≡ some v
      → p v ≡ false
      → lookup k (retain p m) ≡ none
  unfolding lookup retain
  lookup-retain_dropped p k v [] nodup q drop = refl
  lookup-retain_dropped p k v ((j, w) ∷ m) nodup q drop = elim (Bool-cases (j == k)) [
    | inl same ↦
        let gone : lookup k (retain p m) ≡ none = lookup-retain-none p k m (
          lookup_absent k m (subst (λ i. All (λ x. x.0 ≢ i) m) ((e.eqb_iff j k).0 same) nodup.0)) in
        ground (arith, same, q, drop, gone)
    | inr other ↦ ground (arith, other, lookup-retain_dropped p k v m nodup.1 (ground arith) drop)
  ]
