-- ===== src/Files/Names.antt =====
-- The names that receiver.rs makes up: the temporary file is never the file itself, and a conflict
-- is resolved by a path that is free.
use Prim.Native.String.{◌++◌, len}
use text.Mathlib.TextPositions.{len-append}
use mathlib.Core.List.{◌++◌ as append}
use dash_drop.Base.{
  ℕ, zero, suc, String, false, some, List, [], ◌∷◌, ◌≡◌, refl, sym, ◌∙◌, ap, ◌≢◌, ◌⊎◌, ◌+◌, arith,
  Bool-cases, Option-cases, inl, inr, ok,
}
use dash_drop.Paths.{PathBuf, push, pop_name}
use dash_drop.Files.{
  Disk, FileConflictStrategy, rename_file, overwrite, skip, exists, last_name, with_file_name,
  temp_path_for, free_candidate, renamed, resolve_conflict_path,
}

longer : (s : String) → s ++ ".dashdrop.part" ≢ s
longer s h = omega (arith, len-append s ".dashdrop.part", ap len h)

last_name-append : (xs : List String) (x : String) → last_name (append xs (x ∷ [])) ≡ some x
last_name-append [] x = refl
last_name-append (y ∷ []) x = refl
last_name-append (y ∷ z ∷ xs) x = last_name-append (z ∷ xs) x

last_name-with_file_name :
    (p : PathBuf) (name : String) → last_name (with_file_name p name).names ≡ some name
unfolding with_file_name push
last_name-with_file_name p name = last_name-append (pop_name p.names) name

-- The temporary file of a path is another path.
pub temp_path_for_other : (p : PathBuf) → temp_path_for p ≢ p
unfolding temp_path_for
temp_path_for_other p h = elim (Option-cases (last_name p.names)) [
  | inl e ↦
      let there = last_name-with_file_name p "file.dashdrop.part" in
      let same : with_file_name p "file.dashdrop.part" ≡ p = rw (e, temp_path_for) at h in
      absurd (cc (there, ap (λ (q : PathBuf). last_name q.names) same, e))
  | inr (name, e) ↦
      let there = last_name-with_file_name p (name ++ ".dashdrop.part") in
      let same : with_file_name p (name ++ ".dashdrop.part") ≡ p = rw (e, temp_path_for) at h in
      longer name (unsome (sym there ∙ ap (λ (q : PathBuf). last_name q.names) same ∙ e))
]
  where
    unsome : {x y : String} → some x ≡ some y → x ≡ y
    unsome e = cc

free_candidate_free :
    (fuel idx : ℕ) (p q : PathBuf) (d : Disk)
    → free_candidate fuel idx p d ≡ some q
    → exists q d ≡ false
unfolding free_candidate
free_candidate_free zero idx p q d h = absurd (cc)
free_candidate_free (suc fuel) idx p q d h = elim (Bool-cases (exists (renamed p idx) d)) [
  | inl taken ↦ free_candidate_free fuel (idx + 1) p q d (rw taken at h)
  | inr free ↦
      let same : renamed p idx ≡ q = unsome (rw free at h) in ap (λ x. exists x d) (sym same) ∙ free
]
  where
    unsome : {x y : PathBuf} → some x ≡ some y → x ≡ y
    unsome e = cc

-- Where a conflict is resolved by a path, that path is free, or it is the path that was asked for
-- and the strategy is to overwrite.
pub resolve_conflict_path_free :
    (p q : PathBuf) (strategy : FileConflictStrategy) (d : Disk)
    → resolve_conflict_path p strategy d ≡ ok (some q)
    → (exists q d ≡ false) ⊎ ((strategy ≡ overwrite) × (q ≡ p))
unfolding resolve_conflict_path
resolve_conflict_path_free p q overwrite d h = inr (refl, cc)
resolve_conflict_path_free p q skip d h = elim (Bool-cases (exists p d)) [
  | inl taken ↦ absurd (ground arith)
  | inr free ↦ let same : p ≡ q = ground arith in inl (ap (λ x. exists x d) (sym same) ∙ free)
]
resolve_conflict_path_free p q rename_file d h = elim (Bool-cases (exists p d)) [
  | inl taken ↦ elim (Option-cases (free_candidate 9999 1 p d)) [
    | inl e ↦ absurd (ground arith)
    | inr (candidate, e) ↦
        let same : candidate ≡ q = ground arith in
        inl (free_candidate_free 9999 1 p q d (e ∙ ap some same))
  ]
  | inr free ↦ let same : p ≡ q = ground arith in inl (ap (λ x. exists x d) (sym same) ∙ free)
]
