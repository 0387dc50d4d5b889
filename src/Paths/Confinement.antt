-- ===== src/Paths/Confinement.antt =====
-- Which paths path_validation.rs accepts, and where they lead.
use mathlib.Core.List.{append-nil, append_assoc}
use dash_drop.Base.{
  String, true, false, List, [], ◌∷◌, ◌++◌, ◌≡◌, refl, sym, ◌∙◌, ap, ◌↔◌, ◌||◌, not, ◌==◌,
  string_eq, beq_refl, is_empty_str, filter, Result, ok, All, arith, Bool-cases, inl, inr,
  bind-eq-ok, not-err-ok,
}
use dash_drop.Paths.{
  PathBuf, PathError, Component, push, normalize_from, normalize_path, components, segments,
  is_prefix, path_starts_with, is_reserved, validate_segment, validate_segments, check_prefix,
  validate_rel_path, starts_with_separator, ends_with_separator, contains_double_separator,
  is_drive_path,
}

-- The names of the segments: all but `.`.
abbrev pub named : List String → List String
named = filter (λ x. not (x == "."))

normalize_append :
    (p : PathBuf) (xs ys : List Component)
    → normalize_from p (xs ++ ys) ≡ normalize_from (normalize_from p xs) ys
unfolding normalize_from
normalize_append p [] ys = refl
normalize_append p (x ∷ xs) ys = normalize_append (push p x) xs ys

is_prefix-append : (xs ys : List String) → is_prefix xs (xs ++ ys) ≡ true
is_prefix-append [] ys = refl
is_prefix-append (x ∷ xs) ys = rw (beq_refl x) (is_prefix-append xs ys)

under :
    (p : PathBuf) (xs : List String)
    → path_starts_with (record p { names = p.names ++ xs }) p ≡ true
unfolding path_starts_with
under p xs =
    rw (is_prefix-append p.names xs)
      (elim (Bool-cases p.absolute) [ inl h ↦ rw h refl | inr h ↦ rw h refl ])

ok-injective : {p q : PathBuf} (e : Result PathBuf PathError) → e ≡ ok p → e ≡ ok q → p ≡ q
ok-injective e h k = cc

-- A name that stays in its directory.
abbrev pub Inside : String → Type 0
Inside x = (x == ".." ≡ false) × (x == "." ≡ false) × (is_empty_str x ≡ false)

module _ (to_uppercase : String → String) where
  -- A segment that the check lets through.
  abbrev pub Allowed : String → Type 0
  Allowed x = (x == ".." ≡ false) × (is_empty_str x ≡ false) × (is_reserved to_uppercase x ≡ false)

  abbrev pub Acceptable : String → Type 0
  Acceptable rel_path =
      (starts_with_separator rel_path ≡ false)
      × (is_drive_path rel_path ≡ false)
      × (ends_with_separator rel_path ≡ false)
      × (contains_double_separator rel_path ≡ false)
      × All Allowed (segments rel_path)

  validate_segment-ok : (x : String) → validate_segment to_uppercase x ≡ ok tt → Allowed x
  unfolding validate_segment
  validate_segment-ok x e = ground arith

  validate_segments-ok :
      (xs : List String) → validate_segments to_uppercase xs ≡ ok tt → All Allowed xs
  unfolding validate_segments
  validate_segments-ok [] e = tt
  validate_segments-ok (x ∷ xs) e =
      let (u, here, rest) = bind-eq-ok (validate_segment to_uppercase x) _ e in
      (validate_segment-ok x here, validate_segments-ok xs rest)

  validate_segments_complete :
      (xs : List String) → All Allowed xs → validate_segments to_uppercase xs ≡ ok tt
  unfolding validate_segments validate_segment
  validate_segments_complete [] h = refl
  validate_segments_complete (x ∷ xs) h =
      rw (h.0.0, h.0.1, h.0.2) (validate_segments_complete xs h.1)

  -- Allowed segments only add names.
  normalize-components :
      (p : PathBuf) (xs : List String)
      → All Allowed xs
      → normalize_from p (components xs) ≡ record p { names = p.names ++ named xs }
  unfolding normalize_from components push
  normalize-components p [] h = ap (λ n. record p { names = n }) (sym (append-nil p.names))
  normalize-components p (x ∷ xs) h = elim (Bool-cases (x == ".")) [
    | inl dot ↦ rw (h.0.1, dot) (normalize-components p xs h.1)
    | inr name ↦
        rw (h.0.0, h.0.1, name)
          (normalize-components (record p { names = p.names ++ (x ∷ []) }) xs h.1
            ∙ ap (λ n. record p { names = n }) (append_assoc p.names (x ∷ []) (named xs)))
  ]

  abbrev joined : String → List Component → PathBuf
  joined rel_path save_root =
      let root = normalize_path save_root in
      record root { names = root.names ++ named (segments rel_path) }

  checked :
      (rel_path : String) (save_root : List Component)
      → All Allowed (segments rel_path)
      → check_prefix
          (normalize_path (save_root ++ components (segments rel_path)))
          (normalize_path save_root)
        ≡ ok (joined rel_path save_root)
  unfolding check_prefix normalize_path
  checked rel_path save_root h =
      rw (normalize_append _ save_root (components (segments rel_path))) (
        rw (normalize-components (normalize_path save_root) (segments rel_path) h)
          (rw (under (normalize_path save_root) (named (segments rel_path))) refl))

  -- A path is accepted exactly when it has no separator in front, at the end or twice in a row, no
  -- drive, and no segment that is empty, `..` or a reserved name; it then leads to the save root
  -- with the segments other than `.` behind it. The test of the prefix never refuses.
  pub validate_rel_path_iff :
      (rel_path : String) (save_root : List Component) (p : PathBuf)
      → (validate_rel_path to_uppercase rel_path save_root ≡ ok p) ↔ (
          Acceptable rel_path
          × (p ≡ (
              let root = normalize_path save_root in
              record root { names = root.names ++ named (segments rel_path) })))
  unfolding validate_rel_path
  validate_rel_path_iff rel_path save_root p = (sound, complete)
    where
      sound :
          validate_rel_path to_uppercase rel_path save_root ≡ ok p
          → Acceptable rel_path × (p ≡ joined rel_path save_root)
      sound e = elim (Bool-cases (starts_with_separator rel_path || is_drive_path rel_path)) [
        | inl bad ↦ absurd (not-err-ok (rw bad at e))
        | inr fine ↦
            elim (Bool-cases (
              starts_with_separator rel_path
              || ends_with_separator rel_path
              || contains_double_separator rel_path)) [
                | inl bad ↦ absurd (not-err-ok (rw (fine, bad) at e))
                | inr good ↦
                    let (u, valid, last) =
                      bind-eq-ok (validate_segments to_uppercase (segments rel_path)) _
                        (rw (fine, good) at e) in
                    let allowed = validate_segments-ok (segments rel_path) valid in
                    (
                      (ground arith, ground arith, ground arith, ground arith, allowed),
                      ok-injective _ last (checked rel_path save_root allowed),
                    )
              ]
      ]

      complete :
          Acceptable rel_path × (p ≡ joined rel_path save_root)
          → validate_rel_path to_uppercase rel_path save_root ≡ ok p
      complete ((start, drive, last, double, allowed), same) =
          rw (start, drive, last, double)
            (rw (validate_segments_complete (segments rel_path) allowed)
              (checked rel_path save_root allowed ∙ ap ok (sym same)))

  named-Inside : (xs : List String) → All Allowed xs → All Inside (named xs)
  named-Inside [] h = tt
  named-Inside (x ∷ xs) h = elim (Bool-cases (x == ".")) [
    | inl dot ↦ rw dot (named-Inside xs h.1)
    | inr name ↦ rw name ((h.0.0, name, h.0.1), named-Inside xs h.1)
  ]

  -- A path that is accepted stays under the save root: its names are those of the root with names
  -- behind them of which none is empty, `.` or `..`.
  pub validate_rel_path-Inside :
      (rel_path : String) (save_root : List Component) (p : PathBuf)
      → validate_rel_path to_uppercase rel_path save_root ≡ ok p
      → let root = normalize_path save_root in
        (p.absolute ≡ root.absolute)
        × ((tail : List String) × (p.names ≡ root.names ++ tail) × All Inside tail)
  validate_rel_path-Inside rel_path save_root p e =
      let (accepted, same) = (validate_rel_path_iff rel_path save_root p).0 e in
      rw same (refl, (named (segments rel_path), refl, named-Inside (segments rel_path) accepted.4))
