-- ===== src/AutoAccept/Suffixes.antt =====
-- The suffixes of programs in the names of files, HIGH_RISK_SUFFIXES and `infer_offer_risk_class`
-- of src-tauri/src/transport/receiver.rs.
use Prim.Native.Char.{code}
use mathlib.Core.List.{reverse, reverse-append, reverse-reverse}
use dash_drop.Base.{
  ℕ, String, Bool, true, false, List, [], ◌∷◌, ◌++◌, ◌≡◌, ◌↔◌, inl, inr, refl, sym, ap, ◌∙◌, nat_eq,
  nat_beq, nat_beq_iff, any, map, unwrap_or, lower_codes, ascii_lower, starts_with_codes, All,
  Bool-cases, arith,
}
use dash_drop.Types.Protocol.{FileItem}
use dash_drop.AutoAccept.{high_risk_suffixes, file_name, candidate_name, ends_with, has_risky_name}

-- The suffixes that are taken for those of programs.
abbrev pub program_suffixes : List String
program_suffixes =
    ".sh" ∷ ".bash" ∷ ".zsh" ∷ ".bat" ∷ ".cmd" ∷ ".ps1" ∷ ".exe" ∷ ".msi" ∷ ".app" ∷ ".pkg" ∷ ".deb"
    ∷ ".rpm" ∷ []

abbrev pub codes : String → List ℕ
codes String.[] = []
codes (String.◌∷◌ c s) = code c ∷ codes s

-- The name, its capitals made small, is a stem and the suffix.
abbrev pub EndsIn : String → String → Type 0
EndsIn name suffix = (stem : List ℕ) × (map ascii_lower (codes name) ≡ stem ++ codes suffix)

-- The name of the item is the last part of its path or, without one, the name it carries.
abbrev pub IsPlainName : FileItem → Type 0
IsPlainName item =
    All (λ suffix. ¬ EndsIn (unwrap_or (file_name item.rel_path) item.name) suffix) program_suffixes

lower_codes-map : (s : String) → lower_codes s ≡ map ascii_lower (codes s)
unfolding lower_codes
lower_codes-map String.[] = refl
lower_codes-map (String.◌∷◌ c s) = ap (◌∷◌ (ascii_lower (code c))) (lower_codes-map s)

starts_with_rest : (p t : List ℕ) → starts_with_codes p t ≡ true → (rest : List ℕ) × (t ≡ p ++ rest)
unfolding starts_with_codes
starts_with_rest [] t h = (t, refl)
starts_with_rest (c ∷ p) [] h = absurd (cc)
starts_with_rest (c ∷ p) (d ∷ t) h =
    let same : nat_beq c d ≡ true = ground (arith, h) in
    let (rest, e) = starts_with_rest p t (ground (arith, h)) in
    (rest, ap (λ x. x ∷ t) (sym ((nat_beq_iff c d).0 same)) ∙ ap (◌∷◌ c) e)

starts_with_append : (p rest : List ℕ) → starts_with_codes p (p ++ rest) ≡ true
unfolding starts_with_codes
starts_with_append [] rest = refl
starts_with_append (c ∷ p) rest = rw ((nat_beq_iff c c).1 refl) (starts_with_append p rest)

ends_iff :
    (s t : List ℕ)
    → (starts_with_codes (reverse s) (reverse t) ≡ true) ↔ ((stem : List ℕ) × (t ≡ stem ++ s))
ends_iff s t = (
  λ h.
      let (rest, e) = starts_with_rest (reverse s) (reverse t) h in
      (
        reverse rest,
        sym (reverse-reverse t)
            ∙ ap reverse e
            ∙ reverse-append (reverse s) rest
            ∙ ap (λ x. reverse rest ++ x) (reverse-reverse s),
      ),
  λ (stem, e).
      ap (starts_with_codes (reverse s)) (ap reverse e ∙ reverse-append stem s)
      ∙ starts_with_append (reverse s) (reverse stem),
)

ends_with_iff :
    (name suffix : String)
    → lower_codes suffix ≡ codes suffix
    → (ends_with (lower_codes name) suffix ≡ true) ↔ EndsIn name suffix
unfolding ends_with
ends_with_iff name suffix small = (
  λ h.
      let (stem, e) = (ends_iff (lower_codes suffix) (lower_codes name)).0 h in
      (stem, sym (lower_codes-map name) ∙ e ∙ ap (λ x. stem ++ x) small),
  λ (stem, e).
      (ends_iff (lower_codes suffix) (lower_codes name)).1
        (stem, lower_codes-map name ∙ e ∙ ap (λ x. stem ++ x) (sym small)),
)

no_suffix_iff :
    (name : String) (suffixes : List String)
    → All (λ suffix. lower_codes suffix ≡ codes suffix) suffixes
    → (any (λ suffix. ends_with (lower_codes name) suffix) suffixes ≡ false)
      ↔ All (λ suffix. ¬ EndsIn name suffix) suffixes
no_suffix_iff name [] small = (λ h. tt, λ h. refl)
no_suffix_iff name (suffix ∷ suffixes) small =
    let one = ends_with_iff name suffix small.0 in
    let others = no_suffix_iff name suffixes small.1 in
    elim (Bool-cases (ends_with (lower_codes name) suffix)) [
      | inl ends ↦ rw ends (λ h. absurd (cc), λ h. absurd (h.0 (one.0 ends)))
      | inr plain ↦
          rw plain
            (λ h. (λ there. let ends = one.1 there in absurd (cc), others.0 h), λ h. others.1 h.1)
    ]

small_suffixes : All (λ suffix. lower_codes suffix ≡ codes suffix) program_suffixes
unfolding lower_codes
small_suffixes = (
  refl,
  (refl, (refl, (refl, (refl, (refl, (refl, (refl, (refl, (refl, (refl, (refl, tt))))))))))),
)

any_swap : (p : String → Bool) → any p high_risk_suffixes ≡ any p program_suffixes
any_swap p = ground arith

pub has_risky_name-IsPlainName :
    (item : FileItem) → (has_risky_name item ≡ false) ↔ IsPlainName item
unfolding has_risky_name candidate_name
has_risky_name-IsPlainName item =
    let name = unwrap_or (file_name item.rel_path) item.name in
    let same = any_swap (λ suffix. ends_with (lower_codes name) suffix) in
    let plain = no_suffix_iff name program_suffixes small_suffixes in
    (λ h. plain.0 (sym same ∙ h), λ h. same ∙ plain.1 h)
