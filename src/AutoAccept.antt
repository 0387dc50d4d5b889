-- ===== src/AutoAccept.antt =====
-- Which offers are accepted without a question, `determine_auto_accept_decision` of
-- src-tauri/src/transport/receiver.rs. Paths are those of Unix.
pub mod Suffixes
pub mod Decision
mod Tests
use mathlib.Core.List.{reverse}
use dash_drop.Base.{
  ℕ, String, Bool, true, false, Option, none, some, List, [], ◌∷◌, ◌≡◌, ◌↔◌, ◌⊎◌, inl, inr, refl,
  sym, ap, ◌∙◌, ◌≤◌, ◌*◌, ◌&&◌, not, ◌==◌, nat_eq, ltb, if◌then◌else◌, any, unwrap_or, lower_codes,
  starts_with_codes, All, Bool-cases, Option-cases, arith,
}
use dash_drop.Types.Protocol.{RiskClass, high, normal, FileItem}
use dash_drop.Paths.{Component, root_dir, cur_dir, parent_dir, components, split_where}

pub data ManualReviewReason : Type 0 where
  untrusted_or_unauthenticated auto_accept_disabled size_threshold high_risk : ManualReviewReason

pub data AutoAcceptDecision : Type 0 where
  auto_accept : AutoAcceptDecision
  require_manual : ManualReviewReason → AutoAcceptDecision

abbrev pub trusted_auto_accept_max_bytes : ℕ
trusted_auto_accept_max_bytes = 524288000

abbrev pub high_risk_suffixes : List String
high_risk_suffixes =
    ".app" ∷ ".bat" ∷ ".bash" ∷ ".cmd" ∷ ".deb" ∷ ".exe" ∷ ".msi" ∷ ".pkg" ∷ ".ps1" ∷ ".rpm" ∷ ".sh"
    ∷ ".zsh" ∷ []

abbrev pub normal_name : Component → Option String
normal_name root_dir = none
normal_name cur_dir = none
normal_name parent_dir = none
normal_name (Component.normal name) = some name

abbrev pub last_normal : List Component → Option String
last_normal [] = none
last_normal (c ∷ []) = normal_name c
last_normal (c ∷ d ∷ cs) = last_normal (d ∷ cs)

-- `Path::new(rel_path).file_name()`.
unfoldable pub file_name : String → Option String
unfolding components split_where
file_name path = last_normal (components (split_where (λ c. c == 47) path))

-- `to_ascii_lowercase` of the name, by its characters.
unfoldable pub candidate_name : FileItem → List ℕ
unfolding file_name lower_codes
candidate_name item = lower_codes (unwrap_or (file_name item.rel_path) item.name)

unfoldable pub ends_with : List ℕ → String → Bool
unfolding starts_with_codes lower_codes
ends_with name suffix = starts_with_codes (reverse (lower_codes suffix)) (reverse name)

unfoldable pub has_risky_name : FileItem → Bool
unfolding candidate_name ends_with
has_risky_name item = any (λ suffix. ends_with (candidate_name item) suffix) high_risk_suffixes

unfoldable pub infer_offer_risk_class : FileItem → RiskClass
unfolding has_risky_name
infer_offer_risk_class item =
    unwrap_or item.risk_class (if has_risky_name item then high else normal)

abbrev pub is_high : RiskClass → Bool
is_high high = true
is_high normal = false

unfoldable pub determine_auto_accept_decision : Bool → Bool → ℕ → List FileItem → AutoAcceptDecision
determine_auto_accept_decision trusted_and_authenticated auto_accept_trusted_only total_size items =
    if not trusted_and_authenticated
    then require_manual untrusted_or_unauthenticated
    else if not auto_accept_trusted_only
    then require_manual auto_accept_disabled
    else if ltb trusted_auto_accept_max_bytes total_size
    then require_manual size_threshold
    else if any (λ item. is_high (infer_offer_risk_class item)) items
    then require_manual high_risk
    else auto_accept
