-- ===== src/AutoAccept/Decision.antt =====
-- When an offer of src-tauri/src/transport/receiver.rs is accepted without a question.
use dash_drop.Base.{
  ℕ, Bool, true, false, Option, none, some, List, [], ◌∷◌, ◌≡◌, ◌↔◌, ◌⊎◌, inl, inr, refl, ◌≤◌,
  nat_eq, if◌then◌else◌, any, unwrap_or, All, Bool-cases, arith,
}
use dash_drop.Types.Protocol.{RiskClass, high, normal, FileItem}
use dash_drop.AutoAccept.Suffixes.{IsPlainName, has_risky_name-IsPlainName}
use dash_drop.AutoAccept.{
  auto_accept, has_risky_name, infer_offer_risk_class, is_high, determine_auto_accept_decision,
}

-- The sender calls the item normal, or says nothing and its name has no suffix of a program.
abbrev pub IsHarmless : FileItem → Type 0
IsHarmless item = (item.risk_class ≡ some normal) ⊎ ((item.risk_class ≡ none) × IsPlainName item)

class_iff :
    (o : Option RiskClass) (risky : Bool)
    → (is_high (unwrap_or o (if risky then high else normal)) ≡ false)
      ↔ ((o ≡ some normal) ⊎ ((o ≡ none) × (risky ≡ false)))
class_iff none true = ground arith
class_iff none false = ground arith
class_iff (some high) risky = ground arith
class_iff (some normal) risky = ground arith

risk_iff : (item : FileItem) → (is_high (infer_offer_risk_class item) ≡ false) ↔ IsHarmless item
unfolding infer_offer_risk_class
risk_iff item =
    let by_class = class_iff item.risk_class (has_risky_name item) in
    let by_name = has_risky_name-IsPlainName item in
    (
      λ h. elim (by_class.0 h) [
        | inl said ↦ inl said
        | inr named ↦ inr (named.0, by_name.0 named.1)
      ],
      λ h.
          by_class.1
            (elim h [ inl said ↦ inl said | inr named ↦ inr (named.0, by_name.1 named.1) ]),
    )

any_risk_iff :
    (items : List FileItem)
    → (any (λ item. is_high (infer_offer_risk_class item)) items ≡ false) ↔ All IsHarmless items
any_risk_iff [] = (λ h. tt, λ h. refl)
any_risk_iff (item ∷ items) = elim (Bool-cases (is_high (infer_offer_risk_class item))) [
  | inl risky ↦ rw risky (λ h. absurd (cc), λ h. let safe = (risk_iff item).1 h.0 in absurd (cc))
  | inr plain ↦
      rw plain
        (λ h. ((risk_iff item).0 plain, (any_risk_iff items).0 h), λ h. (any_risk_iff items).1 h.1)
]

-- An offer is accepted without a question if and only if its sender is trusted and was
-- authenticated, the setting is on, the offer says that it has at most 500 MiB, and each item is
-- called normal by the sender or, where the sender gives it no class, has a name that does not end
-- in .sh, .bash, .zsh, .bat, .cmd, .ps1, .exe, .msi, .app, .pkg, .deb or .rpm, small letters or
-- capitals. The name is the last part of the path or, without one, the name of the item.
pub determine_auto_accept_decision_iff :
    (trusted enabled : Bool) (total_size : ℕ) (items : List FileItem)
    → (determine_auto_accept_decision trusted enabled total_size items ≡ auto_accept)
      ↔ ((trusted ≡ true) × (enabled ≡ true) × (total_size ≤ 524288000) × All IsHarmless items)
unfolding determine_auto_accept_decision
determine_auto_accept_decision_iff trusted enabled total_size items =
    let harmless = any_risk_iff items in
    (
      λ h. (ground arith, ground arith, ground arith, harmless.0 (ground arith)),
      λ (t, e, size, h). let none_high = harmless.1 h in ground (arith, t, e, size, none_high),
    )
