-- ===== src/AutoAccept/Tests.antt =====
-- Offers of one file.
use dash_drop.Base.{true, none, some, [], ◌∷◌, ◌≡◌, ◌↔◌, ◌≤◌, refl, All}
use dash_drop.Types.Protocol.{FileItem, regular_file, normal}
use dash_drop.AutoAccept.{
  infer_offer_risk_class, auto_accept, require_manual, high_risk, determine_auto_accept_decision,
}
use dash_drop.AutoAccept.Decision.{IsHarmless, determine_auto_accept_decision_iff}

abbrev item : FileItem
item = record {
  file_id = 0;
  name = "x";
  rel_path = "dir/Setup.EXE";
  size = 10;
  file_type = regular_file;
  modified = 0;
  risk_class = none;
  source_snapshot = none;
}

determine_auto_accept_decision_iff_example :
    (determine_auto_accept_decision true true 10 (item ∷ []) ≡ auto_accept)
    ↔ ((true ≡ true) × (true ≡ true) × (10 ≤ 524288000) × All IsHarmless (item ∷ []))
determine_auto_accept_decision_iff_example =
    determine_auto_accept_decision_iff true true 10 (item ∷ [])

asks_for_program :
    determine_auto_accept_decision true true 10 (item ∷ []) ≡ require_manual high_risk
unfolding determine_auto_accept_decision infer_offer_risk_class
asks_for_program = refl

-- The sender's word outweighs the name.
takes_sender_word :
    determine_auto_accept_decision true true 10 (record item { risk_class = some normal } ∷ [])
    ≡ auto_accept
unfolding determine_auto_accept_decision infer_offer_risk_class
takes_sender_word = refl
