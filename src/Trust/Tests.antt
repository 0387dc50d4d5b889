-- ===== src/Trust/Tests.antt =====
-- Commands on two peers.
use dash_drop.Base.{true, false, none, some, List, [], ◌∷◌, refl, string_eq}
use dash_drop.Types.Trust.{TrustedPeer, frozen, manual_pairing, signed_pairing_link}
use dash_drop.Trust.{Trusted}
use dash_drop.Trust.Invariant.{Op, pair, freeze, confirm, perform_all, PeersInv, perform_all-Inv}

abbrev peer : TrustedPeer
peer = record {
  fingerprint = "fp";
  name = "Peer";
  paired_at = 5;
  trust_level = frozen;
  last_verification_method = manual_pairing;
  alias = none;
  last_used_at = none;
  remote_confirmation_material_seen_at = none;
  local_confirmation_at = some 5;
  mutual_confirmed_at = none;
  frozen_at = some 9;
  freeze_reason = some "changed";
}

abbrev store : Trusted
store = record { peers = ("fp", peer) ∷ []; saved = []; security_log = [] }

abbrev ops : List Op
ops =
    pair 10 true "b" "B"
    ∷ confirm 11 true "b" signed_pairing_link true
    ∷ freeze 12 "b" "changed"
    ∷ confirm 13 true "fp" signed_pairing_link false
    ∷ []

perform_all-Inv_example : PeersInv (perform_all ops store).peers
perform_all-Inv_example = perform_all-Inv ops store ((refl, refl, refl, (λ e. absurd (cc))), tt)
