-- ===== src/Handshake/Tests.antt =====
-- One connection from a peer whose address is known under another fingerprint.

use dash_drop.Base.{
  ℕ, String, true, none, some, List, [], ◌∷◌, ◌≡◌, refl, string_eq, lookup, is_blank, insert,
  update, contains_key, ◌↔◌,
}
use dash_drop.Types.Protocol.{message, DashMessage, hello, offer, OfferPayload}
use dash_drop.Types.Trust.{TrustedPeer, signed_link_verified, signed_pairing_link}
use dash_drop.Trust.{is_trusted, trust_level_for, frozen_peer, freeze_trusted_peer}
use dash_drop.RateLimit.{check_connection_rate_limit, check_offer_rate_limit, check, hit, roll}
use dash_drop.Handshake.{
  Server, Incoming, handed_over, negotiate_version, note_mismatch, alert_changed, freeze_text,
  handle_incoming, alert_key, mismatch_of, connection_check, after_mismatch, after_limit,
  find_mismatch, match_session, freeze_incoming, negotiate, exchange, greet, read_offer,
  check_sender, answer_hello, admit_offer, incoming_identity_mismatch_action,
}
use dash_drop.Handshake.Gate.{Passes, connection_over, handle_incoming_iff}
use dash_drop.Handshake.Mismatch.{frozen_record, note_mismatch-peers}

abbrev peer : TrustedPeer
peer = record {
  fingerprint = "old";
  name = "Peer";
  paired_at = 5;
  trust_level = signed_link_verified;
  last_verification_method = signed_pairing_link;
  alias = none;
  last_used_at = none;
  remote_confirmation_material_seen_at = some 5;
  local_confirmation_at = some 5;
  mutual_confirmed_at = none;
  frozen_at = none;
  freeze_reason = none;
}

abbrev server : Server
server = record {
  devices = (record { fingerprint = "old"; sessions = ("s1", "10.0.0.7" ∷ []) ∷ [] }) ∷ [];
  trusted = record { peers = ("old", peer) ∷ []; saved = []; security_log = [] };
  connection_limits = [];
  offer_limits = [];
  alerts = [];
  host_events = [];
}

abbrev the_offer : OfferPayload
the_offer = record {
  transfer_id = "t1";
  items = [];
  total_size = 0;
  sender_name = "New";
  sender_fingerprint = "new";
}

abbrev incoming : Incoming
incoming = record {
  peer_cert_fp = some "new";
  remote_ip = "10.0.0.7";
  remote_addr = "10.0.0.7:5000";
  accepts_bi = true;
  first_read = message (hello (record { wire_version = 0; supported_versions = 2 ∷ 1 ∷ [] }));
  sends_hello = true;
  second_read = message (offer the_offer);
}

abbrev shown : DashMessage → String
shown m = "message"

handle_incoming_iff_example :
    ((handle_incoming shown 1000 100 true incoming server).1 ≡ handed_over the_offer 1 true)
    ↔ ((connection_over 1000 incoming server ≡ none) × Passes 1000 incoming server the_offer 1 true)
handle_incoming_iff_example =
    handle_incoming_iff shown 1000 100 true incoming the_offer 1 true server

-- The offer of this connection is taken, although the identity differs, and the known peer is
-- frozen.
taken : (handle_incoming shown 1000 100 true incoming server).1 ≡ handed_over the_offer 1 true
unfolding handle_incoming connection_check after_limit after_mismatch mismatch_of find_mismatch
    match_session negotiate exchange greet read_offer check_sender answer_hello admit_offer
    incoming_identity_mismatch_action check_connection_rate_limit check_offer_rate_limit check hit
    roll is_trusted contains_key lookup insert negotiate_version is_blank note_mismatch
    freeze_incoming alert_changed alert_key freeze_trusted_peer update trust_level_for frozen_peer
taken = refl

note_mismatch-peers_example :
    lookup "old" (note_mismatch 100 true "10.0.0.7:5000" "old" "s1" "new" server).trusted.peers
    ≡ some (frozen_record 100 (freeze_text "s1" "old" "new") peer)
unfolding is_trusted trust_level_for contains_key lookup
note_mismatch-peers_example =
    note_mismatch-peers 100 true "10.0.0.7:5000" "old" "s1" "new" "old" server

abbrev theirs : List ℕ
theirs = 3 ∷ 4 ∷ []
