-- ===== src/Trust.antt =====
-- The trusted peers: `AppState` of src-tauri/src/state.rs and the trust commands of
-- src-tauri/src/core_service.rs. Next to the peers in memory stand the copy that
-- `replace_trusted_peers` writes and the security log; the clock is an argument, and `persisted`
-- says whether `persist_runtime_state` succeeds.
pub mod Levels
pub mod Invariant
mod Tests
use Prim.Native.String.{◌++◌}
use dash_drop.Base.{
  ℕ, String, Done, Bool, true, false, Option, none, some, List, [], ◌∷◌, ◌&&◌, not, ◌==◌, nat_eq,
  string_eq, Result, ok, err, lookup, insert, remove, update, contains_key, if◌then◌else◌, is_none,
  option_map, unwrap_or, is_empty_str, trim,
}
use dash_drop.Types.Trust.{
  TrustLevel, legacy_paired, signed_link_verified, mutual_confirmed, frozen,
  TrustVerificationMethod, manual_pairing, legacy_unsigned_link, signed_pairing_link,
  mutual_receipt, TrustedPeer, apply_verification, allows_sensitive_send, rank,
}

abbrev pub Peers : Type 0
Peers = List (String × TrustedPeer)

pub record SecurityEvent : Type 0 where
  pub event_type : String
  pub phase : String
  pub peer_fingerprint : Option String
  pub reason : String

pub record Trusted : Type 0 where
  pub peers : Peers
  pub saved : Peers
  pub security_log : List SecurityEvent

abbrev pub log_event : SecurityEvent → Trusted → Trusted
log_event e s = record s { security_log = e ∷ s.security_log }

unfoldable pub is_trusted : String → Peers → Bool
is_trusted fp peers = contains_key fp peers

unfoldable pub is_active_trust : String → Peers → Bool
is_active_trust fp peers =
    unwrap_or (option_map (λ peer. allows_sensitive_send peer.trust_level) (lookup fp peers)) false

unfoldable pub trust_level_for : String → Peers → Option TrustLevel
trust_level_for fp peers = option_map (λ peer. peer.trust_level) (lookup fp peers)

unfoldable pub new_peer : ℕ → String → String → TrustedPeer
new_peer now fp name = record {
  fingerprint = fp;
  name = name;
  paired_at = now;
  trust_level = legacy_paired;
  last_verification_method = manual_pairing;
  alias = none;
  last_used_at = none;
  remote_confirmation_material_seen_at = none;
  local_confirmation_at = some now;
  mutual_confirmed_at = none;
  frozen_at = none;
  freeze_reason = none;
}

unfoldable pub paired_again : ℕ → String → TrustedPeer → TrustedPeer
paired_again now name p = record p {
  name = name;
  paired_at = if p.paired_at == 0 then now else p.paired_at;
  local_confirmation_at =
      if is_none p.local_confirmation_at then some now else p.local_confirmation_at;
}

unfoldable pub add_trust : ℕ → String → String → Peers → Peers
add_trust now fp name peers =
    if contains_key fp peers
    then update fp (paired_again now name) peers
    else insert fp (new_peer now fp name) peers

unfoldable pub frozen_peer : ℕ → String → TrustedPeer → TrustedPeer
frozen_peer frozen_at reason p = record p {
  trust_level = frozen;
  frozen_at = some frozen_at;
  freeze_reason = some reason;
}

unfoldable pub freeze_trusted_peer : String → String → ℕ → Peers → Peers × Option TrustedPeer
freeze_trusted_peer fp reason frozen_at peers = (
  update fp (frozen_peer frozen_at reason) peers,
  option_map (frozen_peer frozen_at reason) (lookup fp peers),
)

unfoldable pub mark_peer_used : ℕ → String → Peers → Peers
mark_peer_used now fp peers = update fp (λ p. record p { last_used_at = some now }) peers

-- `persist_runtime_state`: the copy in the database, or an error and no change of it.
unfoldable pub persist_runtime_state : Bool → Trusted → Trusted × Result Done String
persist_runtime_state true s = (record s { saved = s.peers }, ok tt)
persist_runtime_state false s = (s, err "DB lock poisoned")

not_found : String → String
not_found fp = "trusted device " ++ fp ++ " not found"

-- `pair_device`, its trust part; the name is that of the discovered device, or "Unknown".
unfoldable pub pair_device : ℕ → Bool → String → String → Trusted → Trusted × Result Done String
pair_device now persisted fp name s =
    persist_runtime_state persisted (record s { peers = add_trust now fp name s.peers })

unfoldable pub unpair_device : Bool → String → Trusted → Trusted × Result Done String
unfolding not_found
unpair_device persisted fp s =
    if contains_key fp s.peers
    then persist_runtime_state persisted (record s { peers = remove fp s.peers })
    else (s, err (not_found fp))

abbrev pub normalized_alias : Option String → Option String
normalized_alias none = none
normalized_alias (some value) = if is_empty_str (trim value) then none else some (trim value)

unfoldable pub set_trusted_alias :
    Bool → String → Option String → Trusted → Trusted × Result Done String
unfolding not_found
set_trusted_alias persisted fp alias s =
    if contains_key fp s.peers
    then persist_runtime_state persisted
        (record s { peers = update fp (λ p. record p { alias = normalized_alias alias }) s.peers })
    else (s, err (not_found fp))

-- Confirmation of a peer.
abbrev pub is_unsigned : TrustVerificationMethod → Bool
is_unsigned manual_pairing = true
is_unsigned legacy_unsigned_link = true
is_unsigned _ = false

abbrev pub requested_level : TrustVerificationMethod → Bool → TrustLevel
requested_level method true = mutual_confirmed
requested_level signed_pairing_link false = signed_link_verified
requested_level _ false = legacy_paired

abbrev pub is_frozen : TrustLevel → Bool
is_frozen frozen = true
is_frozen _ = false

unfoldable pub verified : ℕ → TrustVerificationMethod → Bool → TrustedPeer → TrustedPeer
verified now method is_mutual p =
    let level = apply_verification p.trust_level (requested_level method is_mutual) in
    record p {
      trust_level = level;
      last_verification_method = if is_mutual then mutual_receipt else method;
      local_confirmation_at = some now;
      remote_confirmation_material_seen_at =
          if is_unsigned method then p.remote_confirmation_material_seen_at else some now;
      mutual_confirmed_at =
          if is_mutual && is_none p.mutual_confirmed_at then some now else p.mutual_confirmed_at;
      frozen_at = if is_frozen level then p.frozen_at else none;
      freeze_reason = if is_frozen level then p.freeze_reason else none;
    }

-- `{:?}` of the two enumerations.
debug_level : TrustLevel → String
debug_level legacy_paired = "LegacyPaired"
debug_level signed_link_verified = "SignedLinkVerified"
debug_level mutual_confirmed = "MutualConfirmed"
debug_level frozen = "Frozen"

debug_method : TrustVerificationMethod → String
debug_method manual_pairing = "ManualPairing"
debug_method legacy_unsigned_link = "LegacyUnsignedLink"
debug_method signed_pairing_link = "SignedPairingLink"
debug_method mutual_receipt = "MutualReceipt"

log_when : Bool → SecurityEvent → Trusted → Trusted
log_when b e s = if b then log_event e s else s

-- The entries of the security log, from the peer before and after.
unfoldable pub log_confirmation : String → Bool → TrustedPeer → TrustedPeer → Trusted → Trusted
unfolding debug_level debug_method log_when
log_confirmation fp is_mutual old new s =
    let s1 =
      log_when (not (rank old.trust_level == rank new.trust_level))
        (record {
          event_type = "trust_level_transition";
          phase = "pairing";
          peer_fingerprint = some fp;
          reason =
              "trust level moved from "
              ++ debug_level old.trust_level
              ++ " to "
              ++ debug_level new.trust_level
              ++ " via "
              ++ debug_method new.last_verification_method;
        })
        s in
    let s2 =
      log_when is_mutual
        (record {
          event_type = "mutual_confirmation_complete";
          phase = "pairing";
          peer_fingerprint = some fp;
          reason = "mutual pairing confirmation recorded after shared pair code check";
        })
        s1 in
    log_when (is_frozen old.trust_level && not (is_frozen new.trust_level))
      (record {
        event_type = "trust_freeze_cleared";
        phase = "pairing";
        peer_fingerprint = some fp;
        reason = "frozen trust relationship cleared by explicit verification confirmation";
      })
      s2

unfoldable pub confirm_trusted_peer_verification :
    ℕ → Bool → String → TrustVerificationMethod → Bool → Trusted → Trusted × Result Done String
unfolding not_found
confirm_trusted_peer_verification now persisted fp method is_mutual s =
    if is_mutual && is_unsigned method
    then (
      s,
      err "Mutual confirmation requires a signed pairing link and matching shared pair code.",
    )
    else elim (lookup fp s.peers) [
      | none ↦ (s, err (not_found fp))
      | some p ↦
          let s' = record s { peers = update fp (verified now method is_mutual) s.peers } in
          let (stored, result) = persist_runtime_state persisted s' in
          elim result [
            | ok u ↦
                (log_confirmation fp is_mutual p (verified now method is_mutual p) stored, ok u)
            | err e ↦ (stored, err e)
          ]
    ]
