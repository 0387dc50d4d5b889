-- ===== src/Trust/Levels.antt =====
-- How the level of trust of a peer moves: `apply_verification` of state.rs and the commands that
-- change a peer.
use dash_drop.Base.{
  ℕ, String, Bool, false, none, some, ◌≡◌, refl, ◌≤◌, arith, string_eq, lookup, lookup-update,
  beq_refl, max, update, ◌&&◌, not, if◌then◌else◌, contains_key-lookup,
}
use dash_drop.Types.Trust.{
  TrustLevel, TrustVerificationMethod, TrustedPeer, apply_verification, rank, allows_sensitive_send,
}
use dash_drop.Trust.{
  Trusted, Peers, is_active_trust, add_trust, paired_again, frozen_peer, freeze_trusted_peer,
  requested_level, is_frozen, log_confirmation,
}

-- Verification is the maximum of the two levels, except that a frozen peer takes any other level
-- that is asked for.
pub rank-apply_verification :
    (current next : TrustLevel)
    → rank (apply_verification current next) ≡ (
        if is_frozen current && not (is_frozen next)
        then rank next
        else max (rank current) (rank next))
unfolding apply_verification
rank-apply_verification current next = ground arith

-- Verification never freezes a peer, thaws a frozen one, and takes nobody's trust back.
pub apply_verification_thaws :
    (current : TrustLevel) (method : TrustVerificationMethod) (is_mutual : Bool)
    → let after = apply_verification current (requested_level method is_mutual) in
      (is_frozen after ≡ false)
      × (rank (requested_level method is_mutual) ≤ rank after)
      × (is_frozen current ≡ false → rank current ≤ rank after)
unfolding apply_verification
apply_verification_thaws current method is_mutual = ground arith

pub log_confirmation_keeps :
    (fp : String) (is_mutual : Bool) (old new : TrustedPeer) (s : Trusted)
    → ((log_confirmation fp is_mutual old new s).peers ≡ s.peers)
      × ((log_confirmation fp is_mutual old new s).saved ≡ s.saved)
unfolding log_confirmation
log_confirmation_keeps fp is_mutual old new s = (ground arith, ground arith)

update_self :
    (fp : String) (f : TrustedPeer → TrustedPeer) (p : TrustedPeer) (peers : Peers)
    → lookup fp peers ≡ some p
    → lookup fp (update fp f peers) ≡ some (f p)
update_self fp f p peers found = rw (lookup-update fp fp f peers, beq_refl fp, found) refl

-- What a verified peer looks like.
abbrev pub Thawed : TrustedPeer → TrustVerificationMethod → Bool → TrustedPeer → Type 0
Thawed p method is_mutual q =
    (is_frozen q.trust_level ≡ false)
    × (q.frozen_at ≡ none)
    × (q.freeze_reason ≡ none)
    × (rank (requested_level method is_mutual) ≤ rank q.trust_level)
    × (is_frozen p.trust_level ≡ false → rank p.trust_level ≤ rank q.trust_level)

-- A peer that was frozen is not an active trust, and pairing it again does not change that.
pub freeze-pair_inactive :
    (fp name reason : String) (at now : ℕ) (p : TrustedPeer) (peers : Peers)
    → lookup fp peers ≡ some p
    → is_active_trust fp (add_trust now fp name (freeze_trusted_peer fp reason at peers).0) ≡ false
unfolding is_active_trust add_trust freeze_trusted_peer paired_again frozen_peer
    allows_sensitive_send
freeze-pair_inactive fp name reason at now p peers found =
    let f = frozen_peer at reason in
    let once = update_self fp f p peers found in
    let twice = update_self fp (paired_again now name) (f p) (update fp f peers) once in
    rw (contains_key-lookup fp (f p) (update fp f peers) once) (rw twice refl)
