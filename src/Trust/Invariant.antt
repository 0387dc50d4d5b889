-- ===== src/Trust/Invariant.antt =====
-- What holds of the trusted peers after any commands.
use dash_drop.Base.{
  ℕ, String, Done, Bool, true, false, Option, some, List, [], ◌∷◌, ◌≡◌, refl, arith, string_eq,
  lookup, ◌&&◌, not, if◌then◌else◌, ◌⊎◌, All, All-insert, All-update, All-remove, Result, ok, err,
  Option-cases, Bool-cases, inl, inr, is_none, update, contains_key,
}
use dash_drop.Types.Trust.{
  TrustLevel, mutual_confirmed, TrustVerificationMethod, TrustedPeer, apply_verification,
}
use dash_drop.Trust.{
  Trusted, Peers, add_trust, paired_again, new_peer, frozen_peer, freeze_trusted_peer,
  mark_peer_used, requested_level, verified, is_unsigned, is_frozen,
  confirm_trusted_peer_verification, persist_runtime_state, log_confirmation, pair_device,
  unpair_device, set_trusted_alias, normalized_alias,
}
use dash_drop.Trust.Levels.{log_confirmation_keeps, apply_verification_thaws}

abbrev is_mutual_level : TrustLevel → Bool
is_mutual_level mutual_confirmed = true
is_mutual_level _ = false

-- A peer stands under its own fingerprint, carries the time and the reason of a freeze exactly
-- while it is frozen, and the time of a mutual confirmation whenever it is at that level.
abbrev pub PeerInv : String × TrustedPeer → Type 0
PeerInv e =
    (e.1.fingerprint ≡ e.0)
    × (is_none e.1.frozen_at ≡ not (is_frozen e.1.trust_level))
    × (is_none e.1.freeze_reason ≡ not (is_frozen e.1.trust_level))
    × (is_mutual_level e.1.trust_level ≡ true → is_none e.1.mutual_confirmed_at ≡ false)

abbrev pub PeersInv : Peers → Type 0
PeersInv = All PeerInv

-- The commands, with the clock and the answer of the database.
pub data Op : Type 0 where
  pair : ℕ → Bool → String → String → Op
  unpair : Bool → String → Op
  freeze : ℕ → String → String → Op
  use_peer : ℕ → String → Op
  alias : Bool → String → Option String → Op
  confirm : ℕ → Bool → String → TrustVerificationMethod → Bool → Op

pub perform : Op → Trusted → Trusted
perform (pair now saves fp name) s = (pair_device now saves fp name s).0
perform (unpair saves fp) s = (unpair_device saves fp s).0
perform (freeze now fp reason) s = record s {
  peers = (freeze_trusted_peer fp reason now s.peers).0;
}
perform (use_peer now fp) s = record s { peers = mark_peer_used now fp s.peers }
perform (alias saves fp value) s = (set_trusted_alias saves fp value s).0
perform (confirm now saves fp method is_mutual) s =
    (confirm_trusted_peer_verification now saves fp method is_mutual s).0

pub perform_all : List Op → Trusted → Trusted
perform_all [] s = s
perform_all (op ∷ ops) s = perform_all ops (perform op s)

peers-persist : (b : Bool) (s : Trusted) → (persist_runtime_state b s).0.peers ≡ s.peers
unfolding persist_runtime_state
peers-persist true s = refl
peers-persist false s = refl

add_trust-Inv :
    (now : ℕ) (fp name : String) (peers : Peers)
    → PeersInv peers
    → PeersInv (add_trust now fp name peers)
unfolding add_trust
add_trust-Inv now fp name peers h = elim (Bool-cases (contains_key fp peers)) [
  | inl old ↦ rw old (
      All-update PeerInv fp (paired_again now name) peers
        (λ p k. unfold paired_again in ground arith) h)
  | inr new ↦ rw new (
      All-insert PeerInv fp (new_peer now fp name) peers h
        (unfold new_peer in (refl, refl, refl, (λ e. cc))))
]

frozen_peer-Inv :
    (fp reason : String) (at : ℕ) (p : TrustedPeer)
    → PeerInv (fp, p)
    → PeerInv (fp, frozen_peer at reason p)
unfolding frozen_peer
frozen_peer-Inv fp reason at p h = ground arith

mutual_reached :
    (current : TrustLevel) (method : TrustVerificationMethod) (is_mutual : Bool)
    → is_mutual_level (apply_verification current (requested_level method is_mutual)) ≡ true
    → (is_mutual ≡ true) ⊎ (is_mutual_level current ≡ true)
unfolding apply_verification
mutual_reached current method is_mutual h = ground arith

verified-Inv :
    (now : ℕ) (method : TrustVerificationMethod) (is_mutual : Bool) (fp : String) (p : TrustedPeer)
    → PeerInv (fp, p)
    → PeerInv (fp, verified now method is_mutual p)
unfolding verified
verified-Inv now method is_mutual fp p h =
    let t = (apply_verification_thaws p.trust_level method is_mutual).0 in
    (h.0, rw t refl, rw t refl, (λ e. dated (mutual_reached p.trust_level method is_mutual e)))
  where
    dated :
        (is_mutual ≡ true) ⊎ (is_mutual_level p.trust_level ≡ true)
        → is_none
            (if is_mutual && is_none p.mutual_confirmed_at then some now else p.mutual_confirmed_at)
          ≡ false
    dated (inl e) = ground arith
    dated (inr e) = ground (arith, h.3 e)

verified_all-Inv :
    (now : ℕ) (method : TrustVerificationMethod) (is_mutual : Bool) (fp : String) (peers : Peers)
    → PeersInv peers
    → PeersInv (update fp (verified now method is_mutual) peers)
verified_all-Inv now method is_mutual fp peers h =
    All-update PeerInv fp (verified now method is_mutual) peers
      (verified-Inv now method is_mutual fp) h

confirm-Inv :
    (now : ℕ) (saves : Bool) (fp : String) (method : TrustVerificationMethod) (is_mutual : Bool)
    (s : Trusted)
    → PeersInv s.peers
    → PeersInv (confirm_trusted_peer_verification now saves fp method is_mutual s).0.peers
unfolding confirm_trusted_peer_verification persist_runtime_state
confirm-Inv now saves fp method is_mutual s h =
    elim (Bool-cases (is_mutual && is_unsigned method)) [
      | inl refused ↦ rw refused h
      | inr allowed ↦ rw allowed (elim (Option-cases (lookup fp s.peers)) [
        | inl e ↦ rw (e, confirm_trusted_peer_verification) h
        | inr (p, found) ↦ rw (found, confirm_trusted_peer_verification) (stored saves p)
      ])
    ]
  where
    f : TrustedPeer → TrustedPeer
    f = verified now method is_mutual

    stored :
        (b : Bool) (p : TrustedPeer)
        → PeersInv
            (let (kept, result) =
                persist_runtime_state b (record s { peers = update fp f s.peers }) in
              let out : Trusted × Result Done String = elim result [
                | ok u ↦ (log_confirmation fp is_mutual p (f p) kept, ok u)
                | err e ↦ (kept, err e)
              ] in
              out).0.peers
    stored true p =
        rw (log_confirmation_keeps fp is_mutual p (f p) _).0
          (verified_all-Inv now method is_mutual fp s.peers h)
    stored false p = verified_all-Inv now method is_mutual fp s.peers h

unpair-Inv :
    (saves : Bool) (fp : String) (s : Trusted)
    → PeersInv s.peers
    → PeersInv (unpair_device saves fp s).0.peers
unfolding unpair_device
unpair-Inv saves fp s h = elim (Bool-cases (contains_key fp s.peers)) [
  | inl known ↦ rw known (rw (peers-persist saves _) (All-remove PeerInv fp s.peers h))
  | inr unknown ↦ rw unknown h
]

alias-Inv :
    (saves : Bool) (fp : String) (value : Option String) (s : Trusted)
    → PeersInv s.peers
    → PeersInv (set_trusted_alias saves fp value s).0.peers
unfolding set_trusted_alias
alias-Inv saves fp value s h = elim (Bool-cases (contains_key fp s.peers)) [
  | inl known ↦ rw known (
      rw (peers-persist saves _) (
        All-update PeerInv fp (λ p. record p { alias = normalized_alias value }) s.peers (λ p k. k)
          h))
  | inr unknown ↦ rw unknown h
]

-- Every command keeps the invariant of the peers.
perform-Inv : (op : Op) (s : Trusted) → PeersInv s.peers → PeersInv (perform op s).peers
unfolding perform
perform-Inv (pair now saves fp name) s h =
    unfold pair_device in rw (peers-persist saves _) (add_trust-Inv now fp name s.peers h)
perform-Inv (unpair saves fp) s h = unpair-Inv saves fp s h
perform-Inv (freeze now fp reason) s h =
    unfold freeze_trusted_peer in
    All-update PeerInv fp (frozen_peer now reason) s.peers (frozen_peer-Inv fp reason now) h
perform-Inv (use_peer now fp) s h =
    unfold mark_peer_used in All-update PeerInv fp _ s.peers (λ p k. k) h
perform-Inv (alias saves fp value) s h = alias-Inv saves fp value s h
perform-Inv (confirm now saves fp method is_mutual) s h =
    confirm-Inv now saves fp method is_mutual s h

-- After any commands, from peers that satisfy it: a peer stands under its own fingerprint, carries
-- the time and the reason of a freeze exactly while it is frozen, and the time of a mutual
-- confirmation whenever it is at that level.
pub perform_all-Inv :
    (ops : List Op) (s : Trusted) → PeersInv s.peers → PeersInv (perform_all ops s).peers
unfolding perform_all
perform_all-Inv [] s h = h
perform_all-Inv (op ∷ ops) s h = perform_all-Inv ops (perform op s) (perform-Inv op s h)
