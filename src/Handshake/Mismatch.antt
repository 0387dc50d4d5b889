-- ===== src/Handshake/Mismatch.antt =====
-- What an identity mismatch does to the state of handshake.rs.
use dash_drop.Base.{
  ℕ, String, Bool, true, false, Option, none, some, ◌≡◌, refl, subst, ◌∙◌, ◌≤◌, ◌<◌, ◌+◌, ◌-◌, ◌&&◌,
  not, arith, string_eq, nat_eq, ◌==◌, lookup, update, lookup-update, contains_key, if◌then◌else◌,
  option_map, unwrap_or, lookup-insert_self, Bool-cases, Option-cases, inl, inr, ◌⊎◌, leb,
}
use dash_drop.Types.Trust.{TrustLevel, frozen, TrustedPeer}
use dash_drop.Trust.{Peers, is_trusted, trust_level_for, frozen_peer, freeze_trusted_peer}
use dash_drop.Handshake.{
  Server, is_verified_level, freeze_incoming, freeze_text, noted_mismatch, alert_key, alert_changed,
  note_mismatch,
}

-- A freeze adds no peer and removes none.
trusted-update :
    (fp key : String) (f : TrustedPeer → TrustedPeer) (peers : Peers)
    → is_trusted key (update fp f peers) ≡ is_trusted key peers
unfolding is_trusted contains_key
trusted-update fp key f peers = elim (Option-cases (lookup key peers)) [
  | inl e ↦ ground (arith, lookup-update fp key f peers)
  | inr (p, e) ↦ ground (arith, lookup-update fp key f peers)
]

-- The parts of the state that the rate limits of offers read.
pub record Agree (s s' : Server) : Type 0 where
  pub limits : s'.offer_limits ≡ s.offer_limits
  pub trust : (key : String) → is_trusted key s'.trusted.peers ≡ is_trusted key s.trusted.peers

pub Agree-refl : (s : Server) → Agree s s
Agree-refl s = record { limits = refl; trust = λ key. refl }

pub Agree-trans : {a b c : Server} → Agree a b → Agree b c → Agree a c
Agree-trans p q = record { limits = q.limits ∙ p.limits; trust = λ key. q.trust key ∙ p.trust key }

freeze_incoming-Agree :
    (now : ℕ) (saves : Bool) (fp reason : String) (s : Server)
    → Agree s (freeze_incoming now saves fp reason s)
unfolding freeze_incoming freeze_trusted_peer
freeze_incoming-Agree now saves fp reason s = elim (Option-cases (lookup fp s.trusted.peers)) [
  | inl e ↦ rw (e, freeze_incoming) (Agree-refl s)
  | inr (p, e) ↦
      rw (e, freeze_incoming)
        (record {
          limits = refl;
          trust = λ key. trusted-update fp key (frozen_peer now reason) s.trusted.peers;
        })
]

alert_changed-Agree :
    (now : ℕ) (session mdns cert : String) (level : Option TrustLevel) (addr : String) (s : Server)
    → Agree s (alert_changed now session mdns cert level addr s)
unfolding alert_changed
alert_changed-Agree now session mdns cert level addr s =
    elim (Bool-cases (leb 60 (now - unwrap_or (lookup (alert_key session mdns cert) s.alerts) 0))) [
      | inl due ↦ rw due (record { limits = refl; trust = λ key. refl })
      | inr early ↦ rw early (Agree-refl s)
    ]

-- A mismatch changes neither who is trusted nor the offers counted.
pub note_mismatch-Agree :
    (now : ℕ) (saves : Bool) (addr mdns session cert : String) (s : Server)
    → Agree s (note_mismatch now saves addr mdns session cert s)
unfolding note_mismatch
note_mismatch-Agree now saves addr mdns session cert s =
    elim (Bool-cases (is_trusted mdns s.trusted.peers && not (is_trusted cert s.trusted.peers))) [
      | inl suspect ↦
          rw suspect (elim (Bool-cases (is_verified_level (trust_level_for mdns s.trusted.peers))) [
            | inl strong ↦ rw strong (
                Agree-trans (Agree-trans noted (freeze_incoming-Agree now saves mdns _ _))
                  (alert_changed-Agree now session mdns cert _ addr _))
            | inr weak ↦
                rw weak (Agree-trans noted (alert_changed-Agree now session mdns cert _ addr _))
          ])
      | inr other ↦ rw other noted
    ]
  where
    noted : Agree s (noted_mismatch addr mdns cert s)
    noted = record { limits = refl; trust = λ key. refl }

alert_changed-peers :
    (now : ℕ) (session mdns cert : String) (level : Option TrustLevel) (addr : String) (s : Server)
    → (alert_changed now session mdns cert level addr s).trusted.peers ≡ s.trusted.peers
unfolding alert_changed
alert_changed-peers now session mdns cert level addr s = ground arith

freeze_incoming-peers :
    (now : ℕ) (saves : Bool) (fp reason key : String) (s : Server)
    → lookup key (freeze_incoming now saves fp reason s).trusted.peers ≡ (
        if fp == key
        then option_map (frozen_peer now reason) (lookup key s.trusted.peers)
        else lookup key s.trusted.peers)
unfolding freeze_incoming freeze_trusted_peer
freeze_incoming-peers now saves fp reason key s = elim (Option-cases (lookup fp s.trusted.peers)) [
  | inl e ↦ rw (e, freeze_incoming) (absent e (Bool-cases (fp == key)))
  | inr (p, e) ↦
      rw (e, freeze_incoming) (lookup-update fp key (frozen_peer now reason) s.trusted.peers)
]
  where
    absent :
        (lookup fp s.trusted.peers ≡ none)
        → (fp == key ≡ true) ⊎ (fp == key ≡ false)
        → lookup key s.trusted.peers ≡ (
            if fp == key
            then option_map (frozen_peer now reason) (lookup key s.trusted.peers)
            else lookup key s.trusted.peers)
    absent e (inl same) =
        let there : lookup key s.trusted.peers ≡ none =
          subst (λ j. lookup j s.trusted.peers ≡ none) ((string_eq.eqb_iff fp key).0 same) e in
        rw (same, there) refl
    absent e (inr other) = rw other refl

abbrev pub frozen_record : ℕ → String → TrustedPeer → TrustedPeer
frozen_record now reason peer = record peer {
  trust_level = frozen;
  frozen_at = some now;
  freeze_reason = some reason;
}

-- A mismatch freezes exactly one peer, the one expected at the address, and only if it is trusted
-- at a verified level and the certificate's fingerprint is not trusted; the peer is then
-- frozen and carries the time and the reason. Every other record stays as it was.
pub note_mismatch-peers :
    (now : ℕ) (saves : Bool) (addr mdns session cert key : String) (s : Server)
    → let peers = s.trusted.peers in
      let freezes =
        is_trusted mdns peers
        && not (is_trusted cert peers)
        && is_verified_level (trust_level_for mdns peers) in
      lookup key (note_mismatch now saves addr mdns session cert s).trusted.peers ≡ (
        if freezes && mdns == key
        then option_map (frozen_record now (freeze_text session mdns cert)) (lookup key peers)
        else lookup key peers)
unfolding note_mismatch frozen_peer
note_mismatch-peers now saves addr mdns session cert key s =
    elim (Bool-cases (is_trusted mdns s.trusted.peers && not (is_trusted cert s.trusted.peers))) [
      | inl suspect ↦
          rw suspect (elim (Bool-cases (is_verified_level (trust_level_for mdns s.trusted.peers))) [
            | inl strong ↦ rw strong (
                rw (alert_changed-peers now session mdns cert _ addr _) (
                  freeze_incoming-peers now saves mdns (freeze_text session mdns cert) key
                    (noted_mismatch addr mdns cert s)))
            | inr weak ↦ rw weak (rw (alert_changed-peers now session mdns cert _ addr _) refl)
          ])
      | inr other ↦ rw other refl
    ]

-- An alert for one session and pair of fingerprints is followed by none for sixty seconds: a call
-- in that time changes nothing at all, neither the events nor the log.
pub alert_changed_dedupe :
    (now later : ℕ) (session mdns cert : String) (level level' : Option TrustLevel)
    (addr addr' : String) (s : Server)
    → 60 ≤ now - unwrap_or (lookup (alert_key session mdns cert) s.alerts) 0
    → later < now + 60
    → let s' = alert_changed now session mdns cert level addr s in
      alert_changed later session mdns cert level' addr' s' ≡ s'
unfolding alert_changed
alert_changed_dedupe now later session mdns cert level level' addr addr' s due soon =
    rw (due_test _ due) (
      rw (lookup-insert_self (alert_key session mdns cert) now s.alerts)
        (rw (early_test (later - now) (omega arith)) refl))
  where
    due_test : (n : ℕ) → 60 ≤ n → leb 60 n ≡ true
    due_test n h = ground arith

    early_test : (n : ℕ) → n < 60 → leb 60 n ≡ false
    early_test n h = ground arith
