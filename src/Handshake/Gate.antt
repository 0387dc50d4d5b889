-- ===== src/Handshake/Gate.antt =====
-- Which connections of handshake.rs reach the receiver.

use dash_drop.Base.{
  ℕ, String, Bool, true, false, Option, none, some, ◌≡◌, refl, sym, ◌∙◌, ◌↔◌, unwrap_or, subst, not,
  is_none, arith, Result, ok, err, is_blank, nat_eq, Bool-cases, Option-cases, inl, inr, bind-eq-ok,
  not-err-ok,
}
use dash_drop.Types.Protocol.{
  Read, message, read_error, ErrorCode, DashMessage, hello, offer, HelloPayload, OfferPayload,
}
use dash_drop.RateLimit.{check_offer_rate_limit}
use dash_drop.Handshake.Mismatch.{Agree, Agree-refl, Agree-trans, note_mismatch-Agree}
use dash_drop.Handshake.{
  Server, Incoming, refused, Refusal, verdict, closed, handed_over, supported_versions,
  negotiate_version, answer_hello, greet, read_offer, is_other, check_sender, exchange, negotiate,
  admit_offer, incoming_identity_mismatch_action, audit_only, after_mismatch, after_limit,
  handle_incoming, mismatch_of, connection_check, note_mismatch,
}

-- What has to hold of a connection for its offer to be taken with version `v`.
abbrev pub Admissible : Incoming → ℕ → OfferPayload → Type 0
Admissible i v o =
    (i.accepts_bi ≡ true)
    × ((h : HelloPayload) × (i.first_read ≡ message (hello h))
        × (h.wire_version ≡ 0)
        × (negotiate_version supported_versions h.supported_versions ≡ some v))
    × (i.sends_hello ≡ true)
    × (i.second_read ≡ message (offer o))
    × (is_blank o.sender_fingerprint ≡ false)
    × (is_other i.peer_cert_fp o.sender_fingerprint ≡ false)

answer_hello-ok :
    (sends : Bool) (h : HelloPayload) (v : ℕ)
    → answer_hello sends h ≡ ok v
    → (h.wire_version ≡ 0)
      × (sends ≡ true)
      × (negotiate_version supported_versions h.supported_versions ≡ some v)
unfolding answer_hello
answer_hello-ok sends h v e = ground arith

answer_hello_complete :
    (sends : Bool) (h : HelloPayload) (v : ℕ)
    → h.wire_version ≡ 0
    → sends ≡ true
    → negotiate_version supported_versions h.supported_versions ≡ some v
    → answer_hello sends h ≡ ok v
unfolding answer_hello
answer_hello_complete sends h v w s n = ground arith

module _ (debug : DashMessage → String) where
  greet-ok :
      (sends : Bool) (r : Read) (v : ℕ)
      → greet debug sends r ≡ ok v
      → (h : HelloPayload) × (r ≡ message (hello h)) × (answer_hello sends h ≡ ok v)
  unfolding greet
  greet-ok sends (message (hello h)) v e = (h, refl, e)
  greet-ok sends (read_error x) v e = absurd (cc)
  greet-ok sends (message _) v e = absurd (cc)

  read_offer-ok : (r : Read) (o : OfferPayload) → read_offer debug r ≡ ok o → r ≡ message (offer o)
  unfolding read_offer
  read_offer-ok (message (offer p)) o e = cc
  read_offer-ok (read_error x) o e = absurd (cc)
  read_offer-ok (message _) o e = absurd (cc)

  check_sender-ok :
      (cert : Option String) (o o' : OfferPayload)
      → check_sender cert o ≡ ok o'
      → (o' ≡ o)
        × (is_blank o.sender_fingerprint ≡ false)
        × (is_other cert o.sender_fingerprint ≡ false)
  unfolding check_sender
  check_sender-ok cert o o' e = ground arith

  exchange-ok :
      (i : Incoming) (v : ℕ) (o : OfferPayload)
      → exchange debug i ≡ ok (v, o)
      → i.accepts_bi ≡ true
      → Admissible i v o
  unfolding exchange
  exchange-ok i v o e bi =
      let (w, greeted, e1) = bind-eq-ok (greet debug i.sends_hello i.first_read) _ e in
      let (p, offered, e2) = bind-eq-ok (read_offer debug i.second_read) _ e1 in
      let (q, checked, e3) = bind-eq-ok (check_sender i.peer_cert_fp p) _ e2 in
      let (h, first, answered) = greet-ok i.sends_hello i.first_read w greeted in
      let (wire, sent, version) = answer_hello-ok i.sends_hello h w answered in
      let (same, given, matches) = check_sender-ok i.peer_cert_fp p q checked in
      let at_w : w ≡ v = ground arith in
      let at_p : p ≡ o = ground arith in
      (
        bi,
        (
          h,
          first,
          wire,
          subst (λ x. negotiate_version supported_versions h.supported_versions ≡ some x) at_w
              version,
        ),
        sent,
        subst (λ x. i.second_read ≡ message (offer x)) at_p (read_offer-ok i.second_read p offered),
        subst {A = OfferPayload} (λ x. is_blank x.sender_fingerprint ≡ false) at_p given,
        subst {A = OfferPayload} (λ x. is_other i.peer_cert_fp x.sender_fingerprint ≡ false) at_p
            matches,
      )

  negotiate-ok :
      (i : Incoming) (v : ℕ) (o : OfferPayload) → negotiate debug i ≡ ok (v, o) → Admissible i v o
  unfolding negotiate
  negotiate-ok i v o e = elim (Bool-cases i.accepts_bi) [
    | inl bi ↦ exchange-ok i v o (rw bi at e) bi
    | inr no_bi ↦ absurd (not-err-ok (rw no_bi at e))
  ]

  exchange_complete :
      (i : Incoming) (v : ℕ) (o : OfferPayload) → Admissible i v o → negotiate debug i ≡ ok (v, o)
  unfolding negotiate greet read_offer check_sender
  exchange_complete i v o (bi, (h, first, wire, version), sent, second, given, matches) =
      rw (bi, first, sent)
        (rw (answer_hello_complete true h v wire refl version)
          (rw second (rw (given, matches) refl)))

-- The verdict of the limiter of offers, and of connections, on the state before.
abbrev pub offer_over : ℕ → OfferPayload → Server → Option ErrorCode
offer_over now o s =
    (check_offer_rate_limit now s.trusted.peers o.sender_fingerprint s.offer_limits).1

abbrev pub connection_over : ℕ → Incoming → Server → Option ErrorCode
connection_over now i s = (connection_check now i s).1

offer_over-Agree :
    (now : ℕ) (o : OfferPayload) (s s' : Server)
    → Agree s s'
    → offer_over now o s' ≡ offer_over now o s
unfolding check_offer_rate_limit
offer_over-Agree now o s s' a = rw (a.limits, a.trust o.sender_fingerprint) refl

connection_check-Agree :
    (now : ℕ) (i : Incoming) (s : Server) → Agree s (connection_check now i s).0
unfolding connection_check
connection_check-Agree now i s = elim (Option-cases i.peer_cert_fp) [
  | inl e ↦ rw e (record { limits = refl; trust = λ key. refl })
  | inr (fp, e) ↦ rw e (record { limits = refl; trust = λ key. refl })
]

-- What makes a connection pass, on the state that the handler has reached.
abbrev pub Passes : ℕ → Incoming → Server → OfferPayload → ℕ → Bool → Type 0
Passes now i s o v authenticated =
    Admissible i v o × (authenticated ≡ not (is_none i.peer_cert_fp)) × (offer_over now o s ≡ none)

module _ (debug : DashMessage → String) (now : ℕ) (i : Incoming) (o : OfferPayload) (v : ℕ)
    (authenticated : Bool) where
  verdict-handed_over :
      (over : Option ErrorCode) (p : OfferPayload) (w : ℕ) (b : Bool)
      → verdict over (handed_over p w b) ≡ handed_over o v authenticated
      → (over ≡ none) × (p ≡ o) × (w ≡ v) × (b ≡ authenticated)
  verdict-handed_over over p w b e = ground arith

  after_mismatch_sound :
      (s : Server)
      → (after_mismatch debug now i s).1 ≡ handed_over o v authenticated
      → Passes now i s o v authenticated
  unfolding after_mismatch admit_offer
  after_mismatch_sound s e = go (negotiate debug i) refl
    where
      go :
          (r : Result (ℕ × OfferPayload) Refusal)
          → negotiate debug i ≡ r
          → Passes now i s o v authenticated
      go (err x) n =
          let bad : refused x ≡ handed_over o v authenticated = rw (n, after_mismatch) at e in
          absurd (cc)
      go (ok (w, p)) n =
          let (free, at_o, at_v, auth) =
            verdict-handed_over (offer_over now p s) p w (not (is_none i.peer_cert_fp))
              (rw (n, after_mismatch) at e) in
          (
            subst {A = OfferPayload} (λ x. Admissible i v x) at_o
                (subst {A = ℕ} (λ x. Admissible i x p) at_v (negotiate-ok debug i w p n)),
            sym auth,
            subst {A = OfferPayload} (λ x. offer_over now x s ≡ none) at_o free,
          )

  after_mismatch_complete :
      (s : Server)
      → Passes now i s o v authenticated
      → (after_mismatch debug now i s).1 ≡ handed_over o v authenticated
  unfolding after_mismatch admit_offer
  after_mismatch_complete s (ready, auth, free) =
      rw (exchange_complete debug i v o ready, after_mismatch) (rw (free, auth) refl)

audit :
    (mdns : String) (cert : Option String)
    → incoming_identity_mismatch_action (some mdns) cert false ≡ audit_only
unfolding incoming_identity_mismatch_action
audit mdns none = refl
audit mdns (some fp) = refl

module _ (debug : DashMessage → String) (now_ms now : ℕ) (saves : Bool) (i : Incoming) where
  -- A mismatch of identities alone never ends a connection.
  after_limit-audits :
      (s : Server)
      → (s' : Server) × Agree s s'
        × ((after_limit debug now_ms now saves i s).1 ≡ (after_mismatch debug now_ms i s').1)
  unfolding after_limit
  after_limit-audits s = elim (Option-cases (mismatch_of i s)) [
    | inl e ↦ (s, Agree-refl s, rw (e, after_limit) refl)
    | inr ((mdns, session), e) ↦ (
      note_mismatch now saves i.remote_addr mdns session (unwrap_or i.peer_cert_fp "unknown") s,
      note_mismatch-Agree now saves i.remote_addr mdns session (unwrap_or i.peer_cert_fp "unknown")
          s,
      rw (e, after_limit) (rw (audit mdns i.peer_cert_fp) refl),
    )
  ]

  -- An offer is handed to the receiver exactly when the connection is within the limit of its
  -- certificate, the peer's Hello has wire version 0 and shares version `v`, our Hello goes out,
  -- the next message is that offer with a sender that is not blank and agrees with the
  -- certificate, if there is one, and the sender is within the limit of offers. The mismatch of
  -- step 2 plays no part.
  pub handle_incoming_iff :
      (o : OfferPayload) (v : ℕ) (authenticated : Bool) (s : Server)
      → ((handle_incoming debug now_ms now saves i s).1 ≡ handed_over o v authenticated)
        ↔ ((connection_over now_ms i s ≡ none) × Passes now_ms i s o v authenticated)
  unfolding handle_incoming
  handle_incoming_iff o v authenticated s = (sound, complete)
    where
      limited : Server
      limited = (connection_check now_ms i s).0

      step :
          connection_over now_ms i s ≡ none
          → (s' : Server) × Agree s s'
            × ((handle_incoming debug now_ms now saves i s).1
                ≡ (after_mismatch debug now_ms i s').1)
      step free =
          let (s', agree, same) = after_limit-audits limited in
          (
            s',
            Agree-trans (connection_check-Agree now_ms i s) agree,
            rw (free, handle_incoming) same,
          )

      sound :
          (handle_incoming debug now_ms now saves i s).1 ≡ handed_over o v authenticated
          → (connection_over now_ms i s ≡ none) × Passes now_ms i s o v authenticated
      sound e = elim (Option-cases (connection_over now_ms i s)) [
        | inl free ↦
            let (s', agree, same) = step free in
            let (ready, auth, under) =
              after_mismatch_sound debug now_ms i o v authenticated s' (sym same ∙ e) in
            (free, (ready, auth, sym (offer_over-Agree now_ms o s s' agree) ∙ under))
        | inr (x, over) ↦
            let bad : refused (closed "rate limited") ≡ handed_over o v authenticated =
              rw (over, handle_incoming) at e in
            absurd (cc)
      ]

      complete :
          (connection_over now_ms i s ≡ none) × Passes now_ms i s o v authenticated
          → (handle_incoming debug now_ms now saves i s).1 ≡ handed_over o v authenticated
      complete (free, (ready, auth, under)) =
          let (s', agree, same) = step free in
          same
          ∙ after_mismatch_complete debug now_ms i o v authenticated s'
              (ready, auth, offer_over-Agree now_ms o s s' agree ∙ under)
