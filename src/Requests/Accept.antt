-- ===== src/Requests/Accept.antt =====
-- When an accept of core_service.rs reaches the receiver that waits.
use dash_drop.Base.{
  ℕ, String, Done, Bool, true, false, Option, none, some, ◌∷◌, ◌≡◌, refl, sym, ap, subst, ◌∙◌, ◌↔◌,
  ◌⊎◌, string_eq, if◌then◌else◌, lookup, contains_key, option_map, Bool-cases, inl, inr, Result, ok,
  err, not-err-ok, arith,
}
use dash_drop.Types.Transfer.{
  TransferTask, TransferStatus, draft, pending_accept, transferring, completed, partial_completed,
  rejected, cancelled_by_sender, cancelled_by_receiver, failed,
}
use dash_drop.Requests.{
  Requests, IncomingRequestNotification, ActionState, action_pending, action_expired, action_stale,
  action_missing, notified_state, unknown_state, status_state, incoming_request_action_state,
  answer_request, accept_pending_transfer, mark_incoming_request_notification_inactive,
}

-- The notification of the request is active and has this name.
abbrev pub IsNotified : String → Option IncomingRequestNotification → Type 0
IsNotified nid o =
    (n : IncomingRequestNotification) × (o ≡ some n) × (n.active ≡ true) × (n.notification_id ≡ nid)

-- The transfer waits for the user, or is not known.
abbrev pub IsAsked : String → Option TransferTask → Option IncomingRequestNotification → Type 0
IsAsked nid t o =
    ((task : TransferTask) × (t ≡ some task) × (task.status ≡ pending_accept) × IsNotified nid o)
    ⊎ ((t ≡ none) × ((o ≡ none) ⊎ IsNotified nid o))

abbrev pub IsOpen : String → String → Requests → Type 0
IsOpen id nid s =
    IsAsked nid (lookup id s.transfers) (lookup id s.notifications)
    × (contains_key id s.pending_accepts ≡ true)

abbrev pub is_ok : Result Done String → Bool
is_ok (ok u) = true
is_ok (err e) = false

IsNotified-iff :
    (nid : String) (o : Option IncomingRequestNotification)
    → (notified_state nid o ≡ action_pending) ↔ IsNotified nid o
IsNotified-iff nid none = (λ h. absurd (cc), λ (n, e, active, named). absurd (cc))
IsNotified-iff nid (some n) = (
  λ h. (n, refl, ground arith, ground (arith, string_eq.eqb_iff n.notification_id nid)),
  λ (m, e, active, named).
      let same : n ≡ m = cc in
      rw (same, active, (string_eq.eqb_iff m.notification_id nid).1 named) refl,
)

unknown_iff :
    (nid : String) (o : Option IncomingRequestNotification)
    → (unknown_state nid o true ≡ action_pending) ↔ ((o ≡ none) ⊎ IsNotified nid o)
unknown_iff nid none = (λ h. inl refl, λ h. refl)
unknown_iff nid (some n) = (
  λ h. inr (n, refl, ground arith, ground (arith, string_eq.eqb_iff n.notification_id nid)),
  λ h. elim h [
    | inl e ↦ absurd (cc)
    | inr (m, e, active, named) ↦
        let same : n ≡ m = cc in
        rw (same, active, (string_eq.eqb_iff m.notification_id nid).1 named) refl
  ],
)

status_iff :
    (nid : String) (status : TransferStatus) (o : Option IncomingRequestNotification)
    → (status_state nid (some status) o true ≡ action_pending)
      ↔ ((status ≡ pending_accept) × IsNotified nid o)
status_iff nid pending_accept o = let i = IsNotified-iff nid o in (λ h. (refl, i.0 h), λ h. i.1 h.1)
status_iff nid draft o = (λ h. absurd (cc), λ h. absurd (cc (h.0)))
status_iff nid transferring o = (λ h. absurd (cc), λ h. absurd (cc (h.0)))
status_iff nid completed o = (λ h. absurd (cc), λ h. absurd (cc (h.0)))
status_iff nid partial_completed o = (λ h. absurd (cc), λ h. absurd (cc (h.0)))
status_iff nid rejected o = (λ h. absurd (cc), λ h. absurd (cc (h.0)))
status_iff nid cancelled_by_sender o = (λ h. absurd (cc), λ h. absurd (cc (h.0)))
status_iff nid cancelled_by_receiver o = (λ h. absurd (cc), λ h. absurd (cc (h.0)))
status_iff nid failed o = (λ h. absurd (cc), λ h. absurd (cc (h.0)))

unsome : {x y : TransferTask} → some x ≡ some y → x ≡ y
unsome e = cc

IsAsked-iff :
    (nid : String) (t : Option TransferTask) (o : Option IncomingRequestNotification)
    → (status_state nid (option_map (λ t. t.status) t) o true ≡ action_pending) ↔ IsAsked nid t o
IsAsked-iff nid none o =
    let i = unknown_iff nid o in
    (
      λ h. inr (refl, i.0 h),
      λ h. elim h [ inl (task, e, waits, rest) ↦ absurd (cc) | inr (e, rest) ↦ i.1 rest ],
    )
IsAsked-iff nid (some task) o =
    let i = status_iff nid task.status o in
    (
      λ h. let facts = i.0 h in inl (task, refl, facts.0, facts.1),
      λ h. elim h [
        | inl (other, e, waits, told) ↦ i.1 (ap (λ t. t.status) (unsome e) ∙ waits, told)
        | inr (e, rest) ↦ absurd (cc)
      ],
    )

IsOpen-iff :
    (id nid : String) (s : Requests)
    → ((incoming_request_action_state id nid s ≡ action_pending)
        × (contains_key id s.pending_accepts ≡ true))
      ↔ IsOpen id nid s
unfolding incoming_request_action_state
IsOpen-iff id nid s =
    let i = IsAsked-iff nid (lookup id s.transfers) (lookup id s.notifications) in
    let at : Bool → Type 0 = λ b.
      status_state nid (option_map (λ t. t.status) (lookup id s.transfers))
        (lookup id s.notifications) b
      ≡ action_pending in
    (
      λ (pending, waits). (i.0 (subst at waits pending), waits),
      λ (asked, waits). (subst at (sym waits) (i.1 asked), waits),
    )

-- The accept by the state of the request.
accept_by_state :
    (now : ℕ) (id nid : String) (s : Requests)
    → let (s', result) = accept_pending_transfer now id nid s in
      ((result ≡ ok tt) ↔ (
        (incoming_request_action_state id nid s ≡ action_pending)
        × (contains_key id s.pending_accepts ≡ true)))
      × (s'.answers ≡ (if is_ok result then (id, true) ∷ s.answers else s.answers))
unfolding accept_pending_transfer answer_request mark_incoming_request_notification_inactive
accept_by_state now id nid s = go (incoming_request_action_state id nid s) refl
  where
    go :
        (a : ActionState)
        → incoming_request_action_state id nid s ≡ a
        → let (s', result) = accept_pending_transfer now id nid s in
          ((result ≡ ok tt) ↔ (
            (incoming_request_action_state id nid s ≡ action_pending)
            × (contains_key id s.pending_accepts ≡ true)))
          × (s'.answers ≡ (if is_ok result then (id, true) ∷ s.answers else s.answers))
    go action_expired e = rw (e, answer_request) (((λ h. absurd (not-err-ok h)), (λ h. cc)), refl)
    go action_stale e = rw (e, answer_request) (((λ h. absurd (not-err-ok h)), (λ h. cc)), refl)
    go action_missing e = rw (e, answer_request) (((λ h. absurd (not-err-ok h)), (λ h. cc)), refl)
    go action_pending e =
        rw (e, answer_request)
          (elim (Bool-cases (contains_key id s.pending_accepts)) [
            | inl there ↦ rw there (((λ h. (refl, refl)), (λ h. refl)), refl)
            | inr gone ↦ rw gone (((λ h. absurd (not-err-ok h)), (λ h. cc)), refl)
          ])

-- An accept succeeds exactly when its transfer waits for the user under an active notification of
-- that name, or is not known and has no notification or such a one, and a receiver waits for the
-- answer. It then answers yes; an accept that does not succeed sends no answer.
pub accept_pending_transfer_iff :
    (now : ℕ) (id nid : String) (s : Requests)
    → let (s', result) = accept_pending_transfer now id nid s in
      ((result ≡ ok tt) ↔ IsOpen id nid s)
      × (s'.answers ≡ (if is_ok result then (id, true) ∷ s.answers else s.answers))
accept_pending_transfer_iff now id nid s =
    let (by_state, sent) = accept_by_state now id nid s in
    let is_open = IsOpen-iff id nid s in
    ((λ h. is_open.0 (by_state.0 h), λ h. by_state.1 (is_open.1 h)), sent)
