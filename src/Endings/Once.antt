-- ===== src/Endings/Once.antt =====
-- What the ends of a transfer count and answer: receiver.rs and core_service.rs.
use dash_drop.Base.{
  ◌∷◌, ℕ, String, Bool, true, false, Option, none, some, ◌≡◌, refl, ◌∙◌, ap, inl, inr, ◌&&◌, not,
  ◌==◌, nat_eq, string_eq, beq_refl, if◌then◌else◌, lookup, contains_key, lookup-update,
  lookup-remove_self, Bool-cases, arith, err, is_none,
}
use dash_drop.Types.Transfer.{TransferTask, TransferStatus, TransferDirection, is_terminal}
use dash_drop.Requests.{
  IncomingRequestNotification, Requests, TransferMetrics, record_transfer_terminal,
  mark_incoming_request_notification_inactive, action_expired, incoming_request_action_state,
  request_expired_code, answer_request, accept_pending_transfer, status_state,
}
use dash_drop.Endings.{
  Now, set_status, updated_task, settle, update_transfer_status, cancelled_of, cancelled_task,
  refuse_waiting, cancel_transfer_inner, status_number, put_task, save, ended, with_reason,
  close_connection, emit_cancelled,
}

status_number-injective : (a b : TransferStatus) → status_number a ≡ status_number b → a ≡ b
status_number-injective a b h = ground arith

set_status-status :
    (status : TransferStatus) (t : TransferTask) → (set_status status t).status ≡ status
unfolding set_status
set_status-status status t = elim (Bool-cases (status_number t.status == status_number status)) [
  | inl same ↦ rw same (status_number-injective t.status status ((nat_eq.eqb_iff _ _).0 same))
  | inr other ↦ rw other refl
]

set_status-rest :
    (status : TransferStatus) (t : TransferTask)
    → ((set_status status t).direction ≡ t.direction)
      × ((set_status status t).bytes_transferred ≡ t.bytes_transferred)
unfolding set_status
set_status-rest status t = ground arith

updated-status :
    (now : Now) (status : TransferStatus) (code : Option String) (t : TransferTask)
    → (updated_task now status code t).status ≡ status
unfolding updated_task
updated-status now status code t =
    elim (Bool-cases (is_terminal (with_reason code (set_status status t)).status)) [
      | inl over ↦ rw over (set_status-status status t)
      | inr live ↦ rw live (set_status-status status t)
    ]

updated-rest :
    (now : Now) (status : TransferStatus) (code : Option String) (t : TransferTask)
    → ((updated_task now status code t).direction ≡ t.direction)
      × ((updated_task now status code t).bytes_transferred ≡ t.bytes_transferred)
unfolding updated_task
updated-rest now status code t =
    elim (Bool-cases (is_terminal (with_reason code (set_status status t)).status)) [
      | inl over ↦ rw over (set_status-rest status t)
      | inr live ↦ rw live (set_status-rest status t)
    ]

-- An update of a known transfer counts it in the metrics exactly when it ends a transfer that had
-- not ended: under the new status, with the bytes moved so far.
pub update_transfer_status-metrics :
    (now : Now) (id : String) (status : TransferStatus) (code : Option String) (s : Requests)
    (old : TransferTask)
    → lookup id s.transfers ≡ some old
    → (update_transfer_status now id status code s).0.metrics ≡ (
        if is_terminal status && not (is_terminal old.status)
        then record_transfer_terminal old.direction status old.bytes_transferred s.metrics
        else s.metrics)
unfolding update_transfer_status settle mark_incoming_request_notification_inactive
update_transfer_status-metrics now id status code s old found =
    rw (found, update_transfer_status)
      (rw (updated-status now status code old) (elim (Bool-cases (is_terminal status)) [
        | inl over ↦ rw over (elim (Bool-cases (is_terminal old.status)) [
          | inl before ↦ rw before refl
          | inr first ↦
              rw first (
                rw ((updated-rest now status code old).0, (updated-rest now status code old).1)
                  refl)
        ])
        | inr live ↦ rw live refl
      ]))

lookup-put :
    (id : String) (t old : TransferTask) (s : Requests)
    → lookup id s.transfers ≡ some old
    → lookup id (put_task id t s).transfers ≡ some t
lookup-put id t old s h = rw (lookup-update id id (λ x. t) s.transfers, beq_refl id, h) refl

settle-transfers :
    (now : Now) (id : String) (old t : TransferTask) (s : Requests)
    → (settle now id old t s).transfers ≡ s.transfers
unfolding settle mark_incoming_request_notification_inactive
settle-transfers now id old t s = elim (Bool-cases (is_terminal old.status)) [
  | inl before ↦ rw before refl
  | inr first ↦ rw first refl
]

pub settle-answers :
    (now : Now) (id : String) (old t : TransferTask) (s : Requests)
    → ((settle now id old t s).answers ≡ s.answers)
      × ((settle now id old t s).pending_accepts ≡ s.pending_accepts)
unfolding settle mark_incoming_request_notification_inactive
settle-answers now id old t s = elim (Bool-cases (is_terminal old.status)) [
  | inl before ↦ rw before (refl, refl)
  | inr first ↦ rw first (refl, refl)
]

-- An update to a terminal status leaves the task with that status, and sends no answer.
updated_known :
    (now : Now) (id : String) (status : TransferStatus) (code : Option String) (s : Requests)
    (old : TransferTask)
    → lookup id s.transfers ≡ some old
    → is_terminal status ≡ true
    → let s1 = (update_transfer_status now id status code s).0 in
      ((t : TransferTask) × (lookup id s1.transfers ≡ some t) × (is_terminal t.status ≡ true))
      × (s1.answers ≡ s.answers)
unfolding update_transfer_status
updated_known now id status code s old found over =
    let t = updated_task now status code old in
    let over' : is_terminal t.status ≡ true = rw (updated-status now status code old) over in
    let s1 = put_task id t s in
    rw (found, update_transfer_status)
      (rw over' (
        (t, ap (lookup id) (settle-transfers now id old t s1) ∙ lookup-put id t old s found, over'),
        (settle-answers now id old t s1).0,
      ))

expired-status :
    (nid : String) (status : TransferStatus) (n : Option IncomingRequestNotification)
    (waiting : Bool)
    → is_terminal status ≡ true
    → status_state nid (some status) n waiting ≡ action_expired
unfolding is_terminal
expired-status nid status n waiting h = ground arith

state_expired :
    (id nid : String) (s : Requests) (t : TransferTask)
    → lookup id s.transfers ≡ some t
    → is_terminal t.status ≡ true
    → incoming_request_action_state id nid s ≡ action_expired
unfolding incoming_request_action_state
state_expired id nid s t found over = rw found (
    expired-status nid t.status (lookup id s.notifications) (contains_key id s.pending_accepts)
      over)

accept_expired :
    (id nid : String) (later : ℕ) (s : Requests) (t : TransferTask)
    → lookup id s.transfers ≡ some t
    → is_terminal t.status ≡ true
    → let (s', result) = accept_pending_transfer later id nid s in
      (result ≡ err request_expired_code)
      × (s'.answers ≡ s.answers)
      × (contains_key id s'.pending_accepts ≡ false)
unfolding accept_pending_transfer answer_request mark_incoming_request_notification_inactive
    contains_key
accept_expired id nid later s t found over =
    rw (state_expired id nid s t found over, answer_request)
      (refl, refl, rw (lookup-remove_self id s.pending_accepts) refl)

-- After an update to a terminal status, the user's accept of the request comes too late: it gets
-- the code of an expired request, sends no answer, and nobody waits for one any more.
pub accept_pending_transfer_late :
    (now : Now) (id nid : String) (status : TransferStatus) (code : Option String) (s : Requests)
    (old : TransferTask) (later : ℕ)
    → lookup id s.transfers ≡ some old
    → is_terminal status ≡ true
    → let s1 = (update_transfer_status now id status code s).0 in
      let (s2, result) = accept_pending_transfer later id nid s1 in
      (result ≡ err request_expired_code)
      × (s2.answers ≡ s.answers)
      × (contains_key id s2.pending_accepts ≡ false)
accept_pending_transfer_late now id nid status code s old later found over =
    let ((t, here, ended), same) = updated_known now id status code s old found over in
    let late =
      accept_expired id nid later (update_transfer_status now id status code s).0 t here ended in
    (late.0, late.1 ∙ same, late.2)

refuse_waiting-transfers :
    (now : Now) (id : String) (s : Requests)
    → ((refuse_waiting now id s).transfers ≡ s.transfers)
      × ((refuse_waiting now id s).metrics ≡ s.metrics)
      × (contains_key id (refuse_waiting now id s).pending_accepts ≡ false)
      × ((refuse_waiting now id s).answers
          ≡ (if contains_key id s.pending_accepts then (id, false) ∷ s.answers else s.answers))
unfolding mark_incoming_request_notification_inactive contains_key
refuse_waiting-transfers now id s =
    elim (Bool-cases (not (is_none (lookup id s.pending_accepts)))) [
      | inl waiting ↦
          rw waiting (refl, refl, rw (lookup-remove_self id s.pending_accepts) refl, refl)
      | inr idle ↦ rw idle (refl, refl, idle, refl)
    ]

close_connection-rest :
    (conn : Option ℕ) (s : Requests)
    → ((close_connection conn s).transfers ≡ s.transfers)
      × ((close_connection conn s).metrics ≡ s.metrics)
      × ((close_connection conn s).pending_accepts ≡ s.pending_accepts)
      × ((close_connection conn s).answers ≡ s.answers)
close_connection-rest none s = (refl, refl, refl, refl)
close_connection-rest (some n) s = (refl, refl, refl, refl)

cancelled-status :
    (now : Now) (t : TransferTask)
    → ((cancelled_task now t).status ≡ cancelled_of t.direction)
      × ((cancelled_task now t).direction ≡ t.direction)
      × ((cancelled_task now t).bytes_transferred ≡ t.bytes_transferred)
unfolding cancelled_task
cancelled-status now t =
    let rest = set_status-rest (cancelled_of t.direction) t in
    (set_status-status (cancelled_of t.direction) t, rest.0, rest.1)

-- A cancel of a known transfer, whatever its status: it is cancelled by this side, it is counted
-- in the metrics, and nobody waits for an answer to its request any more: one who waited is
-- answered no, and no other answer is sent. A transfer that had ended is counted a second time and
-- its status replaced.
pub cancel_transfer_inner-ends :
    (now : Now) (id : String) (s : Requests) (old : TransferTask)
    → lookup id s.transfers ≡ some old
    → let (s', cancelled) = cancel_transfer_inner now id s in
      (cancelled ≡ true)
      × ((t : TransferTask) × (lookup id s'.transfers ≡ some t)
          × (t.status ≡ cancelled_of old.direction))
      × (s'.metrics
          ≡ record_transfer_terminal old.direction
              (cancelled_of old.direction)
              old.bytes_transferred
              s.metrics)
      × (contains_key id s'.pending_accepts ≡ false)
      × (s'.answers
          ≡ (if contains_key id s.pending_accepts then (id, false) ∷ s.answers else s.answers))
unfolding cancel_transfer_inner
cancel_transfer_inner-ends now id s old found =
    let waited = refuse_waiting-transfers now id s in
    let t = cancelled_task now old in
    let s1 = refuse_waiting now id s in
    let rest = close_connection-rest t.conn (emit_cancelled id t (save now t (put_task id t s1))) in
    let here : lookup id s1.transfers ≡ some old = ap (lookup id) waited.0 ∙ found in
    let what = cancelled-status now old in
    rw (here, cancel_transfer_inner)
      (
        refl,
        (t, ap (lookup id) rest.0 ∙ lookup-put id t old s1 here, what.0),
        recorded what.1 what.0 what.2 (rest.1 ∙ waited.1),
        ap (contains_key id) rest.2 ∙ waited.2,
        rest.3 ∙ waited.3,
      )
  where
    recorded :
        {d d' : TransferDirection} {a a' : TransferStatus} {n n' : ℕ} {m m' : TransferMetrics}
        → d ≡ d'
        → a ≡ a'
        → n ≡ n'
        → m ≡ m'
        → record_transfer_terminal d a n m ≡ record_transfer_terminal d' a' n' m'
    recorded p q r h = cc
