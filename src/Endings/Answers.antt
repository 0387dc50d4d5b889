-- ===== src/Endings/Answers.antt =====
-- A request is answered at most once, in any order of accept, reject, cancel and updates of the
-- status: core_service.rs and receiver.rs.
use dash_drop.Base.{
  ℕ, suc, String, Done, Bool, true, false, Option, none, some, List, [], ◌∷◌, ◌≡◌, refl, sym, ◌∙◌,
  ap, ◌≤◌, ◌+◌, ◌==◌, string_eq, if◌then◌else◌, lookup, remove, contains_key, lookup-remove,
  Bool-cases, Option-cases, inl, inr, arith, Result,
}
use dash_drop.Types.Transfer.{TransferStatus, is_terminal}
use dash_drop.Requests.{
  Requests, ActionState, action_pending, action_expired, action_stale, action_missing,
  incoming_request_action_state, answer_request, accept_pending_transfer, reject_pending_transfer,
  mark_incoming_request_notification_inactive, answer, take_accept,
}
use dash_drop.Endings.{
  Now, updated_task, update_transfer_status, refuse_waiting, cancel_transfer_inner, cancelled_task,
  put_task, close_connection,
}
use dash_drop.Endings.Once.{settle-answers}

abbrev pub count_answers : String → List (String × Bool) → ℕ
count_answers key [] = 0
count_answers key ((id, value) ∷ rest) =
    let n = count_answers key rest in if id == key then suc n else n

abbrev pub waiting : String → List (String × Done) → ℕ
waiting key pending = if contains_key key pending then 1 else 0

abbrev pub open_answers : String → Requests → ℕ
open_answers key s = count_answers key s.answers + waiting key s.pending_accepts

-- One call, and any number of calls.
pub data Step (s : Requests) : Requests → Type 0 where
  accepts : (now : ℕ) (id nid : String) → Step s (accept_pending_transfer now id nid s).0
  rejects : (now : ℕ) (id nid : String) → Step s (reject_pending_transfer now id nid s).0
  cancels : (now : Now) (id : String) → Step s (cancel_transfer_inner now id s).0
  updates :
      (now : Now) (id : String) (status : TransferStatus) (code : Option String)
      → Step s (update_transfer_status now id status code s).0

pub data Steps (s : Requests) : Requests → Type 0 where
  start : Steps s s
  then_step : {a b : Requests} → Steps s a → Step a b → Steps s b

waiting-remove :
    (key id : String) (pending : List (String × Done))
    → waiting key (remove id pending) ≡ (if id == key then 0 else waiting key pending)
unfolding contains_key
waiting-remove key id pending =
    rw (lookup-remove id key pending)
      (elim (Bool-cases (id == key)) [ inl same ↦ rw same refl | inr other ↦ rw other refl ])

taken : (key id : String) (s : Requests) → open_answers key (take_accept id s) ≤ open_answers key s
taken key id s = ground (arith, waiting-remove key id s.pending_accepts)

answered :
    (key id : String) (value : Bool) (s : Requests)
    → contains_key id s.pending_accepts ≡ true
    → open_answers key (answer id value (take_accept id s)) ≤ open_answers key s
answered key id value s h = elim (Bool-cases (id == key)) [
  | inl same ↦
      let there : contains_key key s.pending_accepts ≡ true =
        ap (λ k. contains_key k s.pending_accepts) (sym ((string_eq.eqb_iff id key).0 same)) ∙ h in
      ground (arith, waiting-remove key id s.pending_accepts, there, same)
  | inr other ↦ ground (arith, waiting-remove key id s.pending_accepts, other)
]

answer_request-open :
    (key : String) (value : Bool) (gone : Result Done String) (now : ℕ) (id nid : String)
    (s : Requests)
    → open_answers key (answer_request value gone now id nid s).0 ≤ open_answers key s
unfolding answer_request mark_incoming_request_notification_inactive
answer_request-open key value gone now id nid s = go (incoming_request_action_state id nid s) refl
  where
    go :
        (a : ActionState)
        → incoming_request_action_state id nid s ≡ a
        → open_answers key (answer_request value gone now id nid s).0 ≤ open_answers key s
    go action_expired e = rw (e, answer_request) (taken key id s)
    go action_stale e = rw (e, answer_request) (omega arith)
    go action_missing e = rw (e, answer_request) (omega arith)
    go action_pending e =
        rw (e, answer_request)
          (elim (Bool-cases (contains_key id s.pending_accepts)) [
            | inl there ↦ rw there (answered key id value s there)
            | inr gone_already ↦ rw gone_already (omega arith)
          ])

cancel-open :
    (key : String) (now : Now) (id : String) (s : Requests)
    → open_answers key (cancel_transfer_inner now id s).0 ≤ open_answers key s
unfolding cancel_transfer_inner mark_incoming_request_notification_inactive
cancel-open key now id s = elim (Option-cases (lookup id (refuse_waiting now id s).transfers)) [
  | inl e ↦ rw (e, cancel_transfer_inner) refused
  | inr (old, e) ↦ rw (e, cancel_transfer_inner) (closed (cancelled_task now old).conn _ refused)
]
  where
    refused : open_answers key (refuse_waiting now id s) ≤ open_answers key s
    refused = elim (Bool-cases (contains_key id s.pending_accepts)) [
      | inl there ↦ rw there (answered key id false s there)
      | inr idle ↦ rw idle (omega arith)
    ]

    closed :
        (conn : Option ℕ) (a : Requests)
        → open_answers key a ≤ open_answers key s
        → open_answers key (close_connection conn a) ≤ open_answers key s
    closed none a h = h
    closed (some n) a h = h

update-open :
    (key : String) (now : Now) (id : String) (status : TransferStatus) (code : Option String)
    (s : Requests)
    → open_answers key (update_transfer_status now id status code s).0 ≤ open_answers key s
unfolding update_transfer_status
update-open key now id status code s = elim (Option-cases (lookup id s.transfers)) [
  | inl e ↦ rw (e, update_transfer_status) (omega arith)
  | inr (old, e) ↦
      let t = updated_task now status code old in
      rw (e, update_transfer_status)
        (elim (Bool-cases (is_terminal t.status)) [
          | inl over ↦
              let same = settle-answers now id old t (put_task id t s) in
              rw over (rw (same.0, same.1) (omega arith))
          | inr live ↦ rw live (omega arith)
        ])
]

Step-open : (key : String) {a b : Requests} → Step a b → open_answers key b ≤ open_answers key a
unfolding accept_pending_transfer reject_pending_transfer
Step-open key {a} (Step.accepts now id nid) = answer_request-open key true _ now id nid a
Step-open key {a} (Step.rejects now id nid) = answer_request-open key false _ now id nid a
Step-open key {a} (Step.cancels now id) = cancel-open key now id a
Step-open key {a} (Step.updates now id status code) = update-open key now id status code a

Steps-open : (key : String) {a b : Requests} → Steps a b → open_answers key b ≤ open_answers key a
Steps-open key start = omega arith
Steps-open key (then_step before last) = omega (arith, Step-open key last, Steps-open key before)

-- In any run of accepts, rejects, cancels and status updates, on any transfers, the receiver that
-- waits for the answer of one request gets one answer at most, and none where nobody waits.
pub Steps-count_answers :
    (key : String) (a b : Requests)
    → Steps a b
    → count_answers key b.answers ≤ count_answers key a.answers + waiting key a.pending_accepts
Steps-count_answers key a b steps = omega (arith, Steps-open key steps)
