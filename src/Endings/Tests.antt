-- ===== src/Endings/Tests.antt =====
-- One incoming transfer that is answered, cancelled or ended.
use dash_drop.Base.{
  if◌then◌else◌, ℕ, String, true, false, none, some, List, [], ◌∷◌, ◌≡◌, refl, ◌↔◌, ◌≤◌, string_eq,
  lookup, contains_key, ok, err, nat_eq,
}
use dash_drop.Types.Transfer.{
  TransferTask, send, receive, pending_accept, rejected, completed, cancelled_by_sender,
  is_terminal,
}
use dash_drop.Requests.{
  Requests, TransferMetrics, record_transfer_terminal, request_expired_code, action_pending,
  incoming_request_action_state, accept_pending_transfer,
}
use dash_drop.Requests.Accept.{IsOpen, is_ok, accept_pending_transfer_iff}
use dash_drop.History.Order.{reading}
use dash_drop.Endings.{Now, update_transfer_status, cancel_transfer_inner}
use dash_drop.Endings.Once.{
  update_transfer_status-metrics, accept_pending_transfer_late, cancel_transfer_inner-ends,
}
use dash_drop.Endings.Answers.{count_answers, Step, Steps, Steps-count_answers}

abbrev incoming : TransferTask
incoming = record {
  id = "t1";
  batch_id = none;
  direction = receive;
  peer_fingerprint = "fp";
  peer_name = "peer";
  items = [];
  status = pending_accept;
  bytes_transferred = 30;
  total_bytes = 100;
  revision = 0;
  started_at_unix = 5;
  ended_at_unix = none;
  terminal_reason_code = none;
  error = none;
  source_paths = none;
  source_path_by_file_id = none;
  failed_file_ids = none;
  conn = some 3;
  ended_at = none;
}

abbrev outgoing : TransferTask
outgoing = record incoming {
  id = "t2";
  direction = send;
  status = completed;
  source_paths = some ("/a" ∷ "/b" ∷ "/c" ∷ []);
  source_path_by_file_id = some ((1, "/a") ∷ (2, "/b") ∷ (3, "/b") ∷ []);
  failed_file_ids = some (2 ∷ 3 ∷ 9 ∷ []);
}

abbrev metrics : TransferMetrics
metrics = record {
  completed = 1;
  partial = 0;
  failed = 0;
  cancelled_by_sender = 0;
  cancelled_by_receiver = 0;
  rejected = 0;
  bytes_sent = 30;
  bytes_received = 0;
}

abbrev state : Requests
state = record {
  transfers = ("t1", incoming) ∷ ("t2", outgoing) ∷ [];
  notifications =
      (
        "t1",
        record {
          notification_id = "n1";
          transfer_id = "t1";
          active = true;
          terminal_reason_code = none;
          updated_at_unix = 5;
        },
      )
      ∷ [];
  pending_accepts = ("t1", tt) ∷ [];
  answers = [];
  metrics = metrics;
  table = [];
  flushed = [];
  cancelled_connections = [];
  events = [];
}

abbrev now : Now
now = record { unix_secs = 50; instant = 900; access = reading true }

accept_pending_transfer_iff_example :
    let (s', result) = accept_pending_transfer 60 "t1" "n1" state in
    ((result ≡ ok tt) ↔ IsOpen "t1" "n1" state)
    × (s'.answers ≡ (if is_ok result then ("t1", true) ∷ state.answers else state.answers))
accept_pending_transfer_iff_example = accept_pending_transfer_iff 60 "t1" "n1" state

is_pending : incoming_request_action_state "t1" "n1" state ≡ action_pending
unfolding incoming_request_action_state lookup contains_key
is_pending = refl

update_transfer_status-metrics_example :
    (update_transfer_status now "t1" rejected (some "E_TIMEOUT") state).0.metrics
    ≡ record_transfer_terminal receive rejected 30 metrics
unfolding lookup is_terminal
update_transfer_status-metrics_example =
    update_transfer_status-metrics now "t1" rejected (some "E_TIMEOUT") state incoming refl

accept_pending_transfer_late_example :
    let s1 = (update_transfer_status now "t1" rejected (some "E_TIMEOUT") state).0 in
    let (s2, result) = accept_pending_transfer 60 "t1" "n1" s1 in
    (result ≡ err request_expired_code)
    × (s2.answers ≡ [])
    × (contains_key "t1" s2.pending_accepts ≡ false)
unfolding lookup is_terminal
accept_pending_transfer_late_example =
    accept_pending_transfer_late now "t1" "n1" rejected (some "E_TIMEOUT") state incoming 60 refl
      refl

-- The transfer of this test had been completed, and was counted as such.
cancel_transfer_inner-ends_example :
    let (s', cancelled) = cancel_transfer_inner now "t2" state in
    (cancelled ≡ true)
    × ((t : TransferTask) × (lookup "t2" s'.transfers ≡ some t) × (t.status ≡ cancelled_by_sender))
    × (s'.metrics ≡ record_transfer_terminal send cancelled_by_sender 30 metrics)
    × (contains_key "t2" s'.pending_accepts ≡ false)
    × (s'.answers ≡ (
        if contains_key "t2" state.pending_accepts
        then ("t2", false) ∷ state.answers
        else state.answers))
unfolding lookup
cancel_transfer_inner-ends_example = cancel_transfer_inner-ends now "t2" state outgoing refl

abbrev after_accept : Requests
after_accept = (accept_pending_transfer 60 "t1" "n1" state).0

abbrev after_both : Requests
after_both = (cancel_transfer_inner now "t1" after_accept).0

Steps-count_answers_example : count_answers "t1" after_both.answers ≤ 1
unfolding contains_key lookup
Steps-count_answers_example = Steps-count_answers "t1" state after_both (
    Steps.then_step (Steps.then_step Steps.start (Step.accepts 60 "t1" "n1"))
      (Step.cancels now "t1"))

abbrev all_paths : List String
all_paths = "/a" ∷ "/b" ∷ "/c" ∷ []

abbrev retried : List String
retried = "/b" ∷ []

abbrev mapping : List (ℕ × String)
mapping = (1, "/a") ∷ (2, "/b") ∷ (3, "/b") ∷ []

abbrev failed_ids : List ℕ
failed_ids = 2 ∷ 3 ∷ 9 ∷ []
