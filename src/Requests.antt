-- ===== src/Requests.antt =====
-- The life of an incoming request and the end of a transfer: the requests of AppState in
-- src-tauri/src/state.rs, accept, reject and cancel in src-tauri/src/core_service.rs, and
-- `update_transfer_status` of src-tauri/src/transport/receiver.rs. Each call runs as one step. A
-- one-shot channel is an entry of `pending_accepts`, and what is sent on it an answer. `now` is the
-- clock in seconds, `instant` the monotonic one, `access` says whether SQLite answers.

pub mod Accept
use Prim.Native.String.{◌++◌}
use dash_drop.Base.{
  ℕ, String, Done, Bool, true, false, Option, none, some, List, [], ◌∷◌, map, ◌&&◌, not, ◌==◌,
  string_eq, if◌then◌else◌, lookup, insert, remove, contains_key, update, is_none, option_map,
  option_or, unwrap_or, saturating_add, wrapping_add, Result, ok, err,
}
use dash_drop.Types.Transfer.{
  TransferTask, TransferDirection, send, receive, TransferStatus, draft, pending_accept,
  transferring, completed, partial_completed, rejected, cancelled_by_sender, cancelled_by_receiver,
  failed, is_terminal, FileItemMeta,
}
use dash_drop.History.{Table, Access, save_transfer}
use dash_drop.Progress.{progress_snapshot}

pub record IncomingRequestNotification : Type 0 where
  pub notification_id : String
  pub transfer_id : String
  pub active : Bool
  pub terminal_reason_code : Option String
  pub updated_at_unix : ℕ

pub record TransferMetrics : Type 0 where
  pub completed : ℕ
  pub partial : ℕ
  pub failed : ℕ
  pub cancelled_by_sender : ℕ
  pub cancelled_by_receiver : ℕ
  pub rejected : ℕ
  pub bytes_sent : ℕ
  pub bytes_received : ℕ

pub record TerminalEvent : Type 0 where
  pub transfer_id : String
  pub status : TransferStatus
  pub reason_code : String
  pub revision : ℕ

pub record Requests : Type 0 where
  pub transfers : List (String × TransferTask)
  pub notifications : List (String × IncomingRequestNotification)
  pub pending_accepts : List (String × Done)
  pub answers : List (String × Bool)
  pub metrics : TransferMetrics
  pub table : Table
  pub flushed : List TransferTask
  pub cancelled_connections : List ℕ
  pub events : List TerminalEvent

-- `record_transfer_terminal`, by the status and then by the direction.
unfoldable pub count_status : TransferStatus → TransferMetrics → TransferMetrics
count_status completed m = record m { completed = saturating_add m.completed 1 }
count_status partial_completed m = record m { partial = saturating_add m.partial 1 }
count_status rejected m = record m { rejected = saturating_add m.rejected 1 }
count_status cancelled_by_sender m = record m {
  cancelled_by_sender = saturating_add m.cancelled_by_sender 1;
}
count_status cancelled_by_receiver m = record m {
  cancelled_by_receiver = saturating_add m.cancelled_by_receiver 1;
}
count_status failed m = record m { failed = saturating_add m.failed 1 }
count_status _ m = m

unfoldable pub count_bytes : TransferDirection → ℕ → TransferMetrics → TransferMetrics
count_bytes send n m = record m { bytes_sent = saturating_add m.bytes_sent n }
count_bytes receive n m = record m { bytes_received = saturating_add m.bytes_received n }

unfoldable pub record_transfer_terminal :
    TransferDirection → TransferStatus → ℕ → TransferMetrics → TransferMetrics
record_transfer_terminal direction status n m = count_bytes direction n (count_status status m)

abbrev pub record_terminal : TransferTask → Requests → Requests
record_terminal t s = record s {
  metrics = record_transfer_terminal t.direction t.status t.bytes_transferred s.metrics;
}

abbrev pub deactivated :
    ℕ → Option String → IncomingRequestNotification → IncomingRequestNotification
deactivated now code n = record n {
  active = false;
  updated_at_unix = now;
  terminal_reason_code = option_or code n.terminal_reason_code;
}

unfoldable pub mark_incoming_request_notification_inactive :
    ℕ → String → Option String → Requests → Requests
mark_incoming_request_notification_inactive now id code s = record s {
  notifications = update id (deactivated now code) s.notifications;
}

-- The notification's part of `ensure_incoming_request_notification`; `uuid` is the new name.
unfoldable pub ensure_incoming_request_notification :
    ℕ → String → String → Requests → Requests × String
ensure_incoming_request_notification now uuid id s = elim (lookup id s.notifications) [
  | some n ↦ (
    record s {
      notifications =
          update id (λ x. record x { active = true; updated_at_unix = now }) s.notifications;
    },
    n.notification_id,
  )
  | none ↦ (
    record s {
      notifications =
          insert id
            (record {
              notification_id = uuid;
              transfer_id = id;
              active = true;
              terminal_reason_code = none;
              updated_at_unix = now;
            })
            s.notifications;
    },
    uuid,
  )
]

pub data ActionState : Type 0 where
  action_pending action_expired action_stale action_missing : ActionState

abbrev pub notified_state : String → Option IncomingRequestNotification → ActionState
notified_state nid none = action_missing
notified_state nid (some n) =
    if not n.active
    then action_expired
    else if n.notification_id == nid
    then action_pending
    else action_stale

-- The case of a transfer that is not known.
abbrev pub unknown_state : String → Option IncomingRequestNotification → Bool → ActionState
unknown_state nid none waiting = if waiting then action_pending else action_missing
unknown_state nid (some n) waiting =
    if not n.active
    then action_expired
    else if n.notification_id == nid
    then if waiting then action_pending else action_missing
    else action_stale

abbrev pub status_state :
    String → Option TransferStatus → Option IncomingRequestNotification → Bool → ActionState
status_state nid none n waiting = unknown_state nid n waiting
status_state nid (some pending_accept) n waiting = notified_state nid n
status_state nid (some other) n waiting = action_expired

unfoldable pub incoming_request_action_state : String → String → Requests → ActionState
incoming_request_action_state id nid s =
    status_state nid (option_map (λ t. t.status) (lookup id s.transfers))
      (lookup id s.notifications) (contains_key id s.pending_accepts)

abbrev pub request_expired_code : String
request_expired_code = "E_REQUEST_EXPIRED"

pub already_handled : String → String
already_handled id = "transfer " ++ id ++ " not found or already handled"

abbrev pub take_accept : String → Requests → Requests
take_accept id s = record s { pending_accepts = remove id s.pending_accepts }

abbrev pub answer : String → Bool → Requests → Requests
answer id value s = record s { answers = (id, value) ∷ s.answers }

-- Both handlers differ in the answer, and in what they say of a request that is gone.
unfoldable pub answer_request :
    Bool → Result Done String → ℕ → String → String → Requests → Requests × Result Done String
answer_request value gone now id nid s = elim (incoming_request_action_state id nid s) [
  | action_expired ↦ (
    mark_incoming_request_notification_inactive now id (some request_expired_code)
        (take_accept id s),
    err request_expired_code,
  )
  | action_stale ↦ (s, err request_expired_code)
  | action_missing ↦ (s, gone)
  | action_pending ↦
      if contains_key id s.pending_accepts
      then (
        answer id value
            (mark_incoming_request_notification_inactive now id none (take_accept id s)),
        ok tt,
      )
      else (s, gone)
]

unfoldable pub accept_pending_transfer :
    ℕ → String → String → Requests → Requests × Result Done String
unfolding already_handled
accept_pending_transfer now id nid s = answer_request true (err (already_handled id)) now id nid s

unfoldable pub reject_pending_transfer :
    ℕ → String → String → Requests → Requests × Result Done String
reject_pending_transfer now id nid s = answer_request false (ok tt) now id nid s
