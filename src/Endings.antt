-- ===== src/Endings.antt =====
-- How a transfer ends: `update_transfer_status` of src-tauri/src/transport/receiver.rs and the cancel
-- and retry of src-tauri/src/core_service.rs, on the state of the requests.
pub mod Once
pub mod Answers
pub mod Retry
mod Tests
use dash_drop.Base.{
  ℕ, String, Done, Bool, true, false, Option, none, some, List, [], ◌∷◌, ◌++◌, map, ◌&&◌, ◌||◌, not,
  ◌==◌, nat_eq, string_eq, if◌then◌else◌, any, lookup, insert, remove, contains_key, update,
  is_none, is_empty, option_map, option_or, unwrap_or, wrapping_add, Result, ok, err,
}
use dash_drop.Types.Transfer.{
  TransferTask, TransferDirection, send, receive, TransferStatus, draft, pending_accept,
  transferring, completed, partial_completed, rejected, cancelled_by_sender, cancelled_by_receiver,
  failed, is_terminal, FileItemMeta,
}
use dash_drop.History.{Table, Access, save_transfer}
use dash_drop.Progress.{progress_snapshot}
use dash_drop.Requests.{
  Requests, TerminalEvent, record_terminal, mark_incoming_request_notification_inactive, answer,
  take_accept,
}

-- What the surroundings supply: the clock in seconds, the monotonic one, and SQLite's answers.
pub record Now : Type 0 where
  pub unix_secs : ℕ
  pub instant : ℕ
  pub access : Access

abbrev pub status_number : TransferStatus → ℕ
status_number draft = 0
status_number pending_accept = 1
status_number transferring = 2
status_number completed = 3
status_number partial_completed = 4
status_number rejected = 5
status_number cancelled_by_sender = 6
status_number cancelled_by_receiver = 7
status_number failed = 8

-- A status is set, with a new revision if it is another one.
unfoldable pub set_status : TransferStatus → TransferTask → TransferTask
set_status status t =
    if status_number t.status == status_number status
    then t
    else record t { status = status; revision = wrapping_add t.revision 1 }

abbrev pub ended : Now → TransferTask → TransferTask
ended now t = record t { ended_at = some now.instant; ended_at_unix = some now.unix_secs }

abbrev pub with_reason : Option String → TransferTask → TransferTask
with_reason code t = record t { terminal_reason_code = option_or code t.terminal_reason_code }

-- The task after `update_transfer_status`.
unfoldable pub updated_task : Now → TransferStatus → Option String → TransferTask → TransferTask
unfolding set_status
updated_task now status code t =
    let t' = with_reason code (set_status status t) in
    if is_terminal t'.status then ended now t' else t'

abbrev pub put_task : String → TransferTask → Requests → Requests
put_task id t s = record s { transfers = update id (λ old. t) s.transfers }

abbrev pub save : Now → TransferTask → Requests → Requests
save now t s = record s { table = (save_transfer now.access now.unix_secs t s.table).0 }

abbrev pub flush : TransferTask → Requests → Requests
flush t s = record s { flushed = progress_snapshot t ∷ s.flushed }

-- The rest of a terminal update: the row, the notification, the metrics of a first ending, and the
-- forced flush.
unfoldable pub settle : Now → String → TransferTask → TransferTask → Requests → Requests
settle now id old t s =
    let s1 =
      mark_incoming_request_notification_inactive now.unix_secs id t.terminal_reason_code
        (save now t s) in
    flush t (if is_terminal old.status then s1 else record_terminal t s1)

unfoldable pub update_transfer_status :
    Now → String → TransferStatus → Option String → Requests → Requests × Option ℕ
update_transfer_status now id status code s = elim (lookup id s.transfers) [
  | none ↦ (s, none)
  | some old ↦
      let t = updated_task now status code old in
      let s1 = put_task id t s in
      (if is_terminal t.status then settle now id old t s1 else s1, some t.revision)
]

abbrev pub cancelled_of : TransferDirection → TransferStatus
cancelled_of send = cancelled_by_sender
cancelled_of receive = cancelled_by_receiver

abbrev pub cancelled_code : String
cancelled_code = "E_CANCELLED_BY_USER"

unfoldable pub cancelled_task : Now → TransferTask → TransferTask
unfolding set_status
cancelled_task now t = ended now (record (set_status (cancelled_of t.direction) t) {
  terminal_reason_code = some cancelled_code;
  failed_file_ids = some (map (λ (i : FileItemMeta). i.file_id) t.items);
})

abbrev pub refuse_waiting : Now → String → Requests → Requests
refuse_waiting now id s =
    if contains_key id s.pending_accepts
    then answer id false (
        mark_incoming_request_notification_inactive now.unix_secs id (some cancelled_code)
          (take_accept id s))
    else s

abbrev pub close_connection : Option ℕ → Requests → Requests
close_connection none s = s
close_connection (some conn) s = record s { cancelled_connections = conn ∷ s.cancelled_connections }

abbrev pub emit_cancelled : String → TransferTask → Requests → Requests
emit_cancelled id t s = record s {
  events =
      record {
        transfer_id = id;
        status = t.status;
        reason_code = cancelled_code;
        revision = t.revision;
      }
      ∷ s.events;
}

-- With a host, to which the event goes.
unfoldable pub cancel_transfer_inner : Now → String → Requests → Requests × Bool
cancel_transfer_inner now id s =
    let s1 = refuse_waiting now id s in
    elim (lookup id s1.transfers) [
      | none ↦ (s1, false)
      | some old ↦
          let t = cancelled_task now old in
          (
            record_terminal t
                (close_connection t.conn (emit_cancelled id t (save now t (put_task id t s1)))),
            true,
          )
    ]

abbrev pub is_active : TransferStatus → Bool
is_active pending_accept = true
is_active transferring = true
is_active _ = false

unfoldable pub active_ids : List (String × TransferTask) → List String
active_ids [] = []
active_ids ((id, t) ∷ rest) =
    let ids = active_ids rest in if is_active t.status then t.id ∷ ids else ids

unfoldable pub cancel_each : Now → List String → Requests → Requests × ℕ
cancel_each now [] s = (s, 0)
cancel_each now (id ∷ ids) s =
    let (s1, done) = cancel_transfer_inner now id s in
    let (s2, count) = cancel_each now ids s1 in (s2, if done then ℕ.suc count else count)

unfoldable pub cancel_all_transfers : Now → Requests → Requests × ℕ
cancel_all_transfers now s = cancel_each now (active_ids s.transfers) s

-- `select_retry_paths`: the paths of the failed files, each once; all paths if there is none.
unfoldable pub failed_paths : List (ℕ × String) → List ℕ → List String → List String
failed_paths mapping [] seen = []
failed_paths mapping (id ∷ ids) seen = elim (lookup id mapping) [
  | none ↦ failed_paths mapping ids seen
  | some path ↦
      let more = failed_paths mapping ids (path ∷ seen) in
      let same = failed_paths mapping ids seen in
      if any (λ p. p == path) seen then same else path ∷ more
]

unfoldable pub select_retry_paths : TransferTask → Result (List String) String
select_retry_paths t = elim t.source_paths [
  | none ↦ err "retry source paths unavailable for this transfer"
  | some all_paths ↦
      let subset =
        failed_paths (unwrap_or t.source_path_by_file_id []) (unwrap_or t.failed_file_ids []) [] in
      if is_empty subset then ok all_paths else ok subset
]
