-- ===== src/Progress/Tests.antt =====
-- Runs of the worker on small inputs.
use dash_drop.Base.{
  option_map, ℕ, true, none, some, List, [], ◌∷◌, ◌≡◌, refl, string_eq, lookup, insert, update,
  remove, arith,
}
use dash_drop.Types.Transfer.{
  TransferTask, receive, transferring, completed, is_terminal, TransferStatus,
}
use dash_drop.History.{supersedes, save_transfer, row_of, should_persist_transfer}
use dash_drop.History.Order.{SupersedesAt, reading}
use dash_drop.Progress.{
  flush_all_entries, flush_ids, pending_ids, round, due_ids, rearm_and_flush, should_flush,
  open_entry, count_reason, count_result, flush_entry, flush_transfer_by_id, force_flush,
  is_newer_than, persist_task, record_persist_result, sync_pending_transfer_count, Worker, Moment,
  PendingTransfer, Input, command, timer, schedule, flush_now, with_policy, handle_command, rounds,
  run_worker, schedule_terminal, schedule_progress, flush_due_entries,
}
use dash_drop.Progress.Invariant.{WorkerInv, rounds-with_policy-Inv}
use dash_drop.Progress.Writes.{run_worker-Supersedes, run_worker-writes, writes, flushes}
use dash_drop.Progress.Deadlines.{Written, Quiet, flush_due_entries-Quiet, run_worker-Written}
use dash_drop.Progress.Stale.{schedule_no_bytes}

abbrev task : TransferStatus → ℕ → ℕ → TransferTask
task status revision bytes = record {
  id = "t1";
  batch_id = none;
  direction = receive;
  peer_fingerprint = "fp";
  peer_name = "peer";
  items = [];
  status = status;
  bytes_transferred = bytes;
  total_bytes = 100;
  revision = revision;
  started_at_unix = 5;
  ended_at_unix = none;
  terminal_reason_code = none;
  error = none;
  source_paths = none;
  source_path_by_file_id = none;
  failed_file_ids = none;
  conn = none;
  ended_at = none;
}

abbrev at : ℕ → Moment
at instant = record { instant = instant; unix_ms = instant; unix_secs = 7; access = reading true }

abbrev row_1 : List (Moment × Input)
row_1 =
    (at 10, command (schedule (task transferring 1 40)))
    ∷ (at 3010, timer)
    ∷ (at 3500, command (schedule (task transferring 1 60)))
    ∷ []

abbrev worker : Worker
worker = with_policy [] 3000 1000

abbrev busy : Worker
busy = rounds row_1 worker

-- The second update waits in memory with a deadline, the first is in the table.
busy_state :
    (option_map (λ e. e.deadline) (lookup "t1" busy.pending) ≡ some (some 6500))
    × (option_map (λ r. r.bytes_transferred) (lookup "t1" busy.table) ≡ some 40)
unfolding lookup run_worker flush_all_entries flush_ids pending_ids rounds round handle_command
    is_terminal schedule_progress flush_due_entries due_ids with_policy rearm_and_flush should_flush
    update open_entry insert remove row_of save_transfer should_persist_transfer supersedes
    count_reason count_result flush_entry flush_transfer_by_id force_flush is_newer_than
    persist_task record_persist_result schedule_terminal sync_pending_transfer_count
busy_state = (refl, refl)

-- After the channel is closed the row carries the last bytes.
closed_bytes :
    option_map (λ r. r.bytes_transferred) (lookup "t1" (run_worker row_1 (at 4000) worker).table)
    ≡ some 60
unfolding lookup run_worker flush_all_entries flush_ids pending_ids rounds round handle_command
    is_terminal schedule_progress flush_due_entries due_ids with_policy rearm_and_flush should_flush
    update open_entry insert remove row_of save_transfer should_persist_transfer supersedes
    count_reason count_result flush_entry flush_transfer_by_id force_flush is_newer_than
    persist_task record_persist_result schedule_terminal sync_pending_transfer_count
closed_bytes = refl

rounds-with_policy-Inv_example : WorkerInv (rounds row_1 (with_policy [] 3000 1000))
rounds-with_policy-Inv_example = rounds-with_policy-Inv row_1 3000 1000

run_worker-Supersedes_example : SupersedesAt (lookup "t1" busy.table) (
    lookup "t1"
      (run_worker
        ((at 5000, command (flush_now (task completed 2 100))) ∷ [])
        (at 6000)
        busy).table)
run_worker-Supersedes_example =
    run_worker-Supersedes ((at 5000, command (flush_now (task completed 2 100))) ∷ []) (at 6000)
      busy "t1" (refl, tt) refl

run_worker-writes_example :
    let d = (run_worker row_1 (at 4000) (with_policy [] 3000 1000)).diagnostics in
    writes d ≡ flushes d
unfolding lookup run_worker flush_all_entries flush_ids pending_ids rounds round handle_command
    is_terminal schedule_progress flush_due_entries due_ids with_policy rearm_and_flush should_flush
    update open_entry insert remove row_of save_transfer should_persist_transfer supersedes
    count_reason count_result flush_entry flush_transfer_by_id force_flush is_newer_than
    persist_task record_persist_result schedule_terminal sync_pending_transfer_count
run_worker-writes_example =
    run_worker-writes row_1 (at 4000) [] 3000 1000 (refl, (refl, (refl, tt))) refl (omega arith)

abbrev waiting : PendingTransfer
waiting = record {
  latest = task transferring 1 60;
  last_persisted_bytes = 40;
  deadline = some 6500;
}

flush_due_entries-Quiet_example :
    Quiet 6500 (lookup "t1" (flush_due_entries (at 6500) busy).pending)
flush_due_entries-Quiet_example = flush_due_entries-Quiet (at 6500) "t1" busy

run_worker-Written_example :
    Written (task transferring 1 60) (run_worker row_1 (at 4000) worker).table
unfolding lookup run_worker flush_all_entries flush_ids pending_ids rounds round handle_command
    is_terminal schedule_progress flush_due_entries due_ids with_policy rearm_and_flush should_flush
    update open_entry insert remove row_of save_transfer should_persist_transfer supersedes
    count_reason count_result flush_entry flush_transfer_by_id force_flush is_newer_than
    persist_task record_persist_result schedule_terminal sync_pending_transfer_count
run_worker-Written_example = run_worker-Written row_1 (at 4000) worker "t1" waiting refl refl

abbrev rested : Worker
rested = flush_due_entries (at 6500) busy

abbrev settled_entry : PendingTransfer
settled_entry = record {
  latest = task transferring 1 60;
  last_persisted_bytes = 60;
  deadline = none;
}

schedule_no_bytes_example :
    let w = handle_command (at 7000) (schedule (task transferring 2 60)) rested in
    (lookup "t1" w.pending
      ≡ some
          (record { latest = task transferring 2 60; last_persisted_bytes = 60; deadline = none }))
    × (w.table ≡ rested.table)
unfolding lookup run_worker flush_all_entries flush_ids pending_ids rounds round handle_command
    is_terminal schedule_progress flush_due_entries due_ids with_policy rearm_and_flush should_flush
    update open_entry insert remove row_of save_transfer should_persist_transfer supersedes
    count_reason count_result flush_entry flush_transfer_by_id force_flush is_newer_than
    persist_task record_persist_result schedule_terminal sync_pending_transfer_count
schedule_no_bytes_example =
    schedule_no_bytes (at 7000) (task transferring 2 60) rested settled_entry refl refl refl
      (omega arith) refl (omega arith)
