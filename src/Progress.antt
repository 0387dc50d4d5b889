-- ===== src/Progress.antt =====
-- src-tauri/src/persistence_progress.rs: the worker that coalesces progress updates of transfers
-- and writes them to the history. The worker is one task, so a history is a list of what it
-- receives; the clock and the answers of SQLite come with each input. The lock on the diagnostics
-- is taken to be free of poison.
pub mod Invariant
pub mod Writes
pub mod Deadlines
pub mod Stale
mod Tests
use dash_drop.Base.{
  ℕ, String, Bool, true, false, Option, none, some, List, [], ◌∷◌, ◌+◌, ◌-◌, ◌&&◌, ◌||◌, lookup,
  insert, remove, update, ltb, leb, ◌==◌, nat_eq, string_eq, if◌then◌else◌, saturating_add, length,
}
use dash_drop.Types.Transfer.{TransferTask, is_terminal}
use dash_drop.History.{Table, Access, save_transfer}

pub record Diagnostics : Type 0 where
  pub flush_interval_ms : ℕ
  pub flush_threshold_bytes : ℕ
  pub pending_transfer_count : ℕ
  pub schedule_requests : ℕ
  pub coalesced_updates : ℕ
  pub interval_flushes : ℕ
  pub threshold_flushes : ℕ
  pub force_flushes : ℕ
  pub terminal_flushes : ℕ
  pub successful_writes : ℕ
  pub failed_writes : ℕ
  pub last_flush_at_unix_ms : Option ℕ
  pub last_force_flush_at_unix_ms : Option ℕ

pub record PendingTransfer : Type 0 where
  pub latest : TransferTask
  pub last_persisted_bytes : ℕ
  pub deadline : Option ℕ

pub data PersistReason : Type 0 where
  interval threshold force terminal : PersistReason

pub data Command : Type 0 where
  schedule flush_now : TransferTask → Command

-- The worker's variables, and the database behind it.
pub record Worker : Type 0 where
  pub table : Table
  pub pending : List (String × PendingTransfer)
  pub diagnostics : Diagnostics
  pub flush_interval : ℕ
  pub flush_threshold_bytes : ℕ

-- What the surroundings supply at one step: the monotonic clock, the two forms of the wall clock,
-- and whether SQLite answers.
pub record Moment : Type 0 where
  pub instant : ℕ
  pub unix_ms : ℕ
  pub unix_secs : ℕ
  pub access : Access

-- A new worker, with the diagnostics of `with_policy`.
unfoldable pub with_policy : Table → ℕ → ℕ → Worker
with_policy table flush_interval flush_threshold_bytes = record {
  table = table;
  pending = [];
  diagnostics = record {
    flush_interval_ms = flush_interval;
    flush_threshold_bytes = flush_threshold_bytes;
    pending_transfer_count = 0;
    schedule_requests = 0;
    coalesced_updates = 0;
    interval_flushes = 0;
    threshold_flushes = 0;
    force_flushes = 0;
    terminal_flushes = 0;
    successful_writes = 0;
    failed_writes = 0;
    last_flush_at_unix_ms = none;
    last_force_flush_at_unix_ms = none;
  };
  flush_interval = flush_interval;
  flush_threshold_bytes = flush_threshold_bytes;
}

-- What of a task is kept: no paths and no connection.
unfoldable pub progress_snapshot : TransferTask → TransferTask
progress_snapshot t = record t {
  source_paths = none;
  source_path_by_file_id = none;
  conn = none;
  ended_at = none;
}

unfoldable pub is_newer_than : TransferTask → TransferTask → Bool
is_newer_than current candidate =
    ltb current.revision candidate.revision
    || (candidate.revision == current.revision
        && leb current.bytes_transferred candidate.bytes_transferred)

unfoldable pub sync_pending_transfer_count : Worker → Worker
sync_pending_transfer_count w = record w {
  diagnostics = record d { pending_transfer_count = length w.pending };
}
  where
    open w use {diagnostics as d}

unfoldable pub count_reason : PersistReason → ℕ → Diagnostics → Diagnostics
count_reason interval now d = record d { interval_flushes = saturating_add d.interval_flushes 1 }
count_reason threshold now d = record d { threshold_flushes = saturating_add d.threshold_flushes 1 }
count_reason force now d = record d {
  force_flushes = saturating_add d.force_flushes 1;
  last_force_flush_at_unix_ms = some now;
}
count_reason terminal now d = record d { terminal_flushes = saturating_add d.terminal_flushes 1 }

unfoldable pub count_result : Bool → ℕ → Diagnostics → Diagnostics
count_result true now d = record d {
  successful_writes = saturating_add d.successful_writes 1;
  last_flush_at_unix_ms = some now;
}
count_result false now d = record d { failed_writes = saturating_add d.failed_writes 1 }

unfoldable pub record_persist_result : Bool → PersistReason → ℕ → Diagnostics → Diagnostics
record_persist_result result reason now d = count_result result now (count_reason reason now d)

-- `persist_task`, and `persist_task_result` with `record_persist_result`.
unfoldable pub persist_task : Moment → TransferTask → PersistReason → Worker → Worker
persist_task m t reason w =
    let (table', result) = save_transfer m.access m.unix_secs t w.table in
    record w {
      table = table';
      diagnostics = record_persist_result result reason m.unix_ms w.diagnostics;
    }

abbrev pub flushed : PendingTransfer → PendingTransfer
flushed e = record e { last_persisted_bytes = e.latest.bytes_transferred; deadline = none }

unfoldable pub flush_entry : Moment → String → PersistReason → PendingTransfer → Worker → Worker
flush_entry m id reason e w =
    let w' = persist_task m e.latest reason (record w { pending = remove id w.pending }) in
    sync_pending_transfer_count (
      if is_terminal e.latest.status
      then w'
      else record w' { pending = insert id (flushed e) w'.pending })

unfoldable pub flush_transfer_by_id : Moment → String → PersistReason → Worker → Worker
flush_transfer_by_id m id reason w = elim (lookup id w.pending) [
  | none ↦ w
  | some e ↦ flush_entry m id reason e w
]

unfoldable pub flush_ids : Moment → List String → Worker → Worker
flush_ids m [] w = w
flush_ids m (id ∷ ids) w = flush_ids m ids (flush_transfer_by_id m id interval w)

abbrev pub is_due : ℕ → Option ℕ → Bool
is_due now none = false
is_due now (some deadline) = leb deadline now

unfoldable pub due_ids : ℕ → List (String × PendingTransfer) → List String
due_ids now [] = []
due_ids now ((id, e) ∷ rest) =
    let ids = due_ids now rest in if is_due now e.deadline then id ∷ ids else ids

unfoldable pub pending_ids : List (String × PendingTransfer) → List String
pending_ids [] = []
pending_ids ((id, e) ∷ rest) = id ∷ pending_ids rest

unfoldable pub flush_due_entries : Moment → Worker → Worker
flush_due_entries m w = flush_ids m (due_ids m.instant w.pending) w

unfoldable pub flush_all_entries : Moment → Worker → Worker
flush_all_entries m w = flush_ids m (pending_ids w.pending) w

-- The steps of `Command::Schedule` after the entry was written: rearm its deadline, and flush it
-- at the threshold.
abbrev pub rearmed : ℕ → PendingTransfer → PendingTransfer
rearmed deadline e =
    if ltb e.last_persisted_bytes e.latest.bytes_transferred
    then record e { deadline = some deadline }
    else e

unfoldable pub should_flush : ℕ → Option PendingTransfer → Bool
should_flush limit none = false
should_flush limit (some e) = leb limit (e.latest.bytes_transferred - e.last_persisted_bytes)

unfoldable pub rearm_and_flush : Moment → String → Worker → Worker
rearm_and_flush m id w =
    let w' = record w { pending = update id (rearmed (m.instant + w.flush_interval)) w.pending } in
    if should_flush w.flush_threshold_bytes (lookup id w'.pending)
    then flush_transfer_by_id m id threshold w'
    else w'

abbrev pub count_request : Worker → Worker
count_request w = record w {
  diagnostics = record d { schedule_requests = saturating_add d.schedule_requests 1 };
}
  where
    open w use {diagnostics as d}

abbrev pub coalesce : TransferTask → Worker → Worker
coalesce t w = record w {
  pending = update t.id (λ e. record e { latest = t }) w.pending;
  diagnostics = record d { coalesced_updates = saturating_add d.coalesced_updates 1 };
}
  where
    open w use {diagnostics as d}

unfoldable pub open_entry : Moment → TransferTask → Worker → Worker
open_entry m t w = sync_pending_transfer_count (record w {
  pending =
      insert t.id
        (record {
          latest = t;
          last_persisted_bytes = 0;
          deadline = some (m.instant + w.flush_interval);
        })
        w.pending;
})

unfoldable pub schedule_progress : Moment → TransferTask → Worker → Worker
schedule_progress m t w = elim (lookup t.id w.pending) [
  | none ↦ rearm_and_flush m t.id (open_entry m t w)
  | some e ↦ if is_newer_than e.latest t then rearm_and_flush m t.id (coalesce t w) else w
]

abbrev pub drop_entry : String → Worker → Worker
drop_entry id w = record w { pending = remove id w.pending }

unfoldable pub schedule_terminal : Moment → TransferTask → Worker → Worker
schedule_terminal m t w =
    drop_entry t.id (persist_task m t terminal (sync_pending_transfer_count (drop_entry t.id w)))

-- `FlushNow`; its reply, the result of the write, is what `save_transfer` returns.
unfoldable pub force_flush : Moment → TransferTask → Worker → Worker
force_flush m t w = persist_task m t force (sync_pending_transfer_count (drop_entry t.id w))

unfoldable pub handle_command : Moment → Command → Worker → Worker
handle_command m (schedule t) w =
    if is_terminal t.status
    then schedule_terminal m t (count_request w)
    else schedule_progress m t (count_request w)
handle_command m (flush_now t) w = force_flush m t w

-- One round of the loop of `run_worker`: a command, or the timer of the earliest deadline.
pub data Input : Type 0 where
  command : Command → Input
  timer : Input

unfoldable pub round : Moment × Input → Worker → Worker
round (m, command c) w = handle_command m c w
round (m, timer) w = flush_due_entries m w

-- The loop, up to the moment at which the channel is closed.
unfoldable pub rounds : List (Moment × Input) → Worker → Worker
rounds [] w = w
rounds (i ∷ is) w = rounds is (round i w)

unfoldable pub run_worker : List (Moment × Input) → Moment → Worker → Worker
run_worker is closing w = flush_all_entries closing (rounds is w)
