-- ===== src/Progress/Writes.antt =====
-- What the worker of persistence_progress.rs writes: its counts of writes agree, and a row of the
-- history is never taken back.
use dash_drop.Base.{
  ℕ, String, Bool, true, false, none, some, List, [], ◌∷◌, ◌≡◌, refl, sym, subst, ◌+◌, All,
  string_eq, lookup, insert, remove, update, if◌then◌else◌, arith, Option-cases, Bool-cases, inl,
  inr, u64_max, lookup-remove_self, ◌<◌,
}
use dash_drop.Types.Transfer.{TransferTask, is_terminal}
use dash_drop.History.{Row, Table, Access, save_transfer}
use dash_drop.History.Order.{
  SupersedesAt, SupersedesAt-refl, SupersedesAt-trans, reading, save_transfer-Supersedes,
  save_transfer-latest, IsUpToDate,
}
use dash_drop.Progress.{
  Worker, Moment, PendingTransfer, PersistReason, Input, command, timer, Command, schedule,
  flush_now, interval, threshold, terminal, force, with_policy, sync_pending_transfer_count,
  persist_task, flush_entry, flush_transfer_by_id, flush_ids, due_ids, flush_due_entries,
  flush_all_entries, rearmed, should_flush, rearm_and_flush, count_request, coalesce, open_entry,
  schedule_progress, drop_entry, schedule_terminal, force_flush, handle_command, round, rounds,
  run_worker, flushed, is_newer_than, Diagnostics, record_persist_result, count_result,
  count_reason,
}

-- Writes that were tried, by reason and by result.
abbrev pub flushes : Diagnostics → ℕ
flushes d = d.interval_flushes + d.threshold_flushes + d.force_flushes + d.terminal_flushes

abbrev pub writes : Diagnostics → ℕ
writes d = d.successful_writes + d.failed_writes

-- The two sums agree as long as no counter has met its end.
abbrev pub Balanced : Diagnostics → Type 0
Balanced d = flushes d < u64_max → writes d ≡ flushes d

-- A step of the worker: what it keeps of the table and of the counts.
pub record Keeps (w w' : Worker) : Type 0 where
  pub balance : Balanced w.diagnostics → Balanced w'.diagnostics
  pub rows : (key : String) → SupersedesAt (lookup key w.table) (lookup key w'.table)

Keeps-refl : (w : Worker) → Keeps w w
Keeps-refl w = record { balance = λ b. b; rows = λ key. SupersedesAt-refl (lookup key w.table) }

Keeps-trans : {a b c : Worker} → Keeps a b → Keeps b c → Keeps a c
Keeps-trans p q = record {
  balance = λ h. q.balance (p.balance h);
  rows = λ key. SupersedesAt-trans _ _ _ (p.rows key) (q.rows key);
}

-- A change of `pending`, and of no count of writes.
Keeps-same :
    (w w' : Worker)
    → w'.table ≡ w.table
    → flushes w'.diagnostics ≡ flushes w.diagnostics
    → writes w'.diagnostics ≡ writes w.diagnostics
    → Keeps w w'
Keeps-same w w' t f s = record {
  balance = λ h g. omega (arith, h (omega arith));
  rows = λ key. rw t (SupersedesAt-refl (lookup key w.table));
}

Balanced-record :
    (result : Bool) (reason : PersistReason) (now : ℕ) (d : Diagnostics)
    → Balanced d
    → Balanced (record_persist_result result reason now d)
unfolding record_persist_result count_result count_reason
Balanced-record true interval now d h g = omega (arith, h (omega arith))
Balanced-record true threshold now d h g = omega (arith, h (omega arith))
Balanced-record true force now d h g = omega (arith, h (omega arith))
Balanced-record true terminal now d h g = omega (arith, h (omega arith))
Balanced-record false interval now d h g = omega (arith, h (omega arith))
Balanced-record false threshold now d h g = omega (arith, h (omega arith))
Balanced-record false force now d h g = omega (arith, h (omega arith))
Balanced-record false terminal now d h g = omega (arith, h (omega arith))

-- The moments at which SQLite answers queries.
abbrev pub IsReading : Moment → Type 0
IsReading m = m.access.read_ok ≡ true

save-Supersedes :
    (a : Access) (now : ℕ) (t : TransferTask) (table : Table) (key : String)
    → a.read_ok ≡ true
    → SupersedesAt (lookup key table) (lookup key (save_transfer a now t table).0)
save-Supersedes a now t table key h =
    subst
      (λ b.
        SupersedesAt (lookup key table) (
          lookup key (save_transfer (record { read_ok = b; write_ok = a.write_ok }) now t table).0))
      (sym h) (save_transfer-Supersedes a.write_ok now t table key)

persist_task-Keeps :
    (m : Moment) (t : TransferTask) (reason : PersistReason) (w : Worker)
    → IsReading m
    → Keeps w (persist_task m t reason w)
unfolding persist_task
persist_task-Keeps m t reason w h = record {
  balance = Balanced-record _ reason m.unix_ms w.diagnostics;
  rows = λ key. save-Supersedes m.access m.unix_secs t w.table key h;
}

sync-Keeps : (w : Worker) → Keeps w (sync_pending_transfer_count w)
unfolding sync_pending_transfer_count
sync-Keeps w = Keeps-same w _ refl refl refl

pending-Keeps :
    (w : Worker) (p : List (String × PendingTransfer)) → Keeps w (record w { pending = p })
pending-Keeps w p = Keeps-same w _ refl refl refl

flush_entry-Keeps :
    (m : Moment) (id : String) (reason : PersistReason) (e : PendingTransfer) (w : Worker)
    → IsReading m
    → Keeps w (flush_entry m id reason e w)
unfolding flush_entry
flush_entry-Keeps m id reason e w h = Keeps-trans (pending-Keeps w (remove id w.pending)) (
    Keeps-trans (persist_task-Keeps m e.latest reason dropped h)
      (Keeps-trans stored (sync-Keeps _)))
  where
    dropped : Worker
    dropped = record w { pending = remove id w.pending }

    stored :
        let w' = persist_task m e.latest reason dropped in
        Keeps w' (
          if is_terminal e.latest.status
          then w'
          else record w' { pending = insert id (flushed e) w'.pending })
    stored = elim (Bool-cases (is_terminal e.latest.status)) [
      | inl done ↦ rw done (Keeps-refl _)
      | inr live ↦ rw live (pending-Keeps _ _)
    ]

flush_transfer_by_id-Keeps :
    (m : Moment) (id : String) (reason : PersistReason) (w : Worker)
    → IsReading m
    → Keeps w (flush_transfer_by_id m id reason w)
unfolding flush_transfer_by_id
flush_transfer_by_id-Keeps m id reason w h = elim (Option-cases (lookup id w.pending)) [
  | inl e ↦ rw (e, flush_transfer_by_id) (Keeps-refl w)
  | inr (e, found) ↦ rw (found, flush_transfer_by_id) (flush_entry-Keeps m id reason e w h)
]

pub flush_ids-Keeps :
    (m : Moment) (ids : List String) (w : Worker) → IsReading m → Keeps w (flush_ids m ids w)
unfolding flush_ids
flush_ids-Keeps m [] w h = Keeps-refl w
flush_ids-Keeps m (id ∷ ids) w h =
    Keeps-trans (flush_transfer_by_id-Keeps m id interval w h) (flush_ids-Keeps m ids _ h)

rearm_and_flush-Keeps :
    (m : Moment) (id : String) (w : Worker) → IsReading m → Keeps w (rearm_and_flush m id w)
unfolding rearm_and_flush
rearm_and_flush-Keeps m id w h =
    elim (Bool-cases (should_flush w.flush_threshold_bytes (lookup id w'.pending))) [
      | inl full ↦ rw full (
          Keeps-trans (pending-Keeps w w'.pending) (flush_transfer_by_id-Keeps m id threshold w' h))
      | inr rest ↦ rw rest (pending-Keeps w w'.pending)
    ]
  where
    w' : Worker
    w' = record w { pending = update id (rearmed (m.instant + w.flush_interval)) w.pending }

open_entry-Keeps : (m : Moment) (t : TransferTask) (w : Worker) → Keeps w (open_entry m t w)
unfolding open_entry
open_entry-Keeps m t w = Keeps-trans (pending-Keeps w _) (sync-Keeps _)

schedule_progress-Keeps :
    (m : Moment) (t : TransferTask) (w : Worker) → IsReading m → Keeps w (schedule_progress m t w)
unfolding schedule_progress
schedule_progress-Keeps m t w h = elim (Option-cases (lookup t.id w.pending)) [
  | inl e ↦
      rw (e, schedule_progress)
        (Keeps-trans (open_entry-Keeps m t w) (rearm_and_flush-Keeps m t.id (open_entry m t w) h))
  | inr (e, found) ↦
      rw (found, schedule_progress)
        (elim (Bool-cases (is_newer_than e.latest t)) [
          | inl newer ↦ rw newer (
              Keeps-trans (Keeps-same w (coalesce t w) refl refl refl)
                (rearm_and_flush-Keeps m t.id (coalesce t w) h))
          | inr stale ↦ rw stale (Keeps-refl w)
        ])
]

drop_sync-Keeps :
    (id : String) (w : Worker) → Keeps w (sync_pending_transfer_count (drop_entry id w))
drop_sync-Keeps id w = Keeps-trans (pending-Keeps w _) (sync-Keeps _)

force_flush-Keeps :
    (m : Moment) (t : TransferTask) (w : Worker) → IsReading m → Keeps w (force_flush m t w)
unfolding force_flush
force_flush-Keeps m t w h = Keeps-trans (drop_sync-Keeps t.id w) (persist_task-Keeps m t force _ h)

schedule_terminal-Keeps :
    (m : Moment) (t : TransferTask) (w : Worker) → IsReading m → Keeps w (schedule_terminal m t w)
unfolding schedule_terminal
schedule_terminal-Keeps m t w h =
    Keeps-trans (drop_sync-Keeps t.id w)
      (Keeps-trans (persist_task-Keeps m t terminal _ h) (pending-Keeps _ _))

handle_command-Keeps :
    (m : Moment) (c : Command) (w : Worker) → IsReading m → Keeps w (handle_command m c w)
unfolding handle_command
handle_command-Keeps m (schedule t) w h = elim (Bool-cases (is_terminal t.status)) [
  | inl done ↦ rw done (Keeps-trans asked (schedule_terminal-Keeps m t (count_request w) h))
  | inr live ↦ rw live (Keeps-trans asked (schedule_progress-Keeps m t (count_request w) h))
]
  where
    asked : Keeps w (count_request w)
    asked = Keeps-same w _ refl refl refl
handle_command-Keeps m (flush_now t) w h = force_flush-Keeps m t w h

round-Keeps : (i : Moment × Input) (w : Worker) → IsReading i.0 → Keeps w (round i w)
unfolding round flush_due_entries
round-Keeps (m, command c) w h = handle_command-Keeps m c w h
round-Keeps (m, timer) w h = flush_ids-Keeps m (due_ids m.instant w.pending) w h

rounds-Keeps :
    (is : List (Moment × Input)) (w : Worker) → All (λ i. IsReading i.0) is → Keeps w (rounds is w)
unfolding rounds
rounds-Keeps [] w h = Keeps-refl w
rounds-Keeps (i ∷ is) w h = Keeps-trans (round-Keeps i w h.0) (rounds-Keeps is (round i w) h.1)

run_worker-Keeps :
    (is : List (Moment × Input)) (closing : Moment) (w : Worker)
    → All (λ i. IsReading i.0) is
    → IsReading closing
    → Keeps w (run_worker is closing w)
unfolding run_worker flush_all_entries
run_worker-Keeps is closing w h hc =
    Keeps-trans (rounds-Keeps is w h) (flush_ids-Keeps closing _ (rounds is w) hc)

-- Over a whole run of the worker, while SQLite answers the queries, no row of the history is ever
-- taken back: its revision does not fall, and at one revision a terminal row stays terminal and
-- its bytes do not fall.
pub run_worker-Supersedes :
    (is : List (Moment × Input)) (closing : Moment) (w : Worker) (key : String)
    → All (λ i. IsReading i.0) is
    → IsReading closing
    → SupersedesAt (lookup key w.table) (lookup key (run_worker is closing w).table)
run_worker-Supersedes is closing w key h hc = (run_worker-Keeps is closing w h hc).rows key

-- After a whole run of a new worker in which SQLite answers every query of a row, at each input and
-- at the close, and with fewer flushes than the largest u64, every flush was counted once, as a
-- success or as a failure.
pub run_worker-writes :
    (is : List (Moment × Input)) (closing : Moment) (table : Table) (period limit : ℕ)
    → All (λ i. IsReading i.0) is
    → IsReading closing
    → let d = (run_worker is closing (with_policy table period limit)).diagnostics in
      flushes d < u64_max → writes d ≡ flushes d
unfolding with_policy
run_worker-writes is closing table period limit h hc =
    (run_worker-Keeps is closing (with_policy table period limit) h hc).balance (λ g. refl)

-- A terminal task, given at a moment at which SQLite answers and writes, leaves no pending entry,
-- and the history then holds a row that is up to date with it.
pub schedule_terminal-written :
    (m : Moment) (t : TransferTask) (w : Worker)
    → is_terminal t.status ≡ true
    → m.access ≡ reading true
    → (lookup t.id (handle_command m (schedule t) w).pending ≡ none)
      × ((r : Row) × (lookup t.id (handle_command m (schedule t) w).table ≡ some r)
          × IsUpToDate t r)
unfolding handle_command schedule_terminal persist_task sync_pending_transfer_count
schedule_terminal-written m t w done ok =
    let s = save_transfer-latest m.unix_secs t w.table in
    rw (done, ok) (lookup-remove_self t.id _, (s.0, s.1, s.2))
