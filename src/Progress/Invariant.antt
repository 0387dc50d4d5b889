-- ===== src/Progress/Invariant.antt =====
-- What holds of the worker of persistence_progress.rs between two inputs.
use dash_drop.Base.{
  ℕ, String, Bool, false, List, [], ◌∷◌, ◌≡◌, refl, sym, ◌∙◌, ◌<◌, ◌+◌, is_none, All, All-insert,
  All-remove, All-update, All-lookup, length, length-update, remove_idem, update_fusion, ap,
  string_eq, lookup, remove, update, arith, Option-cases, Bool-cases, inl, inr,
}
use dash_drop.Types.Transfer.{TransferTask, is_terminal}
use dash_drop.Progress.{
  Worker, Moment, PendingTransfer, PersistReason, Input, command, timer, Command, schedule,
  flush_now, interval, threshold, terminal, force, with_policy, sync_pending_transfer_count,
  persist_task, flush_entry, flush_transfer_by_id, flush_ids, due_ids, flush_due_entries, rearmed,
  should_flush, rearm_and_flush, count_request, coalesce, open_entry, schedule_progress, drop_entry,
  schedule_terminal, force_flush, handle_command, round, rounds, flushed, is_newer_than,
  Diagnostics, record_persist_result, count_result, count_reason,
}

-- An entry stands under its task's id, is not terminal, and has a deadline while bytes wait.
abbrev pub Healthy : String × PendingTransfer → Type 0
Healthy p =
    (p.1.latest.id ≡ p.0)
    × (is_terminal p.1.latest.status ≡ false)
    × (p.1.last_persisted_bytes < p.1.latest.bytes_transferred → is_none p.1.deadline ≡ false)

pub record WorkerInv (w : Worker) : Type 0 where
  pub counted : w.diagnostics.pending_transfer_count ≡ length w.pending
  pub healthy : All Healthy w.pending

with_policy-Inv : (period limit : ℕ) → WorkerInv (with_policy [] period limit)
unfolding with_policy
with_policy-Inv period limit = record { counted = refl; healthy = tt }

sync-Inv : (w : Worker) → All Healthy w.pending → WorkerInv (sync_pending_transfer_count w)
unfolding sync_pending_transfer_count
sync-Inv w h = record { counted = refl; healthy = h }

-- A write changes the table and the counts of writes only.
count-record :
    (result : Bool) (reason : PersistReason) (now : ℕ) (d : Diagnostics)
    → (record_persist_result result reason now d).pending_transfer_count ≡ d.pending_transfer_count
unfolding record_persist_result count_result count_reason
count-record result reason now d = ground arith

persist_task-Inv :
    (m : Moment) (t : TransferTask) (reason : PersistReason) (w : Worker)
    → WorkerInv w
    → WorkerInv (persist_task m t reason w)
unfolding persist_task
persist_task-Inv m t reason w v = record {
  counted = count-record _ reason m.unix_ms w.diagnostics ∙ v.counted;
  healthy = v.healthy;
}

flush_entry-Inv :
    (m : Moment) (id : String) (reason : PersistReason) (e : PendingTransfer) (w : Worker)
    → WorkerInv w
    → e.latest.id ≡ id
    → WorkerInv (flush_entry m id reason e w)
unfolding flush_entry persist_task
flush_entry-Inv m id reason e w v same = elim (Bool-cases (is_terminal e.latest.status)) [
  | inl done ↦ rw done (sync-Inv _ (All-remove Healthy id w.pending v.healthy))
  | inr live ↦ rw live (
      sync-Inv _ (
        All-insert Healthy id (flushed e) (remove id w.pending)
          (All-remove Healthy id w.pending v.healthy) (same, live, (λ h. absurd (omega arith)))))
]

flush_transfer_by_id-Inv :
    (m : Moment) (id : String) (reason : PersistReason) (w : Worker)
    → WorkerInv w
    → WorkerInv (flush_transfer_by_id m id reason w)
unfolding flush_transfer_by_id
flush_transfer_by_id-Inv m id reason w v = elim (Option-cases (lookup id w.pending)) [
  | inl e ↦ rw (e, flush_transfer_by_id) v
  | inr (e, found) ↦
      rw (found, flush_transfer_by_id)
        (flush_entry-Inv m id reason e w v (All-lookup Healthy id e w.pending v.healthy found).0)
]

flush_ids-Inv :
    (m : Moment) (ids : List String) (w : Worker) → WorkerInv w → WorkerInv (flush_ids m ids w)
unfolding flush_ids
flush_ids-Inv m [] w v = v
flush_ids-Inv m (id ∷ ids) w v =
    flush_ids-Inv m ids (flush_transfer_by_id m id interval w)
      (flush_transfer_by_id-Inv m id interval w v)

rearmed-Healthy :
    (k : String) (deadline : ℕ) (e : PendingTransfer)
    → Healthy (k, e)
    → Healthy (k, rearmed deadline e)
rearmed-Healthy k deadline e h = ground arith

abbrev rearm : Moment → String → Worker → Worker
rearm m id w = record w { pending = update id (rearmed (m.instant + w.flush_interval)) w.pending }

rearm_and_flush-Inv :
    (m : Moment) (id : String) (w : Worker)
    → WorkerInv (rearm m id w)
    → WorkerInv (rearm_and_flush m id w)
unfolding rearm_and_flush
rearm_and_flush-Inv m id w v =
    elim (Bool-cases (should_flush w.flush_threshold_bytes (lookup id (rearm m id w).pending))) [
      | inl full ↦ rw full (flush_transfer_by_id-Inv m id threshold (rearm m id w) v)
      | inr rest ↦ rw rest v
    ]

rearm-Inv : (m : Moment) (id : String) (w : Worker) → WorkerInv w → WorkerInv (rearm m id w)
rearm-Inv m id w v = record {
  counted = v.counted ∙ sym (length-update id (rearmed (m.instant + w.flush_interval)) w.pending);
  healthy =
      All-update Healthy id (rearmed (m.instant + w.flush_interval)) w.pending
        (rearmed-Healthy id (m.instant + w.flush_interval)) v.healthy;
}

replaced-Healthy :
    (t : TransferTask) (deadline : ℕ) (e : PendingTransfer)
    → is_terminal t.status ≡ false
    → Healthy (t.id, e)
    → Healthy (t.id, rearmed deadline (record e { latest = t }))
replaced-Healthy t deadline e live h = ground arith

-- A coalesced task may leave bytes without a deadline; the next step sets it.
coalesce-Inv :
    (m : Moment) (t : TransferTask) (w : Worker)
    → is_terminal t.status ≡ false
    → WorkerInv w
    → WorkerInv (rearm m t.id (coalesce t w))
coalesce-Inv m t w live v = record {
  counted = v.counted ∙ sym (length-update t.id _ _ ∙ length-update t.id _ w.pending);
  healthy = rw update_fusion (
      All-update Healthy t.id _ w.pending
        (λ e. replaced-Healthy t (m.instant + w.flush_interval) e live) v.healthy);
}

open_entry-Inv :
    (m : Moment) (t : TransferTask) (w : Worker)
    → is_terminal t.status ≡ false
    → WorkerInv w
    → WorkerInv (open_entry m t w)
unfolding open_entry
open_entry-Inv m t w live v =
    sync-Inv _ (All-insert Healthy t.id _ w.pending v.healthy (refl, live, (λ h. refl)))

schedule_progress-Inv :
    (m : Moment) (t : TransferTask) (w : Worker)
    → is_terminal t.status ≡ false
    → WorkerInv w
    → WorkerInv (schedule_progress m t w)
unfolding schedule_progress
schedule_progress-Inv m t w live v = elim (Option-cases (lookup t.id w.pending)) [
  | inl e ↦
      rw (e, schedule_progress)
        (rearm_and_flush-Inv m t.id (open_entry m t w)
          (rearm-Inv m t.id (open_entry m t w) (open_entry-Inv m t w live v)))
  | inr (e, found) ↦
      rw (found, schedule_progress)
        (elim (Bool-cases (is_newer_than e.latest t)) [
          | inl newer ↦
              rw newer (rearm_and_flush-Inv m t.id (coalesce t w) (coalesce-Inv m t w live v))
          | inr stale ↦ rw stale v
        ])
]

drop_sync-Inv :
    (id : String) (w : Worker)
    → WorkerInv w
    → WorkerInv (sync_pending_transfer_count (drop_entry id w))
drop_sync-Inv id w v = sync-Inv _ (All-remove Healthy id w.pending v.healthy)

force_flush-Inv :
    (m : Moment) (t : TransferTask) (w : Worker) → WorkerInv w → WorkerInv (force_flush m t w)
unfolding force_flush
force_flush-Inv m t w v = persist_task-Inv m t force _ (drop_sync-Inv t.id w v)

schedule_terminal-Inv :
    (m : Moment) (t : TransferTask) (w : Worker) → WorkerInv w → WorkerInv (schedule_terminal m t w)
unfolding schedule_terminal persist_task sync_pending_transfer_count
schedule_terminal-Inv m t w v = record {
  counted = count-record _ terminal m.unix_ms _ ∙ ap length (sym (remove_idem t.id w.pending));
  healthy = All-remove Healthy t.id _ (All-remove Healthy t.id w.pending v.healthy);
}

handle_command-Inv :
    (m : Moment) (c : Command) (w : Worker) → WorkerInv w → WorkerInv (handle_command m c w)
unfolding handle_command
handle_command-Inv m (schedule t) w v = elim (Bool-cases (is_terminal t.status)) [
  | inl done ↦ rw done (schedule_terminal-Inv m t (count_request w) v')
  | inr live ↦ rw live (schedule_progress-Inv m t (count_request w) live v')
]
  where
    v' : WorkerInv (count_request w)
    v' = record { counted = v.counted; healthy = v.healthy }
handle_command-Inv m (flush_now t) w v = force_flush-Inv m t w v

-- One input, of either kind, keeps the count of pending transfers right, every entry under its
-- own id, free of terminal tasks, and with a deadline while it holds bytes that were not written.
pub round-Inv : (i : Moment × Input) (w : Worker) → WorkerInv w → WorkerInv (round i w)
unfolding round flush_due_entries
round-Inv (m, command c) w v = handle_command-Inv m c w v
round-Inv (m, timer) w v = flush_ids-Inv m (due_ids m.instant w.pending) w v

pub rounds-Inv : (is : List (Moment × Input)) (w : Worker) → WorkerInv w → WorkerInv (rounds is w)
unfolding rounds
rounds-Inv [] w v = v
rounds-Inv (i ∷ is) w v = rounds-Inv is (round i w) (round-Inv i w v)

-- After any commands and timers, whatever SQLite answers, a worker that started with nothing pending
-- and an empty table counts the pending transfers right, and each pending entry stands under the id
-- of its task, holds a task that has not ended, and has a deadline while it holds bytes that were
-- not written.
pub rounds-with_policy-Inv :
    (is : List (Moment × Input)) (period limit : ℕ)
    → WorkerInv (rounds is (with_policy [] period limit))
rounds-with_policy-Inv is period limit = rounds-Inv is _ (with_policy-Inv period limit)
