-- ===== src/Progress/Stale.antt =====
-- An update of persistence_progress.rs that gets no deadline.
use dash_drop.Base.{
  false, true, none, some, ◌≡◌, ◌<◌, ◌+◌, ◌∙◌, arith, string_eq, lookup, lookup-update, beq_refl,
  update, refl,
}
use dash_drop.Types.Transfer.{TransferTask, is_terminal}
use dash_drop.Progress.{
  Worker, Moment, PendingTransfer, schedule, is_newer_than, rearmed, should_flush, rearm_and_flush,
  coalesce, schedule_progress, handle_command,
}

newer-than : (a b : TransferTask) → a.revision < b.revision → is_newer_than a b ≡ true
unfolding is_newer_than
newer-than a b h = ground arith

lookup-update_self :
    (t : TransferTask) (f : PendingTransfer → PendingTransfer) (e : PendingTransfer) (w : Worker)
    → lookup t.id w.pending ≡ some e
    → lookup t.id (update t.id f w.pending) ≡ some (f e)
lookup-update_self t f e w found =
    rw (lookup-update t.id t.id f w.pending, beq_refl t.id, found) refl

module _ (m : Moment) (t : TransferTask) (w : Worker) (e : PendingTransfer) where
  -- The entry after the task was coalesced and its deadline looked at.
  settled :
      lookup t.id w.pending ≡ some e
      → e.last_persisted_bytes ≡ t.bytes_transferred
      → lookup t.id (update t.id (rearmed (m.instant + w.flush_interval)) (coalesce t w).pending)
        ≡ some (record e { latest = t })
  settled found bytes =
      lookup-update_self t (rearmed (m.instant + w.flush_interval)) (record e { latest = t })
        (coalesce t w) (lookup-update_self t (λ x. record x { latest = t }) e w found)
      ∙ ground arith

  unfilled :
      e.last_persisted_bytes ≡ t.bytes_transferred
      → 0 < w.flush_threshold_bytes
      → should_flush w.flush_threshold_bytes (some (record e { latest = t })) ≡ false
  unfolding should_flush
  unfilled bytes limit = ground arith

  -- An update with a later revision and no new bytes, after the entry was flushed: it replaces the
  -- pending task, sets no deadline and writes nothing, so no timer will write it.
  pub schedule_no_bytes :
      is_terminal t.status ≡ false
      → lookup t.id w.pending ≡ some e
      → e.deadline ≡ none
      → e.latest.revision < t.revision
      → e.last_persisted_bytes ≡ t.bytes_transferred
      → 0 < w.flush_threshold_bytes
      → (lookup t.id (handle_command m (schedule t) w).pending ≡ some (record e { latest = t }))
        × ((handle_command m (schedule t) w).table ≡ w.table)
  unfolding handle_command schedule_progress rearm_and_flush
  schedule_no_bytes live found unarmed newer bytes limit = rw live (
      rw (found, schedule_progress)
        (rw (newer-than e.latest t newer)
          (rw (settled found bytes) (rw (unfilled bytes limit) (settled found bytes, refl)))))
