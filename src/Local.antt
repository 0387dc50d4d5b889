-- ===== src/Local.antt =====
-- What both ends of a transfer keep: the disk, the tasks of `AppState::transfers`, the snapshots
-- given to the worker of persistence_progress.rs and the progress events, the latest first.
use dash_drop.Base.{
  ℕ, String, none, some, List, ◌∷◌, lookup, update, wrapping_add, string_eq, ◌≡◌, refl,
  Option-cases, inl, inr,
}
use dash_drop.Types.Transfer.{TransferTask}
use dash_drop.Progress.{progress_snapshot}
use dash_drop.Files.{Disk}

pub record ProgressEvent : Type 0 where
  pub transfer_id : String
  pub bytes_transferred : ℕ
  pub total_bytes : ℕ
  pub revision : ℕ

pub record Local : Type 0 where
  pub disk : Disk
  pub transfers : List (String × TransferTask)
  pub scheduled : List TransferTask
  pub progress : List ProgressEvent

abbrev pub more_bytes : ℕ → TransferTask → TransferTask
more_bytes n t = record t { bytes_transferred = wrapping_add t.bytes_transferred n }

-- `t.bytes_transferred += n`, the snapshot for the worker and the event.
unfoldable pub add_progress : String → ℕ → Local → Local
add_progress id n l = elim (lookup id l.transfers) [
  | none ↦ l
  | some t ↦
      let t' = more_bytes n t in
      record l {
        transfers = update id (more_bytes n) l.transfers;
        scheduled = progress_snapshot t' ∷ l.scheduled;
        progress =
            record {
              transfer_id = id;
              bytes_transferred = t'.bytes_transferred;
              total_bytes = t'.total_bytes;
              revision = t'.revision;
            }
            ∷ l.progress;
      }
]

pub add_progress-disk : (id : String) (n : ℕ) (l : Local) → (add_progress id n l).disk ≡ l.disk
unfolding add_progress
add_progress-disk id n l = elim (Option-cases (lookup id l.transfers)) [
  | inl e ↦ rw (e, add_progress) refl
  | inr (t, e) ↦ rw (e, add_progress) refl
]
