-- ===== src/Checkpoints/Refresh.antt =====
-- `refresh_runtime_event_checkpoints_locked` of src-tauri/src/state.rs.
use dash_drop.Base.{
  ℕ, Bool, true, false, Option, List, [], ◌∷◌, ◌++◌, not, nat_eq, string_eq, if◌then◌else◌,
  option_eq, saturating_add, Result, ok, err, insert,
}
use dash_drop.Types.Checkpoint.{RuntimeEventCheckpoint, checkpoint_beq}
use dash_drop.Feed.{Feed}
use dash_drop.Checkpoints.{
  Sqlite, CheckpointError, refresh_failed, list_failed, Table, Consumers, enrich, turned,
  note_refreshed,
}

-- The loop of `refresh_runtime_event_checkpoints_locked`: the table, the two counts, and the rows
-- that are returned.
pub record Refreshing : Type 0 where
  pub rows : Table
  pub refreshed_count : ℕ
  pub resync_transition_count : ℕ
  pub refreshed : List RuntimeEventCheckpoint

unfoldable pub refresh_row :
    Sqlite → Feed → Option ℕ → RuntimeEventCheckpoint → Refreshing → Refreshing × Bool
refresh_row db s read c r =
    let c' = enrich s db.stats read c in
    let counted = record r {
      refreshed_count = saturating_add r.refreshed_count 1;
      resync_transition_count =
          saturating_add r.resync_transition_count (turned c.recovery_hint c'.recovery_hint);
    } in
    if checkpoint_beq c' c
    then (record r { refreshed = r.refreshed ++ c' ∷ [] }, true)
    else if db.saves c.consumer_id
    then (
      record counted { rows = insert c'.consumer_id c' r.rows; refreshed = r.refreshed ++ c' ∷ [] },
      true,
    )
    else (counted, false)

unfoldable pub refresh_rows : Sqlite → Feed → Option ℕ → Table → Refreshing → Refreshing × Bool
refresh_rows db s read [] r = (r, true)
refresh_rows db s read ((key, c) ∷ rest) r =
    let (r', saved) = refresh_row db s read c r in
    let more = refresh_rows db s read rest r' in if saved then more else (r', false)

-- The call ends before its metrics where a row cannot be saved.
unfoldable pub refresh_checkpoints :
    Sqlite
    → Option ℕ
    → ℕ
    → Consumers
    → Consumers × Result (List RuntimeEventCheckpoint) CheckpointError
refresh_checkpoints db read now k =
    let start : Refreshing = record {
      rows = k.table;
      refreshed_count = 0;
      resync_transition_count = 0;
      refreshed = [];
    } in
    let (r, saved) = refresh_rows db k.feed read k.table start in
    let k' = record k { table = r.rows } in
    if not db.lists then (k, err list_failed) else if not saved then (k', err refresh_failed) else (
      record k' {
        metrics = note_refreshed r.refreshed_count r.resync_transition_count now k.metrics;
      },
      ok r.refreshed,
    )
