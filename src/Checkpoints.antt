-- ===== src/Checkpoints.antt =====
-- The checkpoints of the consumers of the runtime events: src-tauri/src/state.rs and the table
-- `runtime_event_checkpoints` of src-tauri/src/db.rs. A row is found by its consumer. Whether a
-- query succeeds, and what the journal's statistics are, is the `Sqlite` of a call. The order in
-- which the rows are listed is the one of the table; the source sorts them for display.
pub mod Refresh
pub mod Calls
pub mod Hints
pub mod Pins
pub mod Standing
pub mod Saving
pub mod Served
pub mod Life
mod Tests
mod Counts
use dash_drop.Base.{
  ℕ, String, Bool, true, false, Option, none, some, List, [], ◌∷◌, ◌++◌, ◌+◌, ◌-◌, ◌&&◌, ◌||◌, not,
  ◌==◌, nat_eq, string_eq, ltb, leb, if◌then◌else◌, length, option_map, option_or, unwrap_or,
  is_none, option_bind, ◌>>=◌, option_eq, min, max, saturating_add, Result, ok, err, lookup, insert,
  remove, retain, trim, is_empty_str, is_blank,
}
use dash_drop.Types.Checkpoint.{
  RecoveryHint, up_to_date, hot_window, persisted_catch_up, resync_required, CheckpointTransition,
  created, generation_reset, heartbeat, advanced, rewound, RuntimeEventCheckpoint, checkpoint_beq,
}
use dash_drop.Feed.{
  Feed, record_runtime_event, memory_oldest, persisted_oldest, journal_max_capacity,
}

-- The counters of `RuntimeEventReplayMetrics` that a checkpoint moves.
pub record CheckpointMetrics : Type 0 where
  pub checkpoint_loads : ℕ
  pub checkpoint_saves : ℕ
  pub checkpoint_creates : ℕ
  pub checkpoint_advances : ℕ
  pub checkpoint_heartbeats : ℕ
  pub checkpoint_rewinds : ℕ
  pub checkpoint_generation_resets : ℕ
  pub checkpoint_metadata_refreshes : ℕ
  pub checkpoint_resync_transitions : ℕ
  pub expired_checkpoint_misses : ℕ
  pub pruned_checkpoint_count : ℕ
  pub last_checkpoint_heartbeat_at_unix_ms : Option ℕ
  pub last_checkpoint_transition_at_unix_ms : Option ℕ
  pub last_checkpoint_metadata_refresh_at_unix_ms : Option ℕ
  pub last_checkpoint_prune_at_unix_ms : Option ℕ

-- The two numbers of the statistics that a checkpoint takes.
pub record JournalStats : Type 0 where
  pub compaction_watermark_seq : ℕ
  pub compaction_watermark_segment_id : ℕ

pub record Sqlite : Type 0 where
  pub loads : Bool
  pub saves : String → Bool
  pub deletes : Bool
  pub prunes : Bool
  pub lists : Bool
  pub appends : Bool
  pub stats : Option JournalStats

pub data CheckpointError : Type 0 where
  consumer_id_required generation_required load_failed delete_failed : CheckpointError
  refresh_failed save_failed prune_failed list_failed : CheckpointError

abbrev pub Table : Type 0
Table = List (String × RuntimeEventCheckpoint)

pub record Consumers : Type 0 where
  pub feed : Feed
  pub table : Table
  pub metrics : CheckpointMetrics

abbrev pub active_threshold_ms : ℕ
active_threshold_ms = 300000

abbrev pub stale_threshold_ms : ℕ
stale_threshold_ms = 3600000

abbrev pub checkpoint_ttl_ms : ℕ
checkpoint_ttl_ms = 604800000

unfoldable pub transition_of : Option RuntimeEventCheckpoint → String → ℕ → CheckpointTransition
transition_of none generation seq = created
transition_of (some previous) generation seq =
    if not (previous.generation == generation)
    then generation_reset
    else if previous.seq == seq
    then heartbeat
    else if ltb previous.seq seq
    then advanced
    else rewound

-- `oldest.map(|oldest_seq| seq >= oldest_seq.saturating_sub(1)).unwrap_or(true)`.
abbrev pub reaches : ℕ → Option ℕ → Bool
reaches seq none = true
reaches seq (some oldest) = leb (oldest - 1) seq

unfoldable pub recovery_hint_of : Feed → String → ℕ → RecoveryHint
recovery_hint_of s generation seq =
    if not (generation == s.generation)
    then resync_required
    else if s.seq == 0 || leb s.seq seq
    then up_to_date
    else if reaches seq (memory_oldest s)
    then hot_window
    else if reaches seq (persisted_oldest s)
    then persisted_catch_up
    else resync_required

unfoldable pub enrich :
    Feed → Option JournalStats → Option ℕ → RuntimeEventCheckpoint → RuntimeEventCheckpoint
enrich s stats read c = record c {
  created_at_unix_ms = option_or c.created_at_unix_ms (some c.updated_at_unix_ms);
  last_read_at_unix_ms = option_or read c.last_read_at_unix_ms;
  lease_expires_at_unix_ms = some (saturating_add c.updated_at_unix_ms active_threshold_ms);
  revision = some (max (unwrap_or c.revision 1) 1);
  last_transition = option_or c.last_transition (some created);
  recovery_hint = some (recovery_hint_of s c.generation c.seq);
  current_oldest_available_seq = option_or (persisted_oldest s) (memory_oldest s);
  current_latest_available_seq = some s.seq;
  current_compaction_watermark_seq = option_map (λ t. t.compaction_watermark_seq) stats;
  current_compaction_watermark_segment_id =
      option_map (λ t. t.compaction_watermark_segment_id) stats;
}

abbrev pub is_resync : Option RecoveryHint → Bool
is_resync none = false
is_resync (some up_to_date) = false
is_resync (some hot_window) = false
is_resync (some persisted_catch_up) = false
is_resync (some resync_required) = true

-- A hint that turns to a resync counts.
abbrev pub turned : Option RecoveryHint → Option RecoveryHint → ℕ
turned before after = if not (is_resync before) && is_resync after then 1 else 0

-- `prune_runtime_event_checkpoints_locked`. `removed` is the number of rows that SQLite deleted.
unfoldable pub note_pruned : ℕ → ℕ → CheckpointMetrics → CheckpointMetrics
note_pruned removed now m = if removed == 0 then m else record m {
  pruned_checkpoint_count = saturating_add m.pruned_checkpoint_count removed;
  last_checkpoint_prune_at_unix_ms = some now;
}

unfoldable pub is_fresh : ℕ → RuntimeEventCheckpoint → Bool
is_fresh stale_before c = not (leb c.updated_at_unix_ms stale_before)

unfoldable pub prune_checkpoints : Sqlite → ℕ → Consumers → Consumers × Result ℕ CheckpointError
prune_checkpoints db now k =
    let kept = retain (is_fresh (now - checkpoint_ttl_ms)) k.table in
    let removed = length k.table - length kept in
    if db.prunes
    then (record k { table = kept; metrics = note_pruned removed now k.metrics }, ok removed)
    else (k, err prune_failed)

unfoldable pub note_refreshed : ℕ → ℕ → ℕ → CheckpointMetrics → CheckpointMetrics
note_refreshed refreshed resyncs now m = if refreshed == 0 then m else record m {
  checkpoint_metadata_refreshes = saturating_add m.checkpoint_metadata_refreshes refreshed;
  last_checkpoint_metadata_refresh_at_unix_ms = some now;
  checkpoint_resync_transitions = saturating_add m.checkpoint_resync_transitions resyncs;
}
