-- ===== src/Checkpoints/Calls.antt =====
-- The calls of src-tauri/src/state.rs on checkpoints, and the event that is recorded while they pin
-- the journal of src-tauri/src/db.rs.
use dash_drop.Base.{
  ℕ, String, Bool, false, Option, none, some, List, [], ◌∷◌, ◌+◌, ◌-◌, ◌&&◌, not, ◌==◌, nat_eq,
  string_eq, ltb, leb, if◌then◌else◌, option_or, unwrap_or, option_bind, ◌>>=◌, option_eq, min, max,
  saturating_add, Result, ok, err, lookup, insert, remove, trim, is_empty_str,
}
use dash_drop.Types.Checkpoint.{
  RecoveryHint, CheckpointTransition, created, generation_reset, heartbeat, advanced, rewound,
  RuntimeEventCheckpoint, checkpoint_beq,
}
use dash_drop.Feed.{Feed, record_runtime_event, journal_max_capacity}
use dash_drop.Checkpoints.{
  CheckpointMetrics, Sqlite, CheckpointError, consumer_id_required, generation_required,
  load_failed, delete_failed, refresh_failed, save_failed, Table, Consumers, active_threshold_ms,
  stale_threshold_ms, checkpoint_ttl_ms, transition_of, enrich, is_resync, turned,
  prune_checkpoints, note_refreshed,
}
use dash_drop.Checkpoints.Refresh.{refresh_checkpoints}

abbrev pub note_load : CheckpointMetrics → CheckpointMetrics
note_load m = record m { checkpoint_loads = saturating_add m.checkpoint_loads 1 }

abbrev pub note_expired : ℕ → CheckpointMetrics → CheckpointMetrics
note_expired now m = record m {
  expired_checkpoint_misses = saturating_add m.expired_checkpoint_misses 1;
  pruned_checkpoint_count = saturating_add m.pruned_checkpoint_count 1;
  last_checkpoint_prune_at_unix_ms = some now;
}

unfoldable pub is_expired : ℕ → RuntimeEventCheckpoint → Bool
is_expired now c = leb (saturating_add c.updated_at_unix_ms checkpoint_ttl_ms) now

-- What is done with the row that was found.
unfoldable pub read_row :
    Sqlite
    → ℕ
    → String
    → Option RuntimeEventCheckpoint
    → Consumers
    → Consumers × Result (Option RuntimeEventCheckpoint) CheckpointError
read_row db now id none k = (k, ok none)
read_row db now id (some c) k =
    let c' = enrich k.feed db.stats (some now) c in
    if is_expired now c
    then if db.deletes
      then (record k { table = remove id k.table; metrics = note_expired now k.metrics }, ok none)
      else (k, err delete_failed)
    else if checkpoint_beq c' c
    then (k, ok (some c'))
    else if db.saves c'.consumer_id
    then (
      record k {
        table = insert c'.consumer_id c' k.table;
        metrics = note_refreshed 1 (turned c.recovery_hint c'.recovery_hint) now k.metrics;
      },
      ok (some c'),
    )
    else (k, err refresh_failed)

unfoldable pub runtime_event_checkpoint :
    Sqlite
    → ℕ
    → String
    → Consumers
    → Consumers × Result (Option RuntimeEventCheckpoint) CheckpointError
runtime_event_checkpoint db now consumer k =
    let id = trim consumer in
    let k' = record k { metrics = note_load k.metrics } in
    if is_empty_str id
    then (k, err consumer_id_required)
    else if db.loads
    then read_row db now id (lookup id k'.table) k'
    else (k', err load_failed)

-- The row that a save writes, before it is enriched.
unfoldable pub saved_row :
    Feed → ℕ → String → String → ℕ → Option RuntimeEventCheckpoint → RuntimeEventCheckpoint
saved_row s now id generation seq previous = record {
  consumer_id = id;
  generation = generation;
  seq = min seq s.seq;
  updated_at_unix_ms = now;
  created_at_unix_ms = option_or (option_bind previous (λ p. p.created_at_unix_ms)) (some now);
  last_read_at_unix_ms = option_bind previous (λ p. p.last_read_at_unix_ms);
  lease_expires_at_unix_ms = some (saturating_add now active_threshold_ms);
  revision = some (saturating_add (unwrap_or (option_bind previous (λ p. p.revision)) 0) 1);
  last_transition = some (transition_of previous generation (min seq s.seq));
  recovery_hint = none;
  current_oldest_available_seq = none;
  current_latest_available_seq = none;
  current_compaction_watermark_seq = none;
  current_compaction_watermark_segment_id = none;
}

unfoldable pub count_transition : CheckpointTransition → CheckpointMetrics → CheckpointMetrics
count_transition created m = record m { checkpoint_creates = saturating_add m.checkpoint_creates 1 }
count_transition advanced m = record m {
  checkpoint_advances = saturating_add m.checkpoint_advances 1;
}
count_transition rewound m = record m { checkpoint_rewinds = saturating_add m.checkpoint_rewinds 1 }
count_transition generation_reset m = record m {
  checkpoint_generation_resets = saturating_add m.checkpoint_generation_resets 1;
}
count_transition heartbeat m = m

-- `update_runtime_event_checkpoint_transition_metrics`.
unfoldable pub note_transition :
    CheckpointTransition
    → ℕ
    → Option RecoveryHint
    → Option RecoveryHint
    → CheckpointMetrics
    → CheckpointMetrics
note_transition transition now before after m =
    let m' = count_transition transition m in
    record m' {
      last_checkpoint_transition_at_unix_ms = some now;
      checkpoint_resync_transitions =
          saturating_add m.checkpoint_resync_transitions (turned before after);
    }

abbrev pub is_same_place : Option RuntimeEventCheckpoint → RuntimeEventCheckpoint → Bool
is_same_place none c = false
is_same_place (some p) c = p.generation == c.generation && p.seq == c.seq

unfoldable pub note_save :
    Option RuntimeEventCheckpoint → RuntimeEventCheckpoint → CheckpointMetrics → CheckpointMetrics
note_save previous c m =
    let m' = record m { checkpoint_saves = saturating_add m.checkpoint_saves 1 } in
    if is_same_place previous c
    then record m' {
      checkpoint_heartbeats = saturating_add m.checkpoint_heartbeats 1;
      last_checkpoint_heartbeat_at_unix_ms = some c.updated_at_unix_ms;
    }
    else m'

abbrev pub hint_before : Option RuntimeEventCheckpoint → Option RecoveryHint
hint_before previous = option_bind previous (λ p. p.recovery_hint)

-- The write, its metrics and the pruning that follows.
unfoldable pub write_row :
    Sqlite
    → Option RuntimeEventCheckpoint
    → RuntimeEventCheckpoint
    → Consumers
    → Consumers × Result RuntimeEventCheckpoint CheckpointError
write_row db previous c k =
    let counted = note_save previous c (
      note_transition (unwrap_or c.last_transition heartbeat) c.updated_at_unix_ms
        (hint_before previous) c.recovery_hint k.metrics) in
    let (k', pruned) =
      prune_checkpoints db c.updated_at_unix_ms
        (record k { table = insert c.consumer_id c k.table; metrics = counted }) in
    if db.saves c.consumer_id then (k', (pruned >>= λ _. ok c)) else (k, err save_failed)

unfoldable pub save_runtime_event_checkpoint :
    Sqlite
    → ℕ
    → String
    → String
    → ℕ
    → Consumers
    → Consumers × Result RuntimeEventCheckpoint CheckpointError
save_runtime_event_checkpoint db now consumer gen seq k =
    let id = trim consumer in
    let generation = trim gen in
    let previous = lookup id k.table in
    let c = enrich k.feed db.stats none (saved_row k.feed now id generation seq previous) in
    if is_empty_str id
    then (k, err consumer_id_required)
    else if is_empty_str generation
    then (k, err generation_required)
    else if db.loads
    then write_row db previous c k
    else (k, err load_failed)

unfoldable pub runtime_event_checkpoints :
    Sqlite → ℕ → Consumers → Consumers × Result (List RuntimeEventCheckpoint) CheckpointError
runtime_event_checkpoints db now k =
    let (k', pruned) = prune_checkpoints db now k in
    let refreshed = refresh_checkpoints db none now k' in
    elim pruned [ ok n ↦ refreshed | err why ↦ (k', err why) ]

-- The rows that pin the journal, and the least of their numbers: a query of
-- `append_runtime_event`.
unfoldable pub is_pin : String → ℕ → ℕ → RuntimeEventCheckpoint → Bool
is_pin generation active_after least c =
    c.generation == generation
    && ltb active_after c.updated_at_unix_ms
    && leb least c.seq
    && not (is_resync c.recovery_hint)

abbrev pub least_with : ℕ → Option ℕ → ℕ
least_with seq none = seq
least_with seq (some m) = min seq m

unfoldable pub oldest_pinned : String → ℕ → ℕ → Table → Option ℕ
oldest_pinned generation active_after least [] = none
oldest_pinned generation active_after least ((key, c) ∷ rows) =
    let rest = oldest_pinned generation active_after least rows in
    if is_pin generation active_after least c then some (least_with c.seq rest) else rest

-- The pin of the next event.
unfoldable pub pin_at : ℕ → Feed → Table → Option ℕ
pin_at now s table =
    oldest_pinned s.generation (now - stale_threshold_ms)
      (max (s.seq + 1 - (journal_max_capacity - 1)) 1 - 1) table

-- `record_runtime_event` with the checkpoints: old rows are pruned, the rest pin the journal, and
-- where the journal has a new oldest event they are refreshed. Errors are logged.
unfoldable pub record_event : Sqlite → ℕ → String → String → Consumers → Consumers
record_event db now event payload k =
    let k1 = (prune_checkpoints db now k).0 in
    let s = record_runtime_event db.appends now (pin_at now k.feed k1.table) event payload k.feed in
    let k2 = record k1 { feed = s } in
    if s.persisted_oldest_seq == k.feed.persisted_oldest_seq
    then k2
    else (refresh_checkpoints db none now k2).0
