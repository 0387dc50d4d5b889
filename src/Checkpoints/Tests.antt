-- ===== src/Checkpoints/Tests.antt =====
-- A consumer of a feed with one event.
use dash_drop.Base.{
  ℕ, true, false, none, some, List, [], ◌∷◌, ◌≡◌, ◌≢◌, ◌↔◌, refl, arith, take, min, trim,
  trim_start, trim_end, lookup, ok, saturating_add, leb, if◌then◌else◌, unwrap_or, option_bind,
  string_eq,
}
use dash_drop.Types.Checkpoint.{
  RuntimeEventCheckpoint, resync_required, persisted_catch_up, up_to_date,
}
use dash_drop.Feed.{
  RuntimeEventEnvelope, Feed, push_event, record_runtime_event, runtime_events_since,
  append_runtime_event, min_seq, segment_of, retained_from_seq, cursor_reason,
  needs_persisted_catch_up,
}
use dash_drop.Feed.Replay.{drop, next_event}
use dash_drop.Feed.Cursor.{new_feed, Recorded}
use dash_drop.Checkpoints.{
  CheckpointMetrics, Sqlite, Consumers, recovery_hint_of, enrich, checkpoint_ttl_ms,
  prune_checkpoints, transition_of,
}
use dash_drop.Checkpoints.Calls.{
  runtime_event_checkpoint, save_runtime_event_checkpoint, saved_row, write_row,
}
use dash_drop.Checkpoints.Hints.{recovery_hint-cursor_reason}
use dash_drop.Checkpoints.Standing.{Happening, record_events, recorded_after}
use dash_drop.Checkpoints.Served.{record_events-served}
use dash_drop.Checkpoints.Counts.{Call, run_calls, Balanced, run_calls-Balanced}
use dash_drop.Checkpoints.Life.{save-load}

abbrev one : Feed
one = record_runtime_event true 10 none "transfer_started" "{}" (new_feed "g")

abbrev nothing : List RuntimeEventEnvelope
nothing = []

abbrev history : List RuntimeEventEnvelope
history = push_event (next_event 10 "transfer_started" "{}" (new_feed "g")) nothing

abbrev is_recorded : Recorded history one
is_recorded = Recorded.one_more (Recorded.at_start "g") 10 none "transfer_started" "{}"

abbrev no_metrics : CheckpointMetrics
no_metrics = record {
  checkpoint_loads = 0;
  checkpoint_saves = 0;
  checkpoint_creates = 0;
  checkpoint_advances = 0;
  checkpoint_heartbeats = 0;
  checkpoint_rewinds = 0;
  checkpoint_generation_resets = 0;
  checkpoint_metadata_refreshes = 0;
  checkpoint_resync_transitions = 0;
  expired_checkpoint_misses = 0;
  pruned_checkpoint_count = 0;
  last_checkpoint_heartbeat_at_unix_ms = none;
  last_checkpoint_transition_at_unix_ms = none;
  last_checkpoint_metadata_refresh_at_unix_ms = none;
  last_checkpoint_prune_at_unix_ms = none;
}

abbrev answers : Sqlite
answers = record {
  loads = true;
  saves = λ id. true;
  deletes = true;
  prunes = true;
  lists = true;
  appends = true;
  stats = none;
}

abbrev at_start : Consumers
at_start = record { feed = one; table = []; metrics = no_metrics }

recovery_hint-cursor_reason_example :
    ((recovery_hint_of one "g" 1 ≡ resync_required) ↔ (cursor_reason 1 one ≢ none))
    × ((recovery_hint_of one "g" 1 ≡ persisted_catch_up) ↔ (needs_persisted_catch_up 1 one ≡ true))
unfolding record_runtime_event
recovery_hint-cursor_reason_example =
    recovery_hint-cursor_reason history one 1 is_recorded (omega arith) (omega arith)

-- The row that the save of the cursor 1 returns.
abbrev first_save : RuntimeEventCheckpoint
first_save = record {
  consumer_id = "ui";
  generation = "g";
  seq = 1;
  updated_at_unix_ms = 50;
  created_at_unix_ms = some 50;
  last_read_at_unix_ms = none;
  lease_expires_at_unix_ms = some 300050;
  revision = some 1;
  last_transition = some (transition_of none "g" 1);
  recovery_hint = some up_to_date;
  current_oldest_available_seq = some 1;
  current_latest_available_seq = some 1;
  current_compaction_watermark_seq = none;
  current_compaction_watermark_segment_id = none;
}

abbrev two_more : List Happening
two_more =
    record { answers = answers; at = 60; event = "transfer_complete"; payload = "{}" }
    ∷ record { answers = answers; at = 70; event = "devices_changed"; payload = "{}" }
    ∷ []

first_save_lem : (save_runtime_event_checkpoint answers 50 " ui " "g" 1 at_start).1 ≡ ok first_save
unfolding save_runtime_event_checkpoint trim trim_start trim_end write_row saved_row enrich
    prune_checkpoints record_runtime_event append_runtime_event min_seq segment_of retained_from_seq
    recovery_hint_of lookup
first_save_lem = refl

record_events-served_example :
    let k' = (save_runtime_event_checkpoint answers 50 " ui " "g" 1 at_start).0 in
    let reply = runtime_events_since true 1 10 (record_events two_more k').feed in
    (reply.resync_required ≡ false)
    × (reply.events ≡ take 10 (drop 1 (recorded_after two_more history k')))
unfolding trim trim_start trim_end cursor_reason record_runtime_event append_runtime_event min_seq
    segment_of retained_from_seq
record_events-served_example =
    record_events-served answers 50 " ui " "g" 1 10 two_more history at_start first_save is_recorded
      tt tt (omega arith) (omega arith) (omega arith) refl refl first_save_lem
      ((refl, omega arith), ((refl, omega arith), tt)) (omega arith)

abbrev calls : List (Sqlite × ℕ × Call)
calls =
    (answers, 50, Call.save "ui" "g" 1)
    ∷ (answers, 60, Call.save "ui" "g" 1)
    ∷ (answers, 70, Call.load "ui")
    ∷ []

run_calls-Balanced_example : Balanced (run_calls calls at_start).metrics
run_calls-Balanced_example = run_calls-Balanced calls at_start (λ below. refl)

save-load_example :
    let k' = (save_runtime_event_checkpoint answers 50 " ui " "g" 1 at_start).0 in
    ((runtime_event_checkpoint answers 604800050 " ui " k').1 ≡ (
      if leb (saturating_add 50 checkpoint_ttl_ms) 604800050
      then ok none
      else ok (some (enrich one none (some 604800050) first_save))))
    × (first_save.generation ≡ trim "g")
    × (first_save.seq ≡ min 1 one.seq)
    × (first_save.revision
        ≡ some (
            saturating_add
              (unwrap_or (option_bind (lookup (trim " ui ") at_start.table) (λ p. p.revision)) 0)
              1))
save-load_example =
    save-load answers answers 50 604800050 " ui " "g" 1 at_start first_save (omega arith)
      first_save_lem refl refl refl

-- Where the journal has never taken an event, the hint still points to it, and a read is refused.
abbrev lost : Feed
lost = record {
  generation = "g";
  seq = 1030;
  feed = record { seq = 7; event = "devices_changed"; payload = "{}"; emitted_at_unix_ms = 1 } ∷ [];
  journal = [];
  persisted_oldest_seq = 0;
}

lost_hint : recovery_hint_of lost "g" 2 ≡ persisted_catch_up
unfolding recovery_hint_of
lost_hint = refl

lost_read : cursor_reason 2 lost ≡ some "cursor_before_oldest_available"
unfolding cursor_reason
lost_read = refl
