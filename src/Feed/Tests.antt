-- ===== src/Feed/Tests.antt =====
-- A feed with two events.
use dash_drop.Base.{true, none, List, [], ◌≡◌, refl, take, arith}
use dash_drop.Feed.{
  RuntimeEventEnvelope, Feed, push_event, record_runtime_event, runtime_events_since,
  append_runtime_event, min_seq, segment_of, retained_from_seq, cursor_reason,
  needs_persisted_catch_up, fetch_events, resync_reason_of,
}
use dash_drop.Feed.Replay.{drop, next_event}
use dash_drop.Feed.Cursor.{new_feed, Recorded, runtime_events_since-replay}

abbrev empty_feed : Feed
empty_feed = new_feed "g"

abbrev one : Feed
one = record_runtime_event true 10 none "transfer_started" "{}" empty_feed

abbrev two : Feed
two = record_runtime_event true 20 none "transfer_complete" "{}" one

abbrev nothing : List RuntimeEventEnvelope
nothing = []

abbrev history : List RuntimeEventEnvelope
history =
    push_event (next_event 20 "transfer_complete" "{}" one)
      (push_event (next_event 10 "transfer_started" "{}" empty_feed) nothing)

runtime_events_since-replay_example :
    (runtime_events_since true 1 10 two).events ≡ take 10 (drop 1 history)
unfolding record_runtime_event runtime_events_since append_runtime_event min_seq segment_of
    retained_from_seq cursor_reason needs_persisted_catch_up fetch_events resync_reason_of
runtime_events_since-replay_example =
    runtime_events_since-replay history two true 1 10
      (Recorded.one_more (Recorded.one_more (Recorded.at_start "g") 10 none "transfer_started" "{}")
        20 none "transfer_complete" "{}")
      (omega arith) refl
