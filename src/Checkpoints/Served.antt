-- ===== src/Checkpoints/Served.antt =====
-- That an active consumer of the events of state.rs is never told to start afresh.
use dash_drop.Base.{
  NodupKeys, ℕ, String, true, false, none, List, ◌≡◌, ◌≤◌, ◌<◌, ◌+◌, nat_eq, string_eq, length,
  arith, All, take, ok, trim,
}
use dash_drop.Types.Checkpoint.{RuntimeEventCheckpoint}
use dash_drop.Feed.{RuntimeEventEnvelope, journal_max_capacity, cursor_reason, runtime_events_since}
use dash_drop.Feed.Replay.{drop}
use dash_drop.Feed.Oldest.{cursor_reason_iff, cursor_reason-pos}
use dash_drop.Feed.Cursor.{Recorded, Recorded-Holds, served_is}
use dash_drop.Checkpoints.{Consumers, Sqlite}
use dash_drop.Checkpoints.Calls.{save_runtime_event_checkpoint}
use dash_drop.Checkpoints.Standing.{
  Happening, record_events, recorded_after, IsTimely, record_events-Standing, length-recorded_after,
}
use dash_drop.Checkpoints.Saving.{Keyed, save-Standing}

-- A consumer of a feed whose events the journal took saves its cursor, one that the feed serves and
-- that is not 0. Then, whatever events are recorded and whatever the calls of SQLite other than the
-- journal's answer, as long as each event comes before an hour after the save and the last one is at
-- most 100000 after the cursor, a read from the cursor is served: no resync is asked for, and the
-- reply has the next events of all that were recorded, up to a limit that is not 0. The table holds
-- one row for each consumer under its name, and the clock of the save does not stand at 0.
pub record_events-served :
    (db : Sqlite) (t : ℕ) (consumer gen : String) (c limit : ℕ) (es : List Happening)
    (recorded : List RuntimeEventEnvelope) (k : Consumers) (saved : RuntimeEventCheckpoint)
    → Recorded recorded k.feed
    → All Keyed k.table
    → NodupKeys k.table
    → 0 < t
    → 0 < c
    → 0 < limit
    → cursor_reason c k.feed ≡ none
    → k.feed.generation ≡ trim gen
    → (save_runtime_event_checkpoint db t consumer gen c k).1 ≡ ok saved
    → All (IsTimely t) es
    → length recorded + length es ≤ c + journal_max_capacity
    → let k' = (save_runtime_event_checkpoint db t consumer gen c k).0 in
      let reply = runtime_events_since true c limit (record_events es k').feed in
      (reply.resync_required ≡ false)
      × (reply.events ≡ take limit (drop c (recorded_after es recorded k')))
record_events-served db t consumer gen c limit es recorded k saved run keyed single begun pos
      some_limit fine same e timely near =
    let h = Recorded-Holds run in
    let some_event = cursor_reason-pos c k.feed pos fine h.latest in
    let served = (cursor_reason_iff recorded k.feed h some_event c pos).0 fine in
    let k' = (save_runtime_event_checkpoint db t consumer gen c k).0 in
    let st =
      save-Standing db t begun consumer gen c recorded k (h, served.1) some_event served.0 keyed
        single same e in
    let st' =
      record_events-Standing (trim consumer) (trim gen) c t begun es recorded k' timely near st in
    let all = recorded_after es recorded k' in
    let h' = st'.reaches.0 in
    let longer : c ≤ length all = omega (arith, served.0, length-recorded_after es recorded k') in
    let fine' =
      (cursor_reason_iff all (record_events es k').feed h' st'.some_event c pos).1
        (longer, st'.reaches.1) in
    served_is all (record_events es k').feed h' c pos fine' limit some_limit
