-- ===== src/Feed.antt =====
-- The feed of runtime events: `record_runtime_event` and `runtime_events_since` of
-- src-tauri/src/state.rs with the journal of src-tauri/src/db.rs. The rows of the journal stand in the
-- order of their numbers. A payload is a text. The number of the oldest checkpoint that pins the
-- journal, the query of `append_runtime_event`, is an argument, and so is whether SQLite answers.
-- The counters of `RuntimeEventReplayMetrics`, which nothing here reads, are left out.

pub mod Replay
pub mod Oldest
pub mod Cursor
mod Tests
use dash_drop.Base.{
  ℕ, zero, suc, String, Bool, true, false, Option, none, some, List, [], ◌∷◌, ◌++◌, ◌+◌, ◌-◌, ◌*◌,
  ◌/◌, ◌&&◌, ◌||◌, not, ◌==◌, nat_eq, ltb, leb, if◌then◌else◌, length, take, first, filter,
  is_empty, option_map, option_or, unwrap_or, is_none, min, max, saturating_add,
}

pub record RuntimeEventEnvelope : Type 0 where
  pub seq : ℕ
  pub event : String
  pub payload : String
  pub emitted_at_unix_ms : ℕ

-- `runtime_event_seq`, the events in memory, the journal, and the number of its oldest event, 0 for
-- none.
pub record Feed : Type 0 where
  pub generation : String
  pub seq : ℕ
  pub feed : List RuntimeEventEnvelope
  pub journal : List RuntimeEventEnvelope
  pub persisted_oldest_seq : ℕ

abbrev pub feed_capacity : ℕ
feed_capacity = 1024

abbrev pub journal_capacity : ℕ
journal_capacity = 10000

abbrev pub journal_max_capacity : ℕ
journal_max_capacity = 100000

unfoldable pub segment_of : ℕ → ℕ
segment_of seq = (seq - 1) / 1000 + 1

-- The first number that the journal keeps, from the newest and the oldest pinned checkpoint.
unfoldable pub retained_from_seq : ℕ → Option ℕ → ℕ
retained_from_seq seq pin =
    let baseline = max (seq - (journal_capacity - 1)) 1 in
    let max_retained = max (seq - (journal_max_capacity - 1)) 1 in
    let protected = unwrap_or (option_map (λ p. max (saturating_add p 1) 1) pin) baseline in
    max max_retained (min baseline protected)

abbrev pub is_in_segments : ℕ → RuntimeEventEnvelope → Bool
is_in_segments segment e = leb segment (segment_of e.seq)

-- `INSERT OR REPLACE`, and the deletion of the segments before the one that is retained.
unfoldable pub append_runtime_event :
    RuntimeEventEnvelope → Option ℕ → List RuntimeEventEnvelope → List RuntimeEventEnvelope
append_runtime_event e pin journal =
    filter (is_in_segments (segment_of (retained_from_seq e.seq pin)))
      (filter (λ x. not (x.seq == e.seq)) journal ++ (e ∷ []))

-- `SELECT MIN(seq)`.
unfoldable pub min_seq : List RuntimeEventEnvelope → Option ℕ
min_seq [] = none
min_seq (e ∷ es) =
    let rest = min_seq es in elim rest [ none ↦ some e.seq | some m ↦ some (min e.seq m) ]

abbrev pub push_event : RuntimeEventEnvelope → List RuntimeEventEnvelope → List RuntimeEventEnvelope
push_event e feed = feed ++ (e ∷ [])

abbrev pub pop_front : List RuntimeEventEnvelope → List RuntimeEventEnvelope
pop_front [] = []
pop_front (e ∷ es) = es

-- One event is recorded; `persists` says whether the journal takes it.
unfoldable pub record_runtime_event : Bool → ℕ → Option ℕ → String → String → Feed → Feed
record_runtime_event persists now pin event payload s =
    let e : RuntimeEventEnvelope = record {
      seq = s.seq + 1;
      event = event;
      payload = payload;
      emitted_at_unix_ms = now;
    } in
    let feed' = if leb feed_capacity (length s.feed) then pop_front s.feed else s.feed in
    let s1 = record s { seq = s.seq + 1; feed = push_event e feed' } in
    let journal' = append_runtime_event e pin s.journal in
    if persists
    then record s1 { journal = journal'; persisted_oldest_seq = unwrap_or (min_seq journal') 0 }
    else s1

abbrev pub memory_oldest : Feed → Option ℕ
memory_oldest s = option_map (λ (e : RuntimeEventEnvelope). e.seq) (first s.feed)

abbrev pub persisted_oldest : Feed → Option ℕ
persisted_oldest s = if s.persisted_oldest_seq == 0 then none else some s.persisted_oldest_seq

abbrev pub oldest_available : ℕ → Feed → Option ℕ
oldest_available after_seq s =
    if after_seq == 0 then memory_oldest s else option_or (persisted_oldest s) (memory_oldest s)

-- The cursor lies before the event that comes before `oldest`.
abbrev pub is_before : ℕ → Option ℕ → Bool
is_before after_seq none = false
is_before after_seq (some oldest) = ltb after_seq (oldest - 1)

-- Why a cursor cannot be served, if it cannot.
unfoldable pub cursor_reason : ℕ → Feed → Option String
cursor_reason after_seq s =
    if after_seq == 0
    then none
    else if s.seq == 0 || ltb s.seq after_seq
    then some "cursor_after_latest_available"
    else if is_before after_seq (oldest_available after_seq s)
    then some "cursor_before_oldest_available"
    else none

unfoldable pub needs_persisted_catch_up : ℕ → Feed → Bool
unfolding cursor_reason
needs_persisted_catch_up after_seq s =
    ltb 0 after_seq && is_none (cursor_reason after_seq s) && is_before after_seq (memory_oldest s)

abbrev pub is_after : ℕ → RuntimeEventEnvelope → Bool
is_after after_seq e = ltb after_seq e.seq

unfoldable pub load_runtime_events_after :
    ℕ → ℕ → List RuntimeEventEnvelope → List RuntimeEventEnvelope
load_runtime_events_after after_seq limit journal = take limit (filter (is_after after_seq) journal)

-- The events that are found, and why the journal failed, if it did.
unfoldable pub fetch_events : Bool → ℕ → ℕ → Feed → List RuntimeEventEnvelope × Option String
fetch_events loads after_seq limit s =
    if limit == 0 || not (is_none (cursor_reason after_seq s))
    then ([], cursor_reason after_seq s)
    else if needs_persisted_catch_up after_seq s
    then if loads
      then (load_runtime_events_after after_seq limit s.journal, none)
      else ([], some "persisted_journal_unavailable")
    else (take limit (filter (is_after after_seq) s.feed), none)

unfoldable pub resync_reason_of :
    Bool → ℕ → ℕ → Feed → List RuntimeEventEnvelope → Option String → Option String
resync_reason_of loads after_seq limit s events reason =
    if needs_persisted_catch_up after_seq s
      && is_none reason
      && ltb after_seq s.seq
      && is_empty events
    then some "persisted_catch_up_empty"
    else reason

pub record RuntimeEventFeedSnapshot : Type 0 where
  pub events : List RuntimeEventEnvelope
  pub generation : String
  pub oldest_available_seq : Option ℕ
  pub latest_available_seq : ℕ
  pub resync_required : Bool
  pub replay_source : String
  pub resync_reason : Option String

unfoldable pub replay_source_of : Bool → ℕ → ℕ → Feed → List RuntimeEventEnvelope → String
replay_source_of resync after_seq limit s events =
    if resync
    then "resync_required"
    else if limit == 0 || after_seq == 0 && s.seq == 0 || is_empty events
    then "empty"
    else if needs_persisted_catch_up after_seq s
    then "persisted_catch_up"
    else "memory_hot_window"

unfoldable pub runtime_events_since : Bool → ℕ → ℕ → Feed → RuntimeEventFeedSnapshot
runtime_events_since loads after_seq limit s =
    let (found, fetch_reason) = fetch_events loads after_seq limit s in
    let reason = resync_reason_of loads after_seq limit s found fetch_reason in
    let events = if is_none reason then found else [] in
    record {
      events = events;
      generation = s.generation;
      oldest_available_seq = oldest_available after_seq s;
      latest_available_seq = s.seq;
      resync_required = not (is_none reason);
      replay_source = replay_source_of (not (is_none reason)) after_seq limit s events;
      resync_reason = reason;
    }
