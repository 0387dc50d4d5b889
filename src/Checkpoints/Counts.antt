-- ===== src/Checkpoints/Counts.antt =====
-- The counters of the saves of checkpoints in src-tauri/src/state.rs.
use dash_drop.Base.{
  ℕ, String, Bool, true, false, Option, none, some, List, [], ◌∷◌, ◌≡◌, refl, sym, subst, ◌<◌, ◌+◌,
  ◌-◌, ◌==◌, nat_eq, string_eq, option_eq, arith, Bool-cases, inl, inr, lookup, u64_max, unwrap_or,
  Result, ok, err, trim, is_empty_str, retain, length, insert,
}
use dash_drop.Types.Checkpoint.{
  CheckpointTransition, created, generation_reset, heartbeat, advanced, rewound,
  RuntimeEventCheckpoint, checkpoint_beq, RecoveryHint,
}
use dash_drop.Feed.{Feed, record_runtime_event}
use dash_drop.Checkpoints.{
  CheckpointMetrics, CheckpointError, Sqlite, Consumers, transition_of, enrich, turned, note_pruned,
  prune_checkpoints, note_refreshed, is_fresh, checkpoint_ttl_ms,
}
use dash_drop.Checkpoints.Refresh.{Refreshing, refresh_rows, refresh_checkpoints}
use dash_drop.Checkpoints.Calls.{
  note_load, is_expired, read_row, runtime_event_checkpoint, saved_row, count_transition,
  note_transition, is_same_place, note_save, hint_before, write_row, save_runtime_event_checkpoint,
  runtime_event_checkpoints, record_event, pin_at,
}

-- Each save is one of the five transitions, as long as the count of the saves has not reached its
-- end.
abbrev pub Balanced : CheckpointMetrics → Type 0
Balanced m =
    m.checkpoint_saves < u64_max
    → m.checkpoint_creates + m.checkpoint_advances + m.checkpoint_heartbeats + m.checkpoint_rewinds
        + m.checkpoint_generation_resets
      ≡ m.checkpoint_saves

note_pruned-Balanced :
    (removed now : ℕ) (m : CheckpointMetrics) → Balanced m → Balanced (note_pruned removed now m)
unfolding note_pruned
note_pruned-Balanced removed now m h = elim (Bool-cases (removed == 0)) [
  | inl nothing ↦ simp nothing h
  | inr some_rows ↦ simp some_rows h
]

note_refreshed-Balanced :
    (n r now : ℕ) (m : CheckpointMetrics) → Balanced m → Balanced (note_refreshed n r now m)
unfolding note_refreshed
note_refreshed-Balanced n r now m h = elim (Bool-cases (n == 0)) [
  | inl nothing ↦ simp nothing h
  | inr some_rows ↦ simp some_rows h
]

abbrev is_heartbeat : CheckpointTransition → Bool
is_heartbeat heartbeat = true
is_heartbeat created = false
is_heartbeat generation_reset = false
is_heartbeat advanced = false
is_heartbeat rewound = false

-- A heartbeat is a save at the place of the row before it, and no other transition is.
is_same_place-transition_of :
    (previous : Option RuntimeEventCheckpoint) (c : RuntimeEventCheckpoint)
    → is_same_place previous c ≡ is_heartbeat (transition_of previous c.generation c.seq)
unfolding transition_of
is_same_place-transition_of none c = refl
is_same_place-transition_of (some p) c = ground arith

counted-Balanced :
    (previous : Option RuntimeEventCheckpoint) (c : RuntimeEventCheckpoint)
    (before after : Option RecoveryHint) (at : ℕ) (m : CheckpointMetrics)
    (transition : CheckpointTransition)
    → is_same_place previous c ≡ is_heartbeat transition
    → Balanced m
    → Balanced (note_save previous c (note_transition transition at before after m))
unfolding note_save note_transition count_transition
counted-Balanced previous c before after at m created same h =
    simp same (λ below. omega (arith, h (omega arith)))
counted-Balanced previous c before after at m generation_reset same h =
    simp same (λ below. omega (arith, h (omega arith)))
counted-Balanced previous c before after at m heartbeat same h =
    simp same (λ below. omega (arith, h (omega arith)))
counted-Balanced previous c before after at m advanced same h =
    simp same (λ below. omega (arith, h (omega arith)))
counted-Balanced previous c before after at m rewound same h =
    simp same (λ below. omega (arith, h (omega arith)))

prune_checkpoints-Balanced :
    (db : Sqlite) (now : ℕ) (k : Consumers)
    → Balanced k.metrics
    → Balanced (prune_checkpoints db now k).0.metrics
unfolding prune_checkpoints
prune_checkpoints-Balanced db now k h = elim (Bool-cases db.prunes) [
  | inl prunes ↦ simp prunes (
      note_pruned-Balanced
        (length k.table - length (retain (is_fresh (now - checkpoint_ttl_ms)) k.table)) now
        k.metrics h)
  | inr fails ↦ simp fails h
]

refresh_checkpoints-Balanced :
    (db : Sqlite) (read : Option ℕ) (now : ℕ) (k : Consumers)
    → Balanced k.metrics
    → Balanced (refresh_checkpoints db read now k).0.metrics
unfolding refresh_checkpoints
refresh_checkpoints-Balanced db read now k h =
    let start : Refreshing = record {
      rows = k.table;
      refreshed_count = 0;
      resync_transition_count = 0;
      refreshed = [];
    } in
    let (r, saved) = refresh_rows db k.feed read k.table start in
    elim (Bool-cases db.lists) [
      | inl lists ↦ elim (Bool-cases saved) [
        | inl all ↦
            simp (lists, all)
              (note_refreshed-Balanced r.refreshed_count r.resync_transition_count now k.metrics h)
        | inr failed ↦ simp (lists, failed) h
      ]
      | inr silent ↦ simp silent h
    ]

read_row-Balanced :
    (db : Sqlite) (now : ℕ) (id : String) (found : Option RuntimeEventCheckpoint) (k : Consumers)
    → Balanced k.metrics
    → Balanced (read_row db now id found k).0.metrics
unfolding read_row
read_row-Balanced db now id none k h = h
read_row-Balanced db now id (some c) k h = elim (Bool-cases (is_expired now c)) [
  | inl old ↦ elim (Bool-cases db.deletes) [
    | inl gone ↦ simp (old, gone) h
    | inr kept ↦ simp (old, kept) h
  ]
  | inr live ↦ elim (Bool-cases (checkpoint_beq (enrich k.feed db.stats (some now) c) c)) [
    | inl same ↦ simp (live, same) h
    | inr changed ↦ elim (Bool-cases (db.saves (enrich k.feed db.stats (some now) c).consumer_id)) [
      | inl saved ↦
          simp (live, changed, saved)
            (note_refreshed-Balanced 1
              (turned c.recovery_hint (enrich k.feed db.stats (some now) c).recovery_hint) now
              k.metrics h)
      | inr failed ↦ simp (live, changed, failed) h
    ]
  ]
]

runtime_event_checkpoint-Balanced :
    (db : Sqlite) (now : ℕ) (consumer : String) (k : Consumers)
    → Balanced k.metrics
    → Balanced (runtime_event_checkpoint db now consumer k).0.metrics
unfolding runtime_event_checkpoint
runtime_event_checkpoint-Balanced db now consumer k h =
    let k' : Consumers = record k { metrics = note_load k.metrics } in
    elim (Bool-cases (is_empty_str (trim consumer))) [
      | inl blank ↦ simp blank h
      | inr named ↦ elim (Bool-cases db.loads) [
        | inl loads ↦
            simp (named, loads)
              (read_row-Balanced db now (trim consumer) (lookup (trim consumer) k.table) k' h)
        | inr fails ↦ simp (named, fails) h
      ]
    ]

-- A row that a save writes is counted under its transition.
write_row-Balanced :
    (db : Sqlite) (previous : Option RuntimeEventCheckpoint) (c : RuntimeEventCheckpoint)
    (k : Consumers)
    → c.last_transition ≡ some (transition_of previous c.generation c.seq)
    → Balanced k.metrics
    → Balanced (write_row db previous c k).0.metrics
unfolding write_row
write_row-Balanced db previous c k named h =
    let counted = note_save previous c (
      note_transition (unwrap_or c.last_transition heartbeat) c.updated_at_unix_ms
        (hint_before previous) c.recovery_hint k.metrics) in
    let balanced : Balanced counted =
      subst
        (λ o. Balanced (
          note_save previous c (
            note_transition (unwrap_or o heartbeat) c.updated_at_unix_ms (hint_before previous)
              c.recovery_hint k.metrics)))
        (sym named)
        (counted-Balanced previous c (hint_before previous) c.recovery_hint c.updated_at_unix_ms
          k.metrics (transition_of previous c.generation c.seq)
          (is_same_place-transition_of previous c) h) in
    elim (Bool-cases (db.saves c.consumer_id)) [
      | inl saved ↦ simp saved (
          prune_checkpoints-Balanced db c.updated_at_unix_ms
            (record k { table = insert c.consumer_id c k.table; metrics = counted }) balanced)
      | inr failed ↦ simp failed h
    ]

named_transition :
    (s : Feed) (db : Sqlite) (now : ℕ) (id gen : String) (seq : ℕ)
    (previous : Option RuntimeEventCheckpoint)
    → let c = enrich s db.stats none (saved_row s now id gen seq previous) in
      c.last_transition ≡ some (transition_of previous c.generation c.seq)
unfolding enrich saved_row
named_transition s db now id gen seq previous = refl

save-Balanced :
    (db : Sqlite) (now : ℕ) (consumer gen : String) (seq : ℕ) (k : Consumers)
    → Balanced k.metrics
    → Balanced (save_runtime_event_checkpoint db now consumer gen seq k).0.metrics
unfolding save_runtime_event_checkpoint
save-Balanced db now consumer gen seq k h =
    let previous = lookup (trim consumer) k.table in
    let c =
      enrich k.feed db.stats none (saved_row k.feed now (trim consumer) (trim gen) seq previous) in
    elim (Bool-cases (is_empty_str (trim consumer))) [
      | inl blank ↦ simp blank h
      | inr named ↦ elim (Bool-cases (is_empty_str (trim gen))) [
        | inl blank ↦ simp (named, blank) h
        | inr made ↦ elim (Bool-cases db.loads) [
          | inl loads ↦
              simp (named, made, loads)
                (write_row-Balanced db previous c k
                  (named_transition k.feed db now (trim consumer) (trim gen) seq previous) h)
          | inr fails ↦ simp (named, made, fails) h
        ]
      ]
    ]

listed-Balanced :
    (db : Sqlite) (now : ℕ) (k : Consumers)
    → Balanced k.metrics
    → Balanced (runtime_event_checkpoints db now k).0.metrics
unfolding runtime_event_checkpoints
listed-Balanced db now k h = pruned (prune_checkpoints db now k).1
  where
    pruned :
        (r : Result ℕ CheckpointError)
        → Balanced (
            let answer : Consumers × Result (List RuntimeEventCheckpoint) CheckpointError = elim r [
              | ok n ↦ refresh_checkpoints db none now (prune_checkpoints db now k).0
              | err why ↦ ((prune_checkpoints db now k).0, err why)
            ] in
            answer.0.metrics)
    pruned (ok n) =
        refresh_checkpoints-Balanced db none now (prune_checkpoints db now k).0
          (prune_checkpoints-Balanced db now k h)
    pruned (err why) = prune_checkpoints-Balanced db now k h

record_event-Balanced :
    (db : Sqlite) (now : ℕ) (event payload : String) (k : Consumers)
    → Balanced k.metrics
    → Balanced (record_event db now event payload k).metrics
unfolding record_event
record_event-Balanced db now event payload k h =
    let k1 = (prune_checkpoints db now k).0 in
    let s = record_runtime_event db.appends now (pin_at now k.feed k1.table) event payload k.feed in
    let pruned = prune_checkpoints-Balanced db now k h in
    elim (Bool-cases (s.persisted_oldest_seq == k.feed.persisted_oldest_seq)) [
      | inl same ↦ simp same pruned
      | inr moved ↦
          simp moved (refresh_checkpoints-Balanced db none now (record k1 { feed = s }) pruned)
    ]

-- The calls on the checkpoints, each with its time and the answers of SQLite.
pub data Call : Type 0 where
  load : String → Call
  save : String → String → ℕ → Call
  list : Call
  record_one : String → String → Call

abbrev pub perform : Sqlite → ℕ → Call → Consumers → Consumers
perform db now (load consumer) k = (runtime_event_checkpoint db now consumer k).0
perform db now (save consumer gen seq) k =
    (save_runtime_event_checkpoint db now consumer gen seq k).0
perform db now list k = (runtime_event_checkpoints db now k).0
perform db now (record_one event payload) k = record_event db now event payload k

abbrev pub run_calls : List (Sqlite × ℕ × Call) → Consumers → Consumers
run_calls [] k = k
run_calls ((db, now, c) ∷ calls) k = run_calls calls (perform db now c k)

perform-Balanced :
    (db : Sqlite) (now : ℕ) (c : Call) (k : Consumers)
    → Balanced k.metrics
    → Balanced (perform db now c k).metrics
perform-Balanced db now (load consumer) k h = runtime_event_checkpoint-Balanced db now consumer k h
perform-Balanced db now (save consumer gen seq) k h = save-Balanced db now consumer gen seq k h
perform-Balanced db now list k h = listed-Balanced db now k h
perform-Balanced db now (record_one event payload) k h =
    record_event-Balanced db now event payload k h

-- Over all calls that load, save or list checkpoints or record events, whatever SQLite answers, the
-- saves are the creations, advances, heartbeats, rewinds and resets of the generation together, if
-- they were so at the start and as long as the count of the saves has not reached the end of its
-- word.
pub run_calls-Balanced :
    (calls : List (Sqlite × ℕ × Call)) (k : Consumers)
    → Balanced k.metrics
    → Balanced (run_calls calls k).metrics
run_calls-Balanced [] k h = h
run_calls-Balanced ((db, now, c) ∷ calls) k h =
    run_calls-Balanced calls (perform db now c k) (perform-Balanced db now c k h)
