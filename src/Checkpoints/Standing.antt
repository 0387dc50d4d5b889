-- ===== src/Checkpoints/Standing.antt =====
-- While events are recorded, the checkpoint of an active consumer stands, and the journal of
-- src-tauri/src/state.rs reaches back to it.
use dash_drop.Base.{
  ℕ, String, Bool, true, false, Option, none, some, List, [], ◌∷◌, ◌≡◌, refl, sym, ◌∙◌, ap, subst,
  ◌≤◌, ◌<◌, ◌+◌, ◌-◌, ◌==◌, nat_eq, string_eq, length, arith, length-append, Bool-cases, inl, inr,
  max, All,
}
use dash_drop.Feed.{
  RuntimeEventEnvelope, Feed, retained_from_seq, journal_max_capacity, push_event,
  record_runtime_event,
}
use dash_drop.Feed.Replay.{Holds, next_event, record_runtime_event-Holds, from_journal-record-le}
use dash_drop.Checkpoints.{
  Table, Consumers, Sqlite, is_resync, prune_checkpoints, stale_threshold_ms,
}
use dash_drop.Checkpoints.Refresh.{refresh_checkpoints}
use dash_drop.Checkpoints.Calls.{is_pin, pin_at, record_event}
use dash_drop.Checkpoints.Hints.{recovery_hint_is}
use dash_drop.Checkpoints.Pins.{
  Serves, Kept, Kept-Stands, oldest_pinned-le, retained-pin-le, refresh_checkpoints-Kept,
  prune_checkpoints-Kept,
}

-- The feed holds what was recorded, and the journal reaches back to `c`.
abbrev pub Reaches : ℕ → List RuntimeEventEnvelope → Feed → Type 0
Reaches c recorded s = (h : Holds recorded s) × (h.from_journal ≤ c)

pub Reaches-Serves :
    (c : ℕ) (recorded : List RuntimeEventEnvelope) (s : Feed)
    → 0 < length recorded
    → Reaches c recorded s
    → Serves s.generation c s
Reaches-Serves c recorded s pos (h, reach) =
    ap (λ x. is_resync (some x)) (recovery_hint_is recorded s h pos c) ∙ ground (arith, reach)

record_runtime_event-generation :
    (b : Bool) (now : ℕ) (pin : Option ℕ) (event payload : String) (s : Feed)
    → (record_runtime_event b now pin event payload s).generation ≡ s.generation
unfolding record_runtime_event
record_runtime_event-generation true now pin event payload s = refl
record_runtime_event-generation false now pin event payload s = refl

pub prune_checkpoints-feed :
    (db : Sqlite) (now : ℕ) (k : Consumers) → (prune_checkpoints db now k).0.feed ≡ k.feed
unfolding prune_checkpoints
prune_checkpoints-feed db now k = elim (Bool-cases db.prunes) [
  | inl prunes ↦ simp prunes refl
  | inr fails ↦ simp fails refl
]

refresh_checkpoints-feed :
    (db : Sqlite) (read : Option ℕ) (now : ℕ) (k : Consumers)
    → (refresh_checkpoints db read now k).0.feed ≡ k.feed
unfolding refresh_checkpoints
refresh_checkpoints-feed db read now k = ground arith

module _ (id g : String) (c t : ℕ) (begun : 0 < t) where
  -- Between two events, while the consumer is active.
  pub record Standing (recorded : List RuntimeEventEnvelope) (k : Consumers) : Type 0 where
    pub reaches : Reaches c recorded k.feed
    pub same_generation : k.feed.generation ≡ g
    pub rows : Kept id g c t k.table
    pub some_event : 0 < length recorded

  -- While the row stands it pins the journal at `c` or before.
  pin-le :
      (now : ℕ) (s : Feed) (table : Table)
      → s.generation ≡ g
      → now < t + stale_threshold_ms
      → s.seq + 1 ≤ c + journal_max_capacity
      → Kept id g c t table
      → retained_from_seq (s.seq + 1) (pin_at now s table) - 1 ≤ c
  unfolding pin_at is_pin
  pin-le now s table gen active near kept =
      let (row, found, stands) = Kept-Stands id g c t table kept in
      let least = max (s.seq + 1 - (journal_max_capacity - 1)) 1 - 1 in
      let pins : is_pin s.generation (now - stale_threshold_ms) least row ≡ true = ground (
        arith,
        string_eq.eqb_iff row.generation s.generation,
        stands.0 ∙ sym gen,
        stands.1,
        stands.2,
        stands.3,
      ) in
      let (m, is, le) : (m : ℕ) × (pin_at now s table ≡ some m) × (m ≤ row.seq) =
        oldest_pinned-le s.generation (now - stale_threshold_ms) least id row table found pins in
      subst (λ o. retained_from_seq (s.seq + 1) o - 1 ≤ c) (sym is)
        (retained-pin-le (s.seq + 1) m c (omega (arith, le, stands.1)) near)

  -- The feed after an event, whatever becomes of the checkpoints.
  recorded_feed : Sqlite → ℕ → String → String → Consumers → Feed
  recorded_feed db now event payload k =
      record_runtime_event db.appends now (pin_at now k.feed (prune_checkpoints db now k).0.table)
        event payload k.feed

  recorded-Reaches :
      (db : Sqlite) (now : ℕ) (event payload : String) (recorded : List RuntimeEventEnvelope)
      (k : Consumers)
      → db.appends ≡ true
      → now < t + stale_threshold_ms
      → length recorded + 1 ≤ c + journal_max_capacity
      → Standing recorded k
      → Reaches c
          (push_event (next_event now event payload k.feed) recorded)
          (recorded_feed db now event payload k)
  unfolding recorded_feed
  recorded-Reaches db now event payload recorded k appends active near st =
      let table = (prune_checkpoints db now k).0.table in
      let pin = pin_at now k.feed table in
      let (h, reach) = st.reaches in
      subst
        (λ b.
          Reaches c (push_event (next_event now event payload k.feed) recorded)
            (record_runtime_event b now pin event payload k.feed))
        (sym appends)
        (
          record_runtime_event-Holds now pin event payload recorded k.feed h,
          omega (
            arith,
            reach,
            from_journal-record-le now pin event payload recorded k.feed h,
            pin-le now k.feed table st.same_generation active (omega (arith, near, h.latest))
                (prune_checkpoints-Kept id g c t db now k begun active st.rows),
          ),
        )

  record_event-Standing :
      (db : Sqlite) (now : ℕ) (event payload : String) (recorded : List RuntimeEventEnvelope)
      (k : Consumers)
      → db.appends ≡ true
      → now < t + stale_threshold_ms
      → length recorded + 1 ≤ c + journal_max_capacity
      → Standing recorded k
      → Standing
          (push_event (next_event now event payload k.feed) recorded)
          (record_event db now event payload k)
  unfolding record_event recorded_feed
  record_event-Standing db now event payload recorded k appends active near st =
      let k1 = (prune_checkpoints db now k).0 in
      let s = recorded_feed db now event payload k in
      let k2 = record k1 { feed = s } in
      let all = push_event (next_event now event payload k.feed) recorded in
      let reach = recorded-Reaches db now event payload recorded k appends active near st in
      let some_event : 0 < length all =
        omega (arith, length-append recorded (next_event now event payload k.feed ∷ [])) in
      let gen : s.generation ≡ g =
        record_runtime_event-generation db.appends now (pin_at now k.feed k1.table) event payload
          k.feed
        ∙ st.same_generation in
      let kept = prune_checkpoints-Kept id g c t db now k begun active st.rows in
      let serves = subst (λ x. Serves x c s) gen (Reaches-Serves c all s some_event reach) in
      elim (Bool-cases (s.persisted_oldest_seq == k.feed.persisted_oldest_seq)) [
        | inl same ↦ rw same (record {
          reaches = reach;
          same_generation = gen;
          rows = kept;
          some_event = some_event;
        })
        | inr moved ↦
            let same_feed = refresh_checkpoints-feed db none now k2 in
            rw moved (record {
              reaches = subst (Reaches c all) (sym same_feed) reach;
              same_generation = ap (λ x. x.generation) same_feed ∙ gen;
              rows = refresh_checkpoints-Kept id g c t db none now k2 serves kept;
              some_event = some_event;
            })
      ]

-- An event with its time, and the answers of SQLite to it.
pub record Happening : Type 0 where
  pub answers : Sqlite
  pub at : ℕ
  pub event : String
  pub payload : String

abbrev pub record_events : List Happening → Consumers → Consumers
record_events [] k = k
record_events (e ∷ es) k = record_events es (record_event e.answers e.at e.event e.payload k)

-- All events, the ones before included.
abbrev pub recorded_after :
    List Happening → List RuntimeEventEnvelope → Consumers → List RuntimeEventEnvelope
recorded_after [] recorded k = recorded
recorded_after (e ∷ es) recorded k =
    recorded_after es (push_event (next_event e.at e.event e.payload k.feed) recorded)
      (record_event e.answers e.at e.event e.payload k)

-- The journal takes the event, in the hour after `t`.
abbrev pub IsTimely : ℕ → Happening → Type 0
IsTimely t e = (e.answers.appends ≡ true) × (e.at < t + stale_threshold_ms)

pub record_events-Standing :
    (id g : String) (c t : ℕ) (begun : 0 < t) (es : List Happening)
    (recorded : List RuntimeEventEnvelope) (k : Consumers)
    → All (IsTimely t) es
    → length recorded + length es ≤ c + journal_max_capacity
    → Standing id g c t begun recorded k
    → Standing id g c t begun (recorded_after es recorded k) (record_events es k)
record_events-Standing id g c t begun [] recorded k timely near st = st
record_events-Standing id g c t begun (e ∷ es) recorded k timely near st =
    record_events-Standing id g c t begun es
      (push_event (next_event e.at e.event e.payload k.feed) recorded)
      (record_event e.answers e.at e.event e.payload k) timely.1
      (omega (arith, near, length-append recorded (next_event e.at e.event e.payload k.feed ∷ [])))
      (record_event-Standing id g c t begun e.answers e.at e.event e.payload recorded k timely.0.0
        timely.0.1 (omega arith) st)

pub length-recorded_after :
    (es : List Happening) (recorded : List RuntimeEventEnvelope) (k : Consumers)
    → length recorded ≤ length (recorded_after es recorded k)
length-recorded_after [] recorded k = omega arith
length-recorded_after (e ∷ es) recorded k =
    let new = next_event e.at e.event e.payload k.feed in
    omega (
      arith,
      length-append recorded (new ∷ []),
      length-recorded_after es (push_event new recorded)
          (record_event e.answers e.at e.event e.payload k),
    )
