-- ===== src/Checkpoints/Pins.antt =====
-- That the checkpoint of an active consumer pins the journal of src-tauri/src/db.rs: what
-- `append_runtime_event` keeps, as long as the checkpoint stands.
use dash_drop.Base.{
  ℕ, String, true, false, Option, none, some, [], ◌∷◌, ◌≡◌, refl, sym, ◌∙◌, subst, ◌≤◌, ◌<◌, ◌+◌,
  ◌-◌, ◌==◌, nat_eq, string_eq, arith, Bool-cases, inl, inr, min, lookup, insert, All, All-insert,
  All-retain, All-lookup, lookup-retain, insert_cases,
}
use dash_drop.Types.Checkpoint.{RuntimeEventCheckpoint, checkpoint_beq}
use dash_drop.Feed.{Feed, retained_from_seq, journal_max_capacity}
use dash_drop.Checkpoints.{
  Table, Consumers, Sqlite, is_resync, recovery_hint_of, enrich, is_fresh, prune_checkpoints,
  stale_threshold_ms, checkpoint_ttl_ms,
}
use dash_drop.Checkpoints.Refresh.{Refreshing, refresh_row, refresh_rows, refresh_checkpoints}
use dash_drop.Checkpoints.Calls.{is_pin, least_with, oldest_pinned}

least_with-le : (seq : ℕ) (o : Option ℕ) → least_with seq o ≤ seq
least_with-le seq none = omega arith
least_with-le seq (some m) = omega arith

-- The least number of the pins is no later than any pin.
pub oldest_pinned-le :
    (g : String) (active_after least : ℕ) (id : String) (c : RuntimeEventCheckpoint) (table : Table)
    → lookup id table ≡ some c
    → is_pin g active_after least c ≡ true
    → (m : ℕ) × (oldest_pinned g active_after least table ≡ some m) × (m ≤ c.seq)
unfolding oldest_pinned lookup
oldest_pinned-le g after least id c [] q pinned = absurd (cc)
oldest_pinned-le g after least id c ((key, r) ∷ rows) q pinned = elim (Bool-cases (key == id)) [
  | inl same ↦
      let first : r ≡ c = ground (arith, same, q) in
      subst (λ r. (m : ℕ) × (oldest_pinned g after least ((key, r) ∷ rows) ≡ some m) × (m ≤ c.seq))
        (sym first)
        (rw pinned (
          least_with c.seq (oldest_pinned g after least rows),
          refl,
          least_with-le c.seq (oldest_pinned g after least rows),
        ))
  | inr other ↦
      let (m, found, le) = oldest_pinned-le g after least id c rows (ground arith) pinned in
      elim (Bool-cases (is_pin g after least r)) [
        | inl pin ↦ rw (pin, found) (min r.seq m, refl, omega arith)
        | inr plain ↦ rw plain (m, found, le)
      ]
]

-- With a pin at `c` nothing after `c` is dropped, as long as the journal's largest size reaches
-- back to it.
pub retained-pin-le :
    (seq m c : ℕ) → m ≤ c → seq ≤ c + journal_max_capacity → retained_from_seq seq (some m) - 1 ≤ c
unfolding retained_from_seq
retained-pin-le seq m c le near = ground arith

-- The row of the consumer as it was saved, with a hint that lets it pin.
abbrev pub Stands : String → ℕ → ℕ → RuntimeEventCheckpoint → Type 0
Stands g c t row =
    (row.generation ≡ g)
    × (row.seq ≡ c)
    × (row.updated_at_unix_ms ≡ t)
    × (is_resync row.recovery_hint ≡ false)

abbrev pub Serves : String → ℕ → Feed → Type 0
Serves g c s = is_resync (some (recovery_hint_of s g c)) ≡ false

module _ (id g : String) (c t : ℕ) where
  -- A row stands under its consumer, and the consumer's row stands.
  abbrev pub Fits : String × RuntimeEventCheckpoint → Type 0
  Fits (key, row) = (row.consumer_id ≡ key) × (key ≡ id → Stands g c t row)

  abbrev pub Kept : Table → Type 0
  Kept table = All Fits table × ((row : RuntimeEventCheckpoint) × (lookup id table ≡ some row))

  pub Kept-Stands :
      (table : Table)
      → Kept table
      → (row : RuntimeEventCheckpoint) × (lookup id table ≡ some row) × Stands g c t row
  Kept-Stands table (all, (row, found)) =
      (row, found, (All-lookup Fits id row table all found).1 refl)

  pub enrich-Stands :
      (s : Feed) (db : Sqlite) (read : Option ℕ) (row : RuntimeEventCheckpoint)
      → Serves g c s
      → Stands g c t row
      → Stands g c t (enrich s db.stats read row)
  unfolding enrich
  enrich-Stands s db read row serves (gen, seq, at, hint) = (
    gen,
    seq,
    at,
    subst (λ x. is_resync (some (recovery_hint_of s x row.seq)) ≡ false) (sym gen)
        (subst (λ x. is_resync (some (recovery_hint_of s g x)) ≡ false) (sym seq) serves),
  )

  pub insert-Kept :
      (row : RuntimeEventCheckpoint) (table : Table)
      → Fits (row.consumer_id, row)
      → Kept table
      → Kept (insert row.consumer_id row table)
  insert-Kept row table fits (all, found) = (
    All-insert Fits row.consumer_id row table all fits,
    insert_cases (λ o. (x : RuntimeEventCheckpoint) × (o ≡ some x)) row.consumer_id id row table
        (λ e. (row, refl)) (λ e. found),
  )

  refresh_row-Kept :
      (db : Sqlite) (s : Feed) (read : Option ℕ) (key : String) (row : RuntimeEventCheckpoint)
      (r : Refreshing)
      → Serves g c s
      → Fits (key, row)
      → Kept r.rows
      → Kept (refresh_row db s read row r).0.rows
  unfolding refresh_row enrich
  refresh_row-Kept db s read key row r serves fits kept =
      elim (Bool-cases (checkpoint_beq (enrich s db.stats read row) row)) [
        | inl same ↦ rw same kept
        | inr changed ↦ elim (Bool-cases (db.saves row.consumer_id)) [
          | inl saved ↦
              rw (changed, saved)
                (insert-Kept (enrich s db.stats read row) r.rows
                  (refl, λ e. enrich-Stands s db read row serves (fits.1 (sym fits.0 ∙ e))) kept)
          | inr failed ↦ rw (changed, failed) kept
        ]
      ]

  refresh_rows-Kept :
      (db : Sqlite) (s : Feed) (read : Option ℕ) (rows : Table) (r : Refreshing)
      → Serves g c s
      → All Fits rows
      → Kept r.rows
      → Kept (refresh_rows db s read rows r).0.rows
  unfolding refresh_rows
  refresh_rows-Kept db s read [] r serves fits kept = kept
  refresh_rows-Kept db s read ((key, row) ∷ rest) r serves fits kept =
      let kept' = refresh_row-Kept db s read key row r serves fits.0 kept in
      elim (Bool-cases (refresh_row db s read row r).1) [
        | inl saved ↦
            rw saved
              (refresh_rows-Kept db s read rest (refresh_row db s read row r).0 serves fits.1 kept')
        | inr failed ↦ rw failed kept'
      ]

  pub refresh_checkpoints-Kept :
      (db : Sqlite) (read : Option ℕ) (now : ℕ) (k : Consumers)
      → Serves g c k.feed
      → Kept k.table
      → Kept (refresh_checkpoints db read now k).0.table
  unfolding refresh_checkpoints
  refresh_checkpoints-Kept db read now k serves kept =
      let start : Refreshing = record {
        rows = k.table;
        refreshed_count = 0;
        resync_transition_count = 0;
        refreshed = [];
      } in
      let kept' = refresh_rows-Kept db k.feed read k.table start serves kept.0 kept in
      elim (Bool-cases db.lists) [
        | inl lists ↦ elim (Bool-cases (refresh_rows db k.feed read k.table start).1) [
          | inl saved ↦ simp (lists, saved) kept'
          | inr failed ↦ simp (lists, failed) kept'
        ]
        | inr silent ↦ simp silent kept
      ]

  -- The row of an active consumer is not old enough to be pruned.
  pub prune_checkpoints-Kept :
      (db : Sqlite) (now : ℕ) (k : Consumers)
      → 0 < t
      → now < t + stale_threshold_ms
      → Kept k.table
      → Kept (prune_checkpoints db now k).0.table
  unfolding prune_checkpoints is_fresh
  prune_checkpoints-Kept db now k begun active kept =
      let (row, found, stands) = Kept-Stands k.table kept in
      let fresh : is_fresh (now - checkpoint_ttl_ms) row ≡ true = ground (arith, stands.2) in
      elim (Bool-cases db.prunes) [
        | inl prunes ↦ simp prunes (
          All-retain Fits (is_fresh (now - checkpoint_ttl_ms)) k.table kept.0,
          (row, lookup-retain (is_fresh (now - checkpoint_ttl_ms)) id row k.table fresh found),
        )
        | inr fails ↦ simp fails kept
      ]
