-- ===== src/Checkpoints/Saving.antt =====
-- What `save_runtime_event_checkpoint` of src-tauri/src/state.rs leaves for the consumer.
use dash_drop.Base.{
  ℕ, String, Bool, true, false, Option, none, some, List, [], ◌∷◌, ◌≡◌, ◌≢◌, refl, sym, ◌∙◌, ap,
  subst, ◌≤◌, ◌<◌, ◌==◌, nat_eq, string_eq, if◌then◌else◌, length, arith, Bool-cases, inl, inr, min,
  lookup, insert, lookup-insert_self, All, NodupKeys, Result, ok, trim, is_empty_str,
}
use dash_drop.Types.Checkpoint.{RuntimeEventCheckpoint}
use dash_drop.Feed.{RuntimeEventEnvelope}
use dash_drop.Checkpoints.{
  Table, Consumers, Sqlite, CheckpointError, is_resync, recovery_hint_of, enrich, CheckpointMetrics,
  prune_checkpoints,
}
use dash_drop.Checkpoints.Calls.{save_runtime_event_checkpoint, write_row, saved_row}
use dash_drop.Checkpoints.Pins.{Stands, Serves, Fits, Kept, prune_checkpoints-Kept}
use dash_drop.Checkpoints.Standing.{Reaches, Reaches-Serves, prune_checkpoints-feed, Standing}

-- A table has one row for a consumer, under its name.
abbrev pub Keyed : String × RuntimeEventCheckpoint → Type 0
Keyed (key, row) = row.consumer_id ≡ key

others-Fits :
    (id g : String) (c t : ℕ) (rows : Table)
    → All Keyed rows
    → All (λ e. e.0 ≢ id) rows
    → All (Fits id g c t) rows
others-Fits id g c t [] keyed others = tt
others-Fits id g c t ((key, row) ∷ rows) keyed others =
    ((keyed.0, λ e. absurd (others.0 e)), others-Fits id g c t rows keyed.1 others.1)

insert-Fits :
    (id g : String) (c t : ℕ) (row : RuntimeEventCheckpoint) (rows : Table)
    → row.consumer_id ≡ id
    → Stands g c t row
    → All Keyed rows
    → NodupKeys rows
    → All (Fits id g c t) (insert id row rows)
unfolding insert
insert-Fits id g c t row [] named stands keyed single = ((named, λ e. stands), tt)
insert-Fits id g c t row ((key, old) ∷ rows) named stands keyed single =
    elim (Bool-cases (key == id)) [
      | inl same ↦ rw same (
        (named, λ e. stands),
        others-Fits id g c t rows keyed.1
            (subst (λ x. All (λ e. e.0 ≢ x) rows) ((string_eq.eqb_iff key id).0 same) single.0),
      )
      | inr other ↦ rw other (
        (keyed.0, λ e. absurd (ground (arith, e, string_eq.eqb_iff key id))),
        insert-Fits id g c t row rows named stands keyed.1 single.1,
      )
    ]

-- The row that a save writes.
abbrev pub row_saved : Sqlite → ℕ → String → String → ℕ → Consumers → RuntimeEventCheckpoint
row_saved db t id gen c k =
    enrich k.feed db.stats none (saved_row k.feed t id gen c (lookup id k.table))

row_saved-consumer_id :
    (db : Sqlite) (t : ℕ) (id gen : String) (c : ℕ) (k : Consumers)
    → (row_saved db t id gen c k).consumer_id ≡ id
unfolding enrich saved_row
row_saved-consumer_id db t id gen c k = refl

row_saved-Stands :
    (db : Sqlite) (t : ℕ) (id gen : String) (c : ℕ) (k : Consumers)
    → c ≤ k.feed.seq
    → Serves gen c k.feed
    → Stands gen c t (row_saved db t id gen c k)
unfolding enrich saved_row
row_saved-Stands db t id gen c k le serves =
    let cut : min c k.feed.seq ≡ c = omega arith in
    (
      refl,
      cut,
      refl,
      subst (λ x. is_resync (some (recovery_hint_of k.feed gen x)) ≡ false) (sym cut) serves,
    )

abbrev pub Reply : Type 0
Reply = Consumers × Result RuntimeEventCheckpoint CheckpointError

pub past_gates :
    (a b l : Bool) (x y z w : Reply) {saved : RuntimeEventCheckpoint}
    → (x.1 ≢ ok saved)
    → (y.1 ≢ ok saved)
    → (z.1 ≢ ok saved)
    → (let r : Reply = if a then x else if b then y else if l then w else z in r.1 ≡ ok saved)
    → (let r : Reply = if a then x else if b then y else if l then w else z in r ≡ w) × (a ≡ false)
past_gates true b l x y z w hx hy hz e = absurd (hx e)
past_gates false true l x y z w hx hy hz e = absurd (hy e)
past_gates false false true x y z w hx hy hz e = (refl, refl)
past_gates false false false x y z w hx hy hz e = absurd (hz e)

pub past_write :
    (b : Bool) (x y : Reply) {saved : RuntimeEventCheckpoint}
    → (y.1 ≢ ok saved)
    → (let r : Reply = if b then x else y in r.1 ≡ ok saved)
    → (let r : Reply = if b then x else y in r.0 ≡ x.0)
past_write true x y h e = refl
past_write false x y h e = absurd (h e)

written :
    (db : Sqlite) (previous : Option RuntimeEventCheckpoint) (c : RuntimeEventCheckpoint)
    (k : Consumers) {saved : RuntimeEventCheckpoint}
    → (write_row db previous c k).1 ≡ ok saved
    → (m : CheckpointMetrics) × ((write_row db previous c k).0
        ≡ (prune_checkpoints db c.updated_at_unix_ms
            (record k { table = insert c.consumer_id c k.table; metrics = m })).0)
unfolding write_row
written db previous c k e = (_, past_write (db.saves c.consumer_id) _ _ (λ x. cc) e)

-- What a save that succeeds leaves.
save-ok :
    (db : Sqlite) (t : ℕ) (consumer gen : String) (c : ℕ) (k : Consumers)
    {saved : RuntimeEventCheckpoint}
    → (save_runtime_event_checkpoint db t consumer gen c k).1 ≡ ok saved
    → (m : CheckpointMetrics) × ((save_runtime_event_checkpoint db t consumer gen c k).0
        ≡ (prune_checkpoints db t (record k {
          table = insert (trim consumer) (row_saved db t (trim consumer) (trim gen) c k) k.table;
          metrics = m;
        })).0)
unfolding save_runtime_event_checkpoint enrich saved_row
save-ok db t consumer gen c k e =
    let (through, named) =
      past_gates (is_empty_str (trim consumer)) (is_empty_str (trim gen)) db.loads _ _ _ _ (λ x. cc)
        (λ x. cc) (λ x. cc) e in
    let (m, is) =
      written db (lookup (trim consumer) k.table) (row_saved db t (trim consumer) (trim gen) c k) k
        (ap (λ x. x.1) (sym through) ∙ e) in
    (m, ap (λ x. x.0) through ∙ is)

pub save-Standing :
    (db : Sqlite) (t : ℕ) (begun : 0 < t) (consumer gen : String) (c : ℕ)
    (recorded : List RuntimeEventEnvelope) (k : Consumers) {saved : RuntimeEventCheckpoint}
    → Reaches c recorded k.feed
    → 0 < length recorded
    → c ≤ length recorded
    → All Keyed k.table
    → NodupKeys k.table
    → k.feed.generation ≡ trim gen
    → (save_runtime_event_checkpoint db t consumer gen c k).1 ≡ ok saved
    → Standing
        (trim consumer)
        (trim gen)
        c
        t
        begun
        recorded
        (save_runtime_event_checkpoint db t consumer gen c k).0
save-Standing db t begun consumer gen c recorded k reach pos le keyed single same e =
    let (m, is) = save-ok db t consumer gen c k e in
    let row = row_saved db t (trim consumer) (trim gen) c k in
    let k1 : Consumers = record k { table = insert (trim consumer) row k.table; metrics = m } in
    let serves = subst (λ x. Serves x c k.feed) same (Reaches-Serves c recorded k.feed pos reach) in
    let stands =
      row_saved-Stands db t (trim consumer) (trim gen) c k (omega (arith, le, reach.0.latest))
        serves in
    let kept : Kept (trim consumer) (trim gen) c t k1.table = (
      insert-Fits (trim consumer) (trim gen) c t row k.table
          (row_saved-consumer_id db t (trim consumer) (trim gen) c k) stands keyed single,
      (row, lookup-insert_self (trim consumer) row k.table),
    ) in
    subst (Standing (trim consumer) (trim gen) c t begun recorded) (sym is) (record {
      reaches = subst (Reaches c recorded) (sym (prune_checkpoints-feed db t k1)) reach;
      same_generation = ap (λ x. x.generation) (prune_checkpoints-feed db t k1) ∙ same;
      rows = prune_checkpoints-Kept (trim consumer) (trim gen) c t db t k1 begun (omega arith) kept;
      some_event = pos;
    })
