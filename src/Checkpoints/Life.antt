-- ===== src/Checkpoints/Life.antt =====
-- From the save of a checkpoint in src-tauri/src/state.rs to its load.
use dash_drop.Base.{
  ℕ, String, true, false, Option, none, some, ◌≡◌, refl, sym, ◌∙◌, ap, ◌<◌, ◌-◌, nat_eq, string_eq,
  option_eq, if◌then◌else◌, arith, Bool-cases, inl, inr, min, lookup, insert, lookup-insert_self,
  lookup-retain, saturating_add, leb, unwrap_or, option_bind, ok, trim, is_empty_str,
}
use dash_drop.Types.Checkpoint.{RuntimeEventCheckpoint, checkpoint_beq}
use dash_drop.Checkpoints.{
  Sqlite, Consumers, enrich, is_fresh, prune_checkpoints, checkpoint_ttl_ms,
}
use dash_drop.Checkpoints.Calls.{
  is_expired, read_row, runtime_event_checkpoint, saved_row, write_row,
  save_runtime_event_checkpoint, note_load,
}
use dash_drop.Checkpoints.Saving.{Reply, past_gates, row_saved}

wrote_row :
    (db : Sqlite) (previous : Option RuntimeEventCheckpoint) (c : RuntimeEventCheckpoint)
    (k : Consumers) {saved : RuntimeEventCheckpoint}
    → 0 < c.updated_at_unix_ms
    → (write_row db previous c k).1 ≡ ok saved
    → (c ≡ saved)
      × (lookup c.consumer_id (write_row db previous c k).0.table ≡ some c)
      × ((write_row db previous c k).0.feed ≡ k.feed)
unfolding write_row prune_checkpoints is_fresh
wrote_row db previous c k begun e =
    let now = c.updated_at_unix_ms in
    let found =
      lookup-retain (is_fresh (now - checkpoint_ttl_ms)) c.consumer_id c
        (insert c.consumer_id c k.table) (ground arith)
        (lookup-insert_self c.consumer_id c k.table) in
    elim (Bool-cases (db.saves c.consumer_id)) [
      | inl saves ↦ elim (Bool-cases db.prunes) [
        | inl prunes ↦
            let e' = simp (saves, prunes) at e in simp (saves, prunes) ((cc), found, refl)
        | inr stuck ↦ let e' = simp (saves, stuck) at e in absurd (cc)
      ]
      | inr fails ↦ let e' = simp fails at e in absurd (cc)
    ]

-- What a load finds of a row that is live.
read_live :
    (db : Sqlite) (now : ℕ) (id : String) (c : RuntimeEventCheckpoint) (k : Consumers)
    → db.deletes ≡ true
    → db.saves c.consumer_id ≡ true
    → (read_row db now id (some c) k).1
      ≡ (if is_expired now c then ok none else ok (some (enrich k.feed db.stats (some now) c)))
unfolding read_row enrich
read_live db now id c k deletes saves = elim (Bool-cases (is_expired now c)) [
  | inl old ↦ simp (old, deletes) refl
  | inr live ↦ elim (Bool-cases (checkpoint_beq (enrich k.feed db.stats (some now) c) c)) [
    | inl same ↦ simp (live, same) refl
    | inr changed ↦ simp (live, changed, saves) refl
  ]
]

load_found :
    (db : Sqlite) (now : ℕ) (consumer : String) (c : RuntimeEventCheckpoint) (k : Consumers)
    → is_empty_str (trim consumer) ≡ false
    → db.loads ≡ true
    → lookup (trim consumer) k.table ≡ some c
    → (runtime_event_checkpoint db now consumer k).1
      ≡ (read_row db now (trim consumer) (some c) (record k { metrics = note_load k.metrics })).1
unfolding runtime_event_checkpoint
load_found db now consumer c k named loads found = simp (named, loads, found) refl

-- What is left of a save for the next load.
save_left :
    (db : Sqlite) (t : ℕ) (consumer gen : String) (c : ℕ) (k : Consumers)
    {saved : RuntimeEventCheckpoint}
    → 0 < t
    → (save_runtime_event_checkpoint db t consumer gen c k).1 ≡ ok saved
    → let k' = (save_runtime_event_checkpoint db t consumer gen c k).0 in
      (row_saved db t (trim consumer) (trim gen) c k ≡ saved)
      × (lookup (trim consumer) k'.table ≡ some (row_saved db t (trim consumer) (trim gen) c k))
      × (k'.feed ≡ k.feed)
      × (is_empty_str (trim consumer) ≡ false)
unfolding save_runtime_event_checkpoint enrich saved_row
save_left db t consumer gen c k begun e =
    let (through, named) =
      past_gates (is_empty_str (trim consumer)) (is_empty_str (trim gen)) db.loads _ _ _ _ (λ x. cc)
        (λ x. cc) (λ x. cc) e in
    let row = row_saved db t (trim consumer) (trim gen) c k in
    let (same, found, feed) =
      wrote_row db (lookup (trim consumer) k.table) row k begun (ap (λ x. x.1) (sym through) ∙ e) in
    (
      same,
      ap (λ (x : Reply). lookup (trim consumer) x.0.table) through ∙ found,
      ap (λ (x : Reply). x.0.feed) through ∙ feed,
      named,
    )

row_saved_fields :
    (db : Sqlite) (t : ℕ) (id gen : String) (c : ℕ) (k : Consumers)
    → let row = row_saved db t id gen c k in
      (row.consumer_id ≡ id)
      × (row.generation ≡ gen)
      × (row.seq ≡ min c k.feed.seq)
      × (row.updated_at_unix_ms ≡ t)
      × (row.revision
          ≡ some
              (saturating_add (unwrap_or (option_bind (lookup id k.table) (λ p. p.revision)) 0) 1))
unfolding enrich saved_row
row_saved_fields db t id gen c k = (refl, refl, refl, refl, ap some (omega arith))

-- A checkpoint that was saved at `t`, a time other than 0, and is loaded with nothing in between, is
-- what the save returned, with its hints as they are now and the time of the read, until seven days
-- are over; from then on the consumer has none. The row bears the trimmed names, a number no later
-- than the last event, and the revision after the one before.
pub save-load :
    (db db' : Sqlite) (t now : ℕ) (consumer gen : String) (c : ℕ) (k : Consumers)
    (saved : RuntimeEventCheckpoint)
    → 0 < t
    → (save_runtime_event_checkpoint db t consumer gen c k).1 ≡ ok saved
    → db'.loads ≡ true
    → db'.deletes ≡ true
    → db'.saves (trim consumer) ≡ true
    → let k' = (save_runtime_event_checkpoint db t consumer gen c k).0 in
      ((runtime_event_checkpoint db' now consumer k').1 ≡ (
        if leb (saturating_add t checkpoint_ttl_ms) now
        then ok none
        else ok (some (enrich k.feed db'.stats (some now) saved))))
      × (saved.generation ≡ trim gen)
      × (saved.seq ≡ min c k.feed.seq)
      × (saved.revision
          ≡ some (
              saturating_add
                (unwrap_or (option_bind (lookup (trim consumer) k.table) (λ p. p.revision)) 0)
                1))
unfolding is_expired
save-load db db' t now consumer gen c k saved begun e loads deletes saves =
    let k' = (save_runtime_event_checkpoint db t consumer gen c k).0 in
    let (same, found, feed, named) = save_left db t consumer gen c k begun e in
    let (id_is, gen_is, seq_is, at_is, revision_is) =
      row_saved_fields db t (trim consumer) (trim gen) c k in
    let id_saved : saved.consumer_id ≡ trim consumer = ap (λ r. r.consumer_id) (sym same) ∙ id_is in
    let at_saved : saved.updated_at_unix_ms ≡ t =
      ap (λ r. r.updated_at_unix_ms) (sym same) ∙ at_is in
    let k1 : Consumers = record k' { metrics = note_load k'.metrics } in
    (
      load_found db' now consumer saved k' named loads (found ∙ ap some same)
          ∙ read_live db' now (trim consumer) saved k1 deletes (ap db'.saves id_saved ∙ saves)
          ∙ ap
              (λ x.
                if leb (saturating_add x checkpoint_ttl_ms) now
                then ok none
                else ok (some (enrich k'.feed db'.stats (some now) saved)))
              at_saved
          ∙ ap
              (λ s.
                if leb (saturating_add t checkpoint_ttl_ms) now
                then ok none
                else ok (some (enrich s db'.stats (some now) saved)))
              feed,
      ap (λ r. r.generation) (sym same) ∙ gen_is,
      ap (λ r. r.seq) (sym same) ∙ seq_is,
      ap (λ r. r.revision) (sym same) ∙ revision_is,
    )
