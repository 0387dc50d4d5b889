-- ===== src/Progress/Deadlines.antt =====
-- The timer and the end of the worker of persistence_progress.rs: what was due is written, and
-- nothing that is due stays.
use mathlib.Core.List.{Memᴰ}
use dash_drop.Base.{
  ℕ, String, true, false, Option, none, some, List, [], ◌∷◌, ◌≡◌, refl, sym, ◌∙◌, subst, ◌≢◌,
  string_eq, lookup, remove, arith, Option-cases, Bool-cases, inl, inr, ◌==◌, lookup-remove_self,
  lookup-remove_ne, lookup-insert_self, lookup-insert_ne,
}
use dash_drop.Types.Transfer.{TransferTask, is_terminal}
use dash_drop.History.{Row, Table, save_transfer}
use dash_drop.History.Order.{
  SupersedesAt, reading, save_transfer-latest, IsUpToDate, IsUpToDate-Supersedes,
}
use dash_drop.Progress.{
  Worker, Moment, PendingTransfer, PersistReason, Input, interval, sync_pending_transfer_count,
  persist_task, flush_entry, flush_transfer_by_id, flush_ids, is_due, due_ids, pending_ids,
  flush_due_entries, flush_all_entries, rounds, run_worker, flushed,
}
use dash_drop.Progress.Writes.{flush_ids-Keeps}

-- The history holds a row that is up to date with the task.
abbrev pub Written : TransferTask → Table → Type 0
Written t table = (r : Row) × (lookup t.id table ≡ some r) × IsUpToDate t r

Written-mono :
    (t : TransferTask) (a b : Table)
    → SupersedesAt (lookup t.id a) (lookup t.id b)
    → Written t a
    → Written t b
Written-mono t a b s (r, found, late) = go (lookup t.id b) refl
  where
    go : (o : Option Row) → lookup t.id b ≡ o → Written t b
    go none e =
        absurd
          (subst (SupersedesAt (some r)) e (subst (λ x. SupersedesAt x (lookup t.id b)) found s))
    go (some q) e = (
      q,
      e,
      IsUpToDate-Supersedes t r q
          (subst (SupersedesAt (some r)) e (subst (λ x. SupersedesAt x (lookup t.id b)) found s))
          late,
    )

-- No entry, or one that is not due.
abbrev pub Quiet : ℕ → Option PendingTransfer → Type 0
Quiet now none = Unit {0}
Quiet now (some e) = is_due now e.deadline ≡ false

module _ (m : Moment) (reason : PersistReason) (w : Worker) where
  pending-flush_other :
      (id k : String)
      → id ≢ k
      → lookup k (flush_transfer_by_id m id reason w).pending ≡ lookup k w.pending
  unfolding flush_transfer_by_id flush_entry persist_task sync_pending_transfer_count
  pending-flush_other id k h = elim (Option-cases (lookup id w.pending)) [
    | inl e ↦ rw (e, flush_transfer_by_id)
    | inr (e, found) ↦
        rw (found, flush_transfer_by_id)
          (elim (Bool-cases (is_terminal e.latest.status)) [
            | inl done ↦ rw done (lookup-remove_ne id k w.pending h)
            | inr live ↦ rw live (
                lookup-insert_ne id k (flushed e) (remove id w.pending) h
                ∙ lookup-remove_ne id k w.pending h)
          ])
  ]

  pending-flush_self :
      (id : String) (now : ℕ) → Quiet now (lookup id (flush_transfer_by_id m id reason w).pending)
  unfolding flush_transfer_by_id flush_entry persist_task sync_pending_transfer_count
  pending-flush_self id now = elim (Option-cases (lookup id w.pending)) [
    | inl e ↦ rw (e, flush_transfer_by_id) (rw e tt)
    | inr (e, found) ↦
        rw (found, flush_transfer_by_id)
          (elim (Bool-cases (is_terminal e.latest.status)) [
            | inl done ↦ rw done (rw (lookup-remove_self id w.pending) tt)
            | inr live ↦ rw live (rw (lookup-insert_self id (flushed e) (remove id w.pending)) refl)
          ])
  ]

  flush-Written :
      (id : String) (e : PendingTransfer)
      → m.access ≡ reading true
      → lookup id w.pending ≡ some e
      → Written e.latest (flush_transfer_by_id m id reason w).table
  unfolding flush_transfer_by_id flush_entry persist_task sync_pending_transfer_count
  flush-Written id e ok found =
      rw (found, flush_transfer_by_id)
        (elim (Bool-cases (is_terminal e.latest.status)) [
          | inl done ↦ rw (done, ok) written
          | inr live ↦ rw (live, ok) written
        ])
    where
      written : Written e.latest (save_transfer (reading true) m.unix_secs e.latest w.table).0
      written = let s = save_transfer-latest m.unix_secs e.latest w.table in (s.0, s.1, s.2)

Quiet-flush :
    (m : Moment) (reason : PersistReason) (id k : String) (now : ℕ) (w : Worker)
    → Quiet now (lookup k w.pending)
    → Quiet now (lookup k (flush_transfer_by_id m id reason w).pending)
Quiet-flush m reason id k now w h = elim (Bool-cases (id == k)) [
  | inl same ↦
      subst (λ j. Quiet now (lookup j (flush_transfer_by_id m id reason w).pending))
        ((string_eq.eqb_iff id k).0 same) (pending-flush_self m reason w id now)
  | inr other ↦
      rw (pending-flush_other m reason w id k (λ p. ground (arith, string_eq.eqb_iff id k))) h
]

Quiet-flush_ids :
    (m : Moment) (ids : List String) (k : String) (now : ℕ) (w : Worker)
    → Quiet now (lookup k w.pending)
    → Quiet now (lookup k (flush_ids m ids w).pending)
unfolding flush_ids
Quiet-flush_ids m [] k now w h = h
Quiet-flush_ids m (id ∷ ids) k now w h =
    Quiet-flush_ids m ids k now _ (Quiet-flush m interval id k now w h)

Quiet-listed :
    (m : Moment) (ids : List String) (k : String) (now : ℕ) (w : Worker)
    → Memᴰ k ids
    → Quiet now (lookup k (flush_ids m ids w).pending)
unfolding flush_ids
Quiet-listed m [] k now w h = elim h [ ]
Quiet-listed m (id ∷ ids) k now w (Memᴰ.head p) = Quiet-flush_ids m ids k now _ (
    subst (λ j. Quiet now (lookup k (flush_transfer_by_id m j interval w).pending)) p
      (pending-flush_self m interval w k now))
Quiet-listed m (id ∷ ids) k now w (Memᴰ.tail h) = Quiet-listed m ids k now _ h

mem-rest : (a x : String) (xs : List String) → a ≢ x → Memᴰ a (x ∷ xs) → Memᴰ a xs
mem-rest a x xs h (Memᴰ.head p) = absurd (h p)
mem-rest a x xs h (Memᴰ.tail t) = t

-- What is listed is written, also when it is flushed after others.
listed-Written :
    (m : Moment) (ids : List String) (k : String) (e : PendingTransfer) (w : Worker)
    → m.access ≡ reading true
    → Memᴰ k ids
    → lookup k w.pending ≡ some e
    → Written e.latest (flush_ids m ids w).table
unfolding flush_ids
listed-Written m [] k e w ok h found = elim h [ ]
listed-Written m (id ∷ ids) k e w ok h found = elim (Bool-cases (id == k)) [
  | inl same ↦ Written-mono e.latest _ _ ((flush_ids-Keeps m ids _ (rw ok)).rows e.latest.id) (
      flush-Written m interval w id e ok
        (subst (λ j. lookup j w.pending ≡ some e) (sym ((string_eq.eqb_iff id k).0 same)) found))
  | inr other ↦
      listed-Written m ids k e _ ok
        (mem-rest k id ids (λ p. ground (arith, string_eq.eqb_iff id k)) h)
        (pending-flush_other m interval w id k (λ p. ground (arith, string_eq.eqb_iff id k))
          ∙ found)
]

due_ids-mem :
    (now : ℕ) (k : String) (e : PendingTransfer) (p : List (String × PendingTransfer))
    → lookup k p ≡ some e
    → is_due now e.deadline ≡ true
    → Memᴰ k (due_ids now p)
unfolding due_ids lookup
due_ids-mem now k e [] found due = absurd (cc)
due_ids-mem now k e ((j, w) ∷ p) found due = elim (Bool-cases (j == k)) [
  | inl same ↦
      let at_head : w ≡ e = ground arith in
      rw (subst {A = PendingTransfer} (λ x. is_due now x.deadline ≡ true) (sym at_head) due)
        (Memᴰ.head (sym ((string_eq.eqb_iff j k).0 same)))
  | inr other ↦ elim (Bool-cases (is_due now w.deadline)) [
    | inl here ↦ rw here (Memᴰ.tail (due_ids-mem now k e p (ground arith) due))
    | inr not_here ↦ rw not_here (due_ids-mem now k e p (ground arith) due)
  ]
]

pending_ids-mem :
    (k : String) (e : PendingTransfer) (p : List (String × PendingTransfer))
    → lookup k p ≡ some e
    → Memᴰ k (pending_ids p)
unfolding pending_ids lookup
pending_ids-mem k e [] found = absurd (cc)
pending_ids-mem k e ((j, w) ∷ p) found = elim (Bool-cases (j == k)) [
  | inl same ↦ Memᴰ.head (sym ((string_eq.eqb_iff j k).0 same))
  | inr other ↦ Memᴰ.tail (pending_ids-mem k e p (ground arith))
]

-- When the timer fires, every entry whose deadline has come is in the history afterwards, by a row
-- that is up to date with its task, if SQLite answers and writes.
pub flush_due_entries-Written :
    (m : Moment) (k : String) (e : PendingTransfer) (w : Worker)
    → m.access ≡ reading true
    → lookup k w.pending ≡ some e
    → is_due m.instant e.deadline ≡ true
    → Written e.latest (flush_due_entries m w).table
unfolding flush_due_entries
flush_due_entries-Written m k e w ok found due =
    listed-Written m (due_ids m.instant w.pending) k e w ok
      (due_ids-mem m.instant k e w.pending found due) found

-- After the timer has fired no entry is due, so the loop does not spin on a past deadline.
pub flush_due_entries-Quiet :
    (m : Moment) (k : String) (w : Worker)
    → Quiet m.instant (lookup k (flush_due_entries m w).pending)
unfolding flush_due_entries
flush_due_entries-Quiet m k w = elim (Option-cases (lookup k w.pending)) [
  | inl e ↦ Quiet-flush_ids m _ k m.instant w (rw e tt)
  | inr (e, found) ↦ elim (Bool-cases (is_due m.instant e.deadline)) [
    | inl due ↦ Quiet-listed m _ k m.instant w (due_ids-mem m.instant k e w.pending found due)
    | inr later ↦ Quiet-flush_ids m _ k m.instant w (rw found later)
  ]
]

-- When the channel closes and SQLite then answers and writes, every entry that is still pending is
-- in the history when the worker ends: the row of its transfer is of a later revision than its last
-- task or, at the same one, of a transfer that has ended or with at least the bytes of that task.
pub run_worker-Written :
    (is : List (Moment × Input)) (closing : Moment) (w : Worker) (k : String) (e : PendingTransfer)
    → closing.access ≡ reading true
    → lookup k (rounds is w).pending ≡ some e
    → Written e.latest (run_worker is closing w).table
unfolding run_worker flush_all_entries
run_worker-Written is closing w k e ok found =
    listed-Written closing (pending_ids (rounds is w).pending) k e (rounds is w) ok
      (pending_ids-mem k e (rounds is w).pending found) found
