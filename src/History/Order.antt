-- ===== src/History/Order.antt =====
-- The order in which rows of the history supersede one another, and what `save_transfer` keeps.
use dash_drop.Base.{
  ℕ, String, Bool, true, false, Option, none, some, ◌≡◌, refl, ◌⊎◌, inl, inr, ◌≤◌, ◌<◌, lookup,
  insert, arith, string_eq, Bool-cases, insert_cases, lookup-insert_self,
}
use dash_drop.Types.Transfer.{TransferTask, is_terminal}
use dash_drop.History.{
  Row, Table, Access, row_of, supersedes, should_persist_transfer, save_transfer,
}

-- `new` may replace `old`: a later revision, or the same with no step back.
abbrev pub Supersedes : Row → Row → Type 0
Supersedes old new =
    (old.revision < new.revision)
    ⊎ ((old.revision ≡ new.revision)
        × (is_terminal old.status ≡ true → is_terminal new.status ≡ true)
        × (old.bytes_transferred ≤ new.bytes_transferred))

abbrev pub SupersedesAt : Option Row → Option Row → Type 0
SupersedesAt none o = Unit
SupersedesAt (some old) none = ⊥
SupersedesAt (some old) (some new) = Supersedes old new

supersedes_sound :
    (t : TransferTask) (now : ℕ) (old : Row)
    → supersedes t old ≡ true
    → Supersedes old (row_of now t)
unfolding supersedes row_of
supersedes_sound t now old h = ground arith

pub SupersedesAt-refl : (o : Option Row) → SupersedesAt o o
SupersedesAt-refl none = tt
SupersedesAt-refl (some r) = inr (refl, (λ h. h), omega arith)

Supersedes-trans : (a b c : Row) → Supersedes a b → Supersedes b c → Supersedes a c
Supersedes-trans a b c p q = ground arith

pub SupersedesAt-trans :
    (a b c : Option Row) → SupersedesAt a b → SupersedesAt b c → SupersedesAt a c
SupersedesAt-trans none b c p q = tt
SupersedesAt-trans (some a) (some b) (some c) p q = Supersedes-trans a b c p q
SupersedesAt-trans (some a) (some b) none p q = absurd q
SupersedesAt-trans (some a) none c p q = absurd p

guarded :
    (now : ℕ) (t : TransferTask) (table : Table) (o : Option Row)
    → lookup t.id table ≡ o
    → should_persist_transfer true t table ≡ true
    → SupersedesAt o (some (row_of now t))
unfolding should_persist_transfer
guarded now t table none e h = tt
guarded now t table (some old) e h = supersedes_sound t now old (ground arith)

written :
    (now : ℕ) (t : TransferTask) (table : Table) (key : String)
    → should_persist_transfer true t table ≡ true
    → SupersedesAt (lookup key table) (lookup key (insert t.id (row_of now t) table))
written now t table key h =
    insert_cases (SupersedesAt (lookup key table)) t.id key (row_of now t) table
      (λ same. guarded now t table (lookup key table) (rw same refl) h)
      (λ other. SupersedesAt-refl (lookup key table))

abbrev pub reading : Bool → Access
reading write_ok = record { read_ok = true; write_ok = write_ok }

-- While the query is answered, a save never takes the row of any transfer back: its revision does
-- not fall, and at one revision a terminal row stays terminal and the bytes do not fall.
pub save_transfer-Supersedes :
    (write_ok : Bool) (now : ℕ) (t : TransferTask) (table : Table) (key : String)
    → SupersedesAt (lookup key table) (lookup key (save_transfer (reading write_ok) now t table).0)
unfolding save_transfer
save_transfer-Supersedes false now t table key =
    elim (Bool-cases (should_persist_transfer true t table)) [
      | inl h ↦ rw h (SupersedesAt-refl (lookup key table))
      | inr h ↦ rw h (SupersedesAt-refl (lookup key table))
    ]
save_transfer-Supersedes true now t table key =
    elim (Bool-cases (should_persist_transfer true t table)) [
      | inl h ↦ rw h (written now t table key h)
      | inr h ↦ rw h (SupersedesAt-refl (lookup key table))
    ]

-- The row is of a later revision than the task or, at the same one, of a transfer that has ended or
-- with at least the bytes of the task.
abbrev pub IsUpToDate : TransferTask → Row → Type 0
IsUpToDate t r =
    (t.revision < r.revision)
    ⊎ ((t.revision ≡ r.revision)
        × ((is_terminal r.status ≡ true) ⊎ (t.bytes_transferred ≤ r.bytes_transferred)))

pub IsUpToDate-Supersedes :
    (t : TransferTask) (r q : Row) → Supersedes r q → IsUpToDate t r → IsUpToDate t q
IsUpToDate-Supersedes t r q s h = ground arith

not_superseded : (t : TransferTask) (old : Row) → supersedes t old ≡ false → IsUpToDate t old
unfolding supersedes
not_superseded t old h = ground arith

refused :
    (now : ℕ) (t : TransferTask) (table : Table) (o : Option Row)
    → lookup t.id table ≡ o
    → should_persist_transfer true t table ≡ false
    → (r : Row) × (lookup t.id table ≡ some r)
      × IsUpToDate t r
      × ((r ≡ row_of now t) ⊎ (lookup t.id table ≡ some r))
unfolding should_persist_transfer
refused now t table none e h = ground arith
refused now t table (some old) e h = (old, e, not_superseded t old (ground arith), inr e)

-- After a save that reached the table, its row is up to date with the task that was given.
pub save_transfer-latest :
    (now : ℕ) (t : TransferTask) (table : Table)
    → (r : Row) × (lookup t.id (save_transfer (reading true) now t table).0 ≡ some r)
      × IsUpToDate t r
      × ((r ≡ row_of now t) ⊎ (lookup t.id table ≡ some r))
unfolding save_transfer
save_transfer-latest now t table = elim (Bool-cases (should_persist_transfer true t table)) [
  | inl h ↦ rw h (
    row_of now t,
    lookup-insert_self t.id (row_of now t) table,
    unfold row_of in inr (refl, inr (omega arith)),
    inl refl,
  )
  | inr h ↦ rw h (refused now t table (lookup t.id table) refl h)
]
