-- ===== src/Feed/Oldest.antt =====
-- The oldest events that the feed of state.rs and its journal hold, and the cursors that they serve.
use dash_drop.Base.{
  ℕ, suc, none, some, List, [], ◌∷◌, ◌≡◌, ◌↔◌, ◌∙◌, ap, ◌≤◌, ◌<◌, ◌+◌, nat_eq, ltb, length, first,
  unwrap_or, option_map, arith,
}
use dash_drop.Feed.{
  RuntimeEventEnvelope, Feed, min_seq, memory_oldest, persisted_oldest, cursor_reason,
  needs_persisted_catch_up,
}
use dash_drop.Feed.Replay.{drop, Numbered, length-drop, drop-Numbered, Holds}

first_number :
    (k : ℕ) (es : List RuntimeEventEnvelope)
    → Numbered k es
    → 0 < length es
    → option_map (λ (e : RuntimeEventEnvelope). e.seq) (first es) ≡ some (suc k)
first_number k [] h pos = absurd (omega arith)
first_number k (e ∷ es) h pos = ap some h.0

min_number :
    (k : ℕ) (es : List RuntimeEventEnvelope)
    → Numbered k es
    → 0 < length es
    → min_seq es ≡ some (suc k)
unfolding min_seq
min_number k [] h pos = absurd (omega arith)
min_number k (e ∷ []) h pos = ap some h.0
min_number k (e ∷ x ∷ es) h pos =
    rw (min_number (suc k) (x ∷ es) h.1 (omega arith)) (ap some (omega (arith, h.0)))

module _ (recorded : List RuntimeEventEnvelope) (s : Feed) (h : Holds recorded s)
    (pos : 0 < length recorded) where
  pub memory_oldest_is : memory_oldest s ≡ some (suc h.from_memory)
  memory_oldest_is =
      ap (λ es. option_map (λ (e : RuntimeEventEnvelope). e.seq) (first es)) h.memory
      ∙ first_number (0 + h.from_memory) (drop h.from_memory recorded)
          (drop-Numbered h.from_memory 0 recorded h.numbered)
          (omega (arith, length-drop h.from_memory recorded, h.shown pos))
      ∙ ap (λ n. some (suc n)) (omega arith)

  persisted_seq_is : s.persisted_oldest_seq ≡ suc h.from_journal
  persisted_seq_is =
      h.oldest
      ∙ ap (λ es. unwrap_or (min_seq es) 0) h.kept
      ∙ ap (λ o. unwrap_or o 0)
          (min_number (0 + h.from_journal) (drop h.from_journal recorded)
            (drop-Numbered h.from_journal 0 recorded h.numbered)
            (omega (arith, length-drop h.from_journal recorded, h.journaled pos)))
      ∙ omega arith

  pub persisted_oldest_is : persisted_oldest s ≡ some (suc h.from_journal)
  persisted_oldest_is = rw persisted_seq_is (ground arith)

  -- A cursor other than 0 is served exactly where the journal reaches back to it, up to the last
  -- event.
  pub cursor_reason_iff :
      (after : ℕ)
      → 0 < after
      → (cursor_reason after s ≡ none) ↔ ((after ≤ length recorded) × (h.from_journal ≤ after))
  unfolding cursor_reason
  cursor_reason_iff after later =
      rw (persisted_oldest_is, memory_oldest_is, h.latest) (ground arith)

  pub needs_persisted_catch_up_is :
      (after : ℕ)
      → 0 < after
      → cursor_reason after s ≡ none
      → needs_persisted_catch_up after s ≡ ltb after h.from_memory
  unfolding needs_persisted_catch_up
  needs_persisted_catch_up_is after later fine = rw (fine, memory_oldest_is) (ground arith)

-- A cursor that is served lies behind an event.
pub cursor_reason-pos :
    (after : ℕ) (s : Feed) {n : ℕ} → 0 < after → cursor_reason after s ≡ none → s.seq ≡ n → 0 < n
unfolding cursor_reason
cursor_reason-pos after s later fine latest = ground (arith, fine, latest)
