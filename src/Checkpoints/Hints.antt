-- ===== src/Checkpoints/Hints.antt =====
-- The hint that state.rs writes into a checkpoint, against what the feed does with its cursor.
use dash_drop.Base.{
  ℕ, String, true, none, some, List, ◌≡◌, ◌≢◌, ◌↔◌, sym, ◌∙◌, ◌≤◌, ◌<◌, nat_eq, string_eq, leb,
  if◌then◌else◌, length, arith, Bool-cases, Option-cases, inl, inr, beq_refl,
}
use dash_drop.Types.Checkpoint.{
  RecoveryHint, up_to_date, hot_window, persisted_catch_up, resync_required,
}
use dash_drop.Feed.{RuntimeEventEnvelope, Feed, cursor_reason, needs_persisted_catch_up}
use dash_drop.Feed.Replay.{Holds}
use dash_drop.Feed.Oldest.{
  memory_oldest_is, persisted_oldest_is, cursor_reason_iff, needs_persisted_catch_up_is,
}
use dash_drop.Feed.Cursor.{Recorded, Recorded-Holds}
use dash_drop.Checkpoints.{recovery_hint_of}

abbrev pub hint_at : ℕ → ℕ → ℕ → ℕ → RecoveryHint
hint_at latest from_memory from_journal seq =
    if leb latest seq
    then up_to_date
    else if leb from_memory seq
    then hot_window
    else if leb from_journal seq
    then persisted_catch_up
    else resync_required

not_needed :
    (seq : ℕ) (s : Feed) (why : String)
    → cursor_reason seq s ≡ some why
    → needs_persisted_catch_up seq s ≡ true
    → ⊥
unfolding needs_persisted_catch_up
not_needed seq s why refused e = ground (arith, e, refused)

module _ (recorded : List RuntimeEventEnvelope) (s : Feed) (h : Holds recorded s)
    (pos : 0 < length recorded) where
  pub recovery_hint_is :
      (seq : ℕ)
      → recovery_hint_of s s.generation seq
        ≡ hint_at (length recorded) h.from_memory h.from_journal seq
  unfolding recovery_hint_of
  recovery_hint_is seq =
      rw
        (
          beq_refl s.generation,
          memory_oldest_is recorded s h pos,
          persisted_oldest_is recorded s h pos,
          h.latest,
        )
        (ground arith)

  module _ (seq : ℕ) (later : 0 < seq) (le : seq ≤ length recorded) where
    hint_resync :
        (recovery_hint_of s s.generation seq ≡ resync_required) ↔ (cursor_reason seq s ≢ none)
    hint_resync = (
      (λ e fine.
          let served = (cursor_reason_iff recorded s h pos seq later).0 fine in
          let e' = sym (recovery_hint_is seq) ∙ e in ground (arith, served.1, h.journaled pos)),
      (λ refused. elim (Bool-cases (leb h.from_journal seq)) [
        | inl reached ↦
            absurd (refused ((cursor_reason_iff recorded s h pos seq later).1 (le, ground arith)))
        | inr short ↦
            recovery_hint_is seq ∙ ground (arith, h.journaled pos, short, h.keeps, h.remembers)
      ]),
    )

    hint_catch_up :
        (recovery_hint_of s s.generation seq ≡ persisted_catch_up)
        ↔ (needs_persisted_catch_up seq s ≡ true)
    hint_catch_up =
        let served = cursor_reason_iff recorded s h pos seq later in
        let needs = needs_persisted_catch_up_is recorded s h pos seq later in
        (
          (λ e.
              let e' = sym (recovery_hint_is seq) ∙ e in
              needs (served.1 (le, ground arith)) ∙ ground arith),
          (λ e. elim (Option-cases (cursor_reason seq s)) [
            | inl fine ↦
                let near = sym (needs fine) ∙ e in
                recovery_hint_is seq ∙ ground (arith, served.0 fine, h.shown pos)
            | inr (why, refused) ↦ absurd (not_needed seq s why refused e)
          ]),
        )

-- For a consumer of a feed whose events the journal took, at a number that was recorded and is not
-- 0: the hint says `resync_required` exactly where a read from that number is refused, and
-- `persisted_catch_up` exactly where a read goes to the journal.
pub recovery_hint-cursor_reason :
    (recorded : List RuntimeEventEnvelope) (s : Feed) (seq : ℕ)
    → Recorded recorded s
    → 0 < seq
    → seq ≤ length recorded
    → ((recovery_hint_of s s.generation seq ≡ resync_required) ↔ (cursor_reason seq s ≢ none))
      × ((recovery_hint_of s s.generation seq ≡ persisted_catch_up)
          ↔ (needs_persisted_catch_up seq s ≡ true))
recovery_hint-cursor_reason recorded s seq run later le =
    let h = Recorded-Holds run in
    let pos : 0 < length recorded = omega arith in
    (hint_resync recorded s h pos seq later le, hint_catch_up recorded s h pos seq later le)
