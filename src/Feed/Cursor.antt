-- ===== src/Feed/Cursor.antt =====
-- What a consumer of the feed of state.rs is given from its cursor on.
use dash_drop.Base.{
  ℕ, zero, suc, String, Bool, true, false, Option, none, some, List, [], ◌∷◌, ◌≡◌, refl, sym, ◌∙◌,
  ap, ◌≤◌, ◌<◌, ◌+◌, ◌-◌, ◌==◌, nat_eq, ltb, length, take, filter, is_empty, arith, Bool-cases,
  Option-cases, inl, inr,
}
use dash_drop.Feed.{
  RuntimeEventEnvelope, Feed, min_seq, push_event, record_runtime_event, cursor_reason,
  needs_persisted_catch_up, is_after, load_runtime_events_after, fetch_events, resync_reason_of,
  runtime_events_since,
}
use dash_drop.Feed.Oldest.{cursor_reason_iff, needs_persisted_catch_up_is}
use dash_drop.Feed.Replay.{
  drop, Numbered, length-drop, drop-Numbered, drop-drop, filter-drop, Holds, next_event,
  record_runtime_event-Holds,
}

abbrev pub new_feed : String → Feed
new_feed generation = record {
  generation = generation;
  seq = 0;
  feed = [];
  journal = [];
  persisted_oldest_seq = 0;
}

-- A feed that was new and has recorded these events, each of which the journal took.
pub data Recorded : List RuntimeEventEnvelope → Feed → Type 0 where
  at_start : (generation : String) → Recorded [] (new_feed generation)
  one_more :
      {recorded : List RuntimeEventEnvelope} {s : Feed}
      → Recorded recorded s
      → (now : ℕ) (pin : Option ℕ) (event payload : String)
      → Recorded
          (push_event (next_event now event payload s) recorded)
          (record_runtime_event true now pin event payload s)

pub Recorded-Holds :
    {recorded : List RuntimeEventEnvelope} {s : Feed} → Recorded recorded s → Holds recorded s
unfolding min_seq
Recorded-Holds (at_start generation) = record {
  numbered = tt;
  latest = refl;
  from_memory = 0;
  memory = refl;
  in_memory = omega arith;
  shown = λ h. absurd (omega arith);
  from_journal = 0;
  kept = refl;
  in_journal = omega arith;
  journaled = λ h. absurd (omega arith);
  remembers = omega arith;
  keeps = omega arith;
  oldest = refl;
}
Recorded-Holds (one_more {recorded} {s} before now pin event payload) =
    record_runtime_event-Holds now pin event payload recorded s (Recorded-Holds before)

-- From a place before the cursor on, the filter drops up to the cursor.
from_place :
    (n after : ℕ) (recorded : List RuntimeEventEnvelope)
    → Numbered 0 recorded
    → n ≤ after
    → filter (is_after after) (drop n recorded) ≡ drop after recorded
from_place n after recorded h le =
    filter-drop after (0 + n) (drop n recorded) (drop-Numbered n 0 recorded h)
    ∙ drop-drop n (after - (0 + n)) recorded
    ∙ ap (λ m. drop m recorded) (omega arith)

some-none : {x : String} → some x ≡ none → ⊥
some-none h = cc

true-false : true ≡ false → ⊥
true-false h = cc

take_some :
    (n : ℕ) (es : List RuntimeEventEnvelope) → 0 < n → 0 < length es → is_empty (take n es) ≡ false
take_some zero es pos some_left = absurd (omega arith)
take_some (suc n) [] pos some_left = absurd (omega arith)
take_some (suc n) (e ∷ es) pos some_left = refl

module _ (recorded : List RuntimeEventEnvelope) (s : Feed) (h : Holds recorded s) (after : ℕ)
    (pos : 0 < after) (fine : cursor_reason after s ≡ none) where
  some_event : 0 < length recorded
  unfolding cursor_reason
  some_event = ground (arith, fine, h.latest)

  served : (after ≤ length recorded) × (h.from_journal ≤ after)
  served = (cursor_reason_iff recorded s h some_event after pos).0 fine

  catch_up_is : needs_persisted_catch_up after s ≡ ltb after h.from_memory
  catch_up_is = needs_persisted_catch_up_is recorded s h some_event after pos fine

  -- What is read, from either side, before the limit.
  from_journal_is :
      needs_persisted_catch_up after s ≡ true
      → filter (is_after after) s.journal ≡ drop after recorded
  from_journal_is needs =
      ap (filter (is_after after)) h.kept
      ∙ from_place h.from_journal after recorded h.numbered served.1

  from_memory_is :
      needs_persisted_catch_up after s ≡ false
      → filter (is_after after) s.feed ≡ drop after recorded
  from_memory_is no_need =
      let long_enough : ltb after h.from_memory ≡ false = sym catch_up_is ∙ no_need in
      ap (filter (is_after after)) h.memory
      ∙ from_place h.from_memory after recorded h.numbered (ground arith)

  fetched_is : (limit : ℕ) → (fetch_events true after limit s).1 ≡ none
  unfolding fetch_events
  fetched_is limit = rw fine (ground arith)

  -- The events that are found.
  found_is :
      (loads : Bool) (limit : ℕ)
      → (fetch_events loads after limit s).1 ≡ none
      → (fetch_events loads after limit s).0 ≡ take limit (drop after recorded)
  unfolding fetch_events load_runtime_events_after
  found_is loads limit e = elim (Bool-cases (limit == 0)) [
    | inl zero_limit ↦
        rw (fine, zero_limit)
          (ap (λ n. take n (drop after recorded)) (sym ((nat_eq.eqb_iff limit 0).0 zero_limit)))
    | inr some_limit ↦ elim (Bool-cases (needs_persisted_catch_up after s)) [
      | inl needs ↦ elim (Bool-cases loads) [
        | inl answers ↦
            rw (fine, some_limit, needs, answers) (ap (take limit) (from_journal_is needs))
        | inr silent ↦ absurd (some-none (rw (fine, some_limit, needs, silent) at e))
      ]
      | inr no_need ↦ rw (fine, some_limit, no_need) (ap (take limit) (from_memory_is no_need))
    ]
  ]

  -- With a journal that answers and a limit, the cursor is served.
  pub served_is :
      (limit : ℕ)
      → 0 < limit
      → ((runtime_events_since true after limit s).resync_required ≡ false)
        × ((runtime_events_since true after limit s).events ≡ take limit (drop after recorded))
  unfolding runtime_events_since resync_reason_of
  served_is limit some_limit =
      let fetched : (fetch_events true after limit s).1 ≡ none = fetched_is limit in
      let found = found_is true limit fetched in
      let all = drop after recorded in
      let calm : resync_reason_of true after limit s (take limit all) none ≡ none =
        elim (Bool-cases (ltb after s.seq)) [
          | inl more ↦
              let some_left =
                take_some limit all some_limit
                  (ground (arith, h.latest, length-drop after recorded, more)) in
              ground (arith, some_left)
          | inr at_end ↦ ground (arith, at_end)
        ] in
      rw (fetched, found, calm) (refl, refl)

kept_reason :
    (loads : Bool) (after limit : ℕ) (s : Feed) (found : List RuntimeEventEnvelope) (r : String)
    → resync_reason_of loads after limit s found (some r) ≡ some r
unfolding resync_reason_of
kept_reason loads after limit s found r = elim (Bool-cases (needs_persisted_catch_up after s)) [
  | inl needs ↦ rw needs refl
  | inr no_need ↦ rw no_need refl
]

fetch_refused :
    (loads : Bool) (after limit : ℕ) (s : Feed) (r : String)
    → cursor_reason after s ≡ some r
    → fetch_events loads after limit s ≡ ([], some r)
unfolding fetch_events
fetch_refused loads after limit s r e = elim (Bool-cases (limit == 0)) [
  | inl zero_limit ↦ rw (e, zero_limit) refl
  | inr some_limit ↦ rw (e, some_limit) refl
]

abbrev reason : Bool → ℕ → ℕ → Feed → Option String
reason loads after limit s =
    let (found, why) = fetch_events loads after limit s in
    resync_reason_of loads after limit s found why

-- A reply without a resync has no reason at any place.
no_reason :
    (loads : Bool) (after limit : ℕ) (s : Feed)
    → reason loads after limit s ≡ none
    → (cursor_reason after s ≡ none) × ((fetch_events loads after limit s).1 ≡ none)
no_reason loads after limit s e = (
  elim (Option-cases (cursor_reason after s)) [
    | inl fine ↦ fine
    | inr (r, bad) ↦ absurd (
        some-none (
          sym (kept_reason loads after limit s [] r)
          ∙ ap
              (λ (f : List RuntimeEventEnvelope × Option String).
                resync_reason_of loads after limit s f.0 f.1)
              (sym (fetch_refused loads after limit s r bad))
          ∙ e))
  ],
  elim (Option-cases (fetch_events loads after limit s).1) [
    | inl fine ↦ fine
    | inr (r, bad) ↦ absurd (
        some-none (
          sym (kept_reason loads after limit s (fetch_events loads after limit s).0 r)
          ∙ ap (resync_reason_of loads after limit s (fetch_events loads after limit s).0) (sym bad)
          ∙ e))
  ],
)

-- For a feed that was new and of which the journal took every event: a consumer that reads from a
-- cursor other than 0 and is not told to resync gets exactly the next events that were recorded
-- after the cursor, in order and up to the limit, from memory or from the journal, however much
-- either has forgotten.
pub runtime_events_since-replay :
    (recorded : List RuntimeEventEnvelope) (s : Feed) (loads : Bool) (after limit : ℕ)
    → Recorded recorded s
    → 0 < after
    → (runtime_events_since loads after limit s).resync_required ≡ false
    → (runtime_events_since loads after limit s).events ≡ take limit (drop after recorded)
unfolding runtime_events_since
runtime_events_since-replay recorded s loads after limit run pos e =
    elim (Option-cases (reason loads after limit s)) [
      | inl fine ↦
          let (cursor, fetched) = no_reason loads after limit s fine in
          rw fine (found_is recorded s (Recorded-Holds run) after pos cursor loads limit fetched)
      | inr (r, bad) ↦ absurd (true-false (rw bad at e))
    ]
