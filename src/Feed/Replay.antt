-- ===== src/Feed/Replay.antt =====
-- That the feed of state.rs replays the events that were recorded, without a gap.
use dash_drop.Base.{
  ℕ, zero, suc, String, true, false, Option, List, [], ◌∷◌, ◌++◌, ◌≡◌, refl, sym, ◌∙◌, ap, subst,
  ◌≤◌, ◌<◌, ◌+◌, ◌-◌, ◌*◌, ◌/◌, not, ◌==◌, nat_eq, ltb, leb, if◌then◌else◌, length, length-append,
  filter, unwrap_or, max, arith, Bool-cases, inl, inr,
}
use dash_drop.Feed.{
  RuntimeEventEnvelope, Feed, feed_capacity, journal_capacity, segment_of, retained_from_seq,
  is_in_segments, append_runtime_event, min_seq, push_event, pop_front, record_runtime_event,
  is_after,
}

abbrev pub drop : ℕ → List RuntimeEventEnvelope → List RuntimeEventEnvelope
drop zero es = es
drop (suc n) [] = []
drop (suc n) (e ∷ es) = drop n es

-- The events bear the numbers from `k + 1` on.
abbrev pub Numbered : ℕ → List RuntimeEventEnvelope → Type 0
Numbered k [] = Unit
Numbered k (e ∷ es) = (e.seq ≡ suc k) × Numbered (suc k) es

pub length-drop : (n : ℕ) (es : List RuntimeEventEnvelope) → length (drop n es) ≡ length es - n
length-drop zero es = omega arith
length-drop (suc n) [] = omega arith
length-drop (suc n) (e ∷ es) = omega (arith, length-drop n es)

pub drop-Numbered :
    (n k : ℕ) (es : List RuntimeEventEnvelope) → Numbered k es → Numbered (k + n) (drop n es)
drop-Numbered zero k es h = subst (λ m. Numbered m es) (omega arith) h
drop-Numbered (suc n) k [] h = tt
drop-Numbered (suc n) k (e ∷ es) h =
    subst (λ m. Numbered m (drop n es)) (omega arith) (drop-Numbered n (suc k) es h.1)

-- A filter by number is a drop.
pub filter-drop :
    (after k : ℕ) (es : List RuntimeEventEnvelope)
    → Numbered k es
    → filter (is_after after) es ≡ drop (after - k) es
filter-drop after k [] h = sym (empty (after - k))
  where
    empty : (n : ℕ) → drop n [] ≡ []
    empty zero = refl
    empty (suc n) = refl
filter-drop after k (e ∷ es) h = elim (Bool-cases (ltb after e.seq)) [
  | inl later ↦
      let none_left : after - k ≡ 0 = ground (arith, h.0) in
      let none_next : after - suc k ≡ 0 = omega arith in
      rw later (
        rw none_left
          (ap (◌∷◌ e) (filter-drop after (suc k) es h.1 ∙ ap (λ n. drop n es) none_next)))
  | inr earlier ↦
      let step : after - k ≡ suc (after - suc k) = ground (arith, h.0) in
      rw earlier (rw step (filter-drop after (suc k) es h.1))
]

pub drop-drop : (n m : ℕ) (es : List RuntimeEventEnvelope) → drop m (drop n es) ≡ drop (n + m) es
drop-drop zero m es = ap (λ x. drop x es) (omega arith)
drop-drop (suc n) zero [] = sym (ap (λ x. drop x []) (the_sum n 0))
  where
    the_sum : (n m : ℕ) → suc n + m ≡ suc (n + m)
    the_sum n m = omega arith
drop-drop (suc n) (suc m) [] = sym (ap (λ x. drop x []) (the_sum n (suc m)))
  where
    the_sum : (n m : ℕ) → suc n + m ≡ suc (n + m)
    the_sum n m = omega arith
drop-drop (suc n) m (e ∷ es) = drop-drop n m es ∙ sym (ap (λ x. drop x (e ∷ es)) (the_sum n m))
  where
    the_sum : (n m : ℕ) → suc n + m ≡ suc (n + m)
    the_sum n m = omega arith

drop-push :
    (n : ℕ) (es : List RuntimeEventEnvelope) (e : RuntimeEventEnvelope)
    → n ≤ length es
    → push_event e (drop n es) ≡ drop n (push_event e es)
drop-push zero es e h = refl
drop-push (suc n) [] e h = absurd (omega arith)
drop-push (suc n) (x ∷ es) e h = drop-push n es e (omega arith)

Numbered-push :
    (k : ℕ) (es : List RuntimeEventEnvelope) (e : RuntimeEventEnvelope)
    → Numbered k es
    → e.seq ≡ suc (k + length es)
    → Numbered k (push_event e es)
Numbered-push k [] e h q = (omega (arith, q), tt)
Numbered-push k (x ∷ es) e h q = (h.0, Numbered-push (suc k) es e h.1 (omega (arith, q)))

pop_front-drop : (es : List RuntimeEventEnvelope) → pop_front es ≡ drop 1 es
pop_front-drop [] = refl
pop_front-drop (e ∷ es) = refl

-- What the feed holds of all the events that were recorded.
pub record Holds (recorded : List RuntimeEventEnvelope) (s : Feed) : Type 0 where
  pub numbered : Numbered 0 recorded
  pub latest : s.seq ≡ length recorded
  pub from_memory : ℕ
  pub memory : s.feed ≡ drop from_memory recorded
  pub in_memory : from_memory ≤ length recorded
  pub shown : 0 < length recorded → from_memory < length recorded
  pub from_journal : ℕ
  pub kept : s.journal ≡ drop from_journal recorded
  pub in_journal : from_journal ≤ length recorded
  pub journaled : 0 < length recorded → from_journal < length recorded
  pub remembers : length recorded ≤ from_memory + feed_capacity
  pub keeps : from_journal ≤ length recorded - journal_capacity
  pub oldest : s.persisted_oldest_seq ≡ unwrap_or (min_seq s.journal) 0

-- The segments that are kept are those from a number on.
in_segment :
    (r n : ℕ) → leb (segment_of r) (segment_of (suc n)) ≡ ltb ((r - 1) / 1000 * 1000) (suc n)
unfolding segment_of
in_segment r n = ground arith

filter-segments :
    (r k : ℕ) (es : List RuntimeEventEnvelope)
    → Numbered k es
    → filter (is_in_segments (segment_of r)) es ≡ filter (is_after ((r - 1) / 1000 * 1000)) es
filter-segments r k [] h = refl
filter-segments r k (e ∷ es) h =
    let test : is_in_segments (segment_of r) e ≡ is_after ((r - 1) / 1000 * 1000) e =
      subst (λ n. leb (segment_of r) (segment_of n) ≡ ltb ((r - 1) / 1000 * 1000) n) (sym h.0)
        (in_segment r k) in
    rw test (
      ap (λ rest. if is_after ((r - 1) / 1000 * 1000) e then e ∷ rest else rest)
        (filter-segments r (suc k) es h.1))

filter_others :
    (k n : ℕ) (es : List RuntimeEventEnvelope)
    → Numbered k es
    → k + length es < n
    → filter (λ x. not (x.seq == n)) es ≡ es
filter_others k n [] h q = refl
filter_others k n (e ∷ es) h q =
    let other : (e.seq == n) ≡ false = ground (arith, h.0) in
    rw other (ap (◌∷◌ e) (filter_others (suc k) n es h.1 (omega arith)))

retained-le :
    (seq : ℕ) (pin : Option ℕ) → retained_from_seq seq pin ≤ max (seq - (journal_capacity - 1)) 1
unfolding retained_from_seq
retained-le seq pin = ground arith

-- The journal after one more event, as a part of all the events.
appended :
    (a : ℕ) (recorded : List RuntimeEventEnvelope) (e : RuntimeEventEnvelope) (pin : Option ℕ)
    → Numbered 0 recorded
    → a ≤ length recorded
    → e.seq ≡ suc (length recorded)
    → (n : ℕ) × (append_runtime_event e pin (drop a recorded) ≡ drop n (push_event e recorded))
      × (n ≤ max a (retained_from_seq e.seq pin - 1))
unfolding append_runtime_event
appended a recorded e pin numbered le seq =
    let r = retained_from_seq e.seq pin in
    let cut = (r - 1) / 1000 * 1000 in
    let all = push_event e recorded in
    let numbered' = Numbered-push 0 recorded e numbered (omega (arith, seq)) in
    let part = drop-Numbered a 0 all numbered' in
    (
      a + (cut - (0 + a)),
      ap (λ xs. filter (is_in_segments (segment_of r)) (xs ++ (e ∷ [])))
            (filter_others (0 + a) e.seq (drop a recorded) (drop-Numbered a 0 recorded numbered)
              (omega (arith, seq, length-drop a recorded)))
          ∙ ap (filter (is_in_segments (segment_of r))) (drop-push a recorded e le)
          ∙ filter-segments r (0 + a) (drop a all) part
          ∙ filter-drop cut (0 + a) (drop a all) part
          ∙ drop-drop a (cut - (0 + a)) all,
      omega (arith, below r),
    )
  where
    below : (r : ℕ) → (r - 1) / 1000 * 1000 ≤ r - 1
    below r = omega arith

-- The events in memory after one more.
remembered :
    (b : ℕ) (recorded : List RuntimeEventEnvelope) (e : RuntimeEventEnvelope)
    → b ≤ length recorded
    → length recorded ≤ b + feed_capacity
    → let feed = drop b recorded in
      (n : ℕ) × (push_event e (if leb feed_capacity (length feed) then pop_front feed else feed)
        ≡ drop n (push_event e recorded))
      × (n ≤ length recorded)
      × (length recorded + 1 ≤ n + feed_capacity)
remembered b recorded e le lately =
    elim (Bool-cases (leb feed_capacity (length (drop b recorded)))) [
      | inl full ↦
          let more : b + 1 ≤ length recorded = ground (arith, length-drop b recorded) in
          rw full (
            b + 1,
            ap (push_event e) (pop_front-drop (drop b recorded) ∙ drop-drop b 1 recorded)
                ∙ drop-push (b + 1) recorded e more,
            omega (arith, more),
            omega arith,
          )
      | inr room ↦
          rw room (b, drop-push b recorded e le, le, ground (arith, length-drop b recorded))
    ]

abbrev pub next_event : ℕ → String → String → Feed → RuntimeEventEnvelope
next_event now event payload s = record {
  seq = s.seq + 1;
  event = event;
  payload = payload;
  emitted_at_unix_ms = now;
}

-- While the journal takes the events, the feed holds an end of all of them, and so does the
-- journal.
pub record_runtime_event-Holds :
    (now : ℕ) (pin : Option ℕ) (event payload : String) (recorded : List RuntimeEventEnvelope)
    (s : Feed)
    → Holds recorded s
    → Holds
        (push_event (next_event now event payload s) recorded)
        (record_runtime_event true now pin event payload s)
unfolding record_runtime_event
record_runtime_event-Holds now pin event payload recorded s h =
    let e = next_event now event payload s in
    let seq : e.seq ≡ suc (length recorded) = omega (arith, h.latest) in
    let (b, memory, in_memory, lately) =
      remembered h.from_memory recorded e h.in_memory h.remembers in
    let (a, kept, cut) = appended h.from_journal recorded e pin h.numbered h.in_journal seq in
    let longer = length-append recorded (e ∷ []) in
    let early : a ≤ length recorded =
      omega (arith, cut, seq, retained-le e.seq pin, h.in_journal) in
    record {
      numbered = Numbered-push 0 recorded e h.numbered (omega (arith, seq));
      latest = omega (arith, h.latest, length-append recorded (e ∷ []));
      from_memory = b;
      memory =
          ap (λ x. push_event e (if leb feed_capacity (length x) then pop_front x else x)) h.memory
          ∙ memory;
      in_memory = omega (arith, in_memory, longer);
      shown = λ some_event. omega (arith, in_memory, longer);
      from_journal = a;
      kept = ap (append_runtime_event e pin) h.kept ∙ kept;
      in_journal = omega (arith, early, longer);
      journaled = λ some_event. omega (arith, early, longer);
      remembers = omega (arith, lately, longer);
      keeps = omega (arith, cut, seq, longer, retained-le e.seq pin, h.keeps);
      oldest = refl;
    }

-- What the journal keeps after one more event.
pub from_journal-record-le :
    (now : ℕ) (pin : Option ℕ) (event payload : String) (recorded : List RuntimeEventEnvelope)
    (s : Feed) (h : Holds recorded s)
    → (record_runtime_event-Holds now pin event payload recorded s h).from_journal
      ≤ max h.from_journal (retained_from_seq (s.seq + 1) pin - 1)
unfolding record_runtime_event-Holds
from_journal-record-le now pin event payload recorded s h =
    (appended h.from_journal recorded (next_event now event payload s) pin h.numbered h.in_journal
      (omega (arith, h.latest))).2
