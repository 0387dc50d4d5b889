-- ===== src/Outcome/Classes.antt =====
-- Which outcome `determine_outcome` of src-tauri/src/transport/sender.rs gives.
use mathlib.Core.List.{append_assoc, append-nil}
use dash_drop.Base.{
  ℕ, Bool, true, false, Option, none, some, List, [], ◌∷◌, ◌++◌, ◌+◌, ◌<◌, ◌≡◌, ◌≢◌, ◌↔◌, refl, sym,
  ◌∙◌, ap, inl, inr, not, map, filter, length, any, All, arith, Bool-cases, ltb,
}
use dash_drop.Types.Protocol.{AckResult, FailedFile, FileItem, ErrorCode, success, partial_success}
use dash_drop.Outcome.{failed_file, tally, outcome_of, determine_outcome}

-- The files that did not arrive, in the order of their results.
abbrev pub failures : List FileItem → List AckResult → List FailedFile
failures items acks = map (failed_file items) (filter (λ a. not a.is_ok) acks)

abbrev pub arrived : List AckResult → ℕ
arrived acks = length (filter (λ a. a.is_ok) acks)

abbrev pub Arrived : AckResult → Type 0
Arrived a = a.is_ok ≡ true

tally-failures :
    (items : List FileItem) (acks : List AckResult) (count : ℕ) (fs : List FailedFile)
    → tally items acks count fs ≡ (count + arrived acks, fs ++ failures items acks)
unfolding tally failed_file
tally-failures items [] count fs = rw (append-nil fs) (ap (λ n. (n, fs)) (omega arith))
tally-failures items (a ∷ acks) count fs = elim (Bool-cases a.is_ok) [
  | inl ok ↦ rw ok (
      tally-failures items acks (count + 1) fs
      ∙ ap (λ n. (n, fs ++ failures items acks)) (omega arith))
  | inr bad ↦ rw bad (
      tally-failures items acks count (fs ++ failed_file items a ∷ [])
      ∙ ap (λ l. (count + arrived acks, l))
          (append_assoc fs (failed_file items a ∷ []) (failures items acks)))
]

failures-All :
    (items : List FileItem) (acks : List AckResult) → (failures items acks ≡ []) ↔ All Arrived acks
failures-All items [] = ground arith
failures-All items (a ∷ acks) = elim (Bool-cases a.is_ok) [
  | inl ok ↦
      rw ok ((λ h. (refl, (failures-All items acks).0 h)), (λ h. (failures-All items acks).1 h.1))
  | inr bad ↦ rw bad ((λ h. absurd (cc)), (λ h. absurd (cc)))
]

any-arrived : (acks : List AckResult) → (any (λ a. a.is_ok) acks ≡ true) ↔ (0 < arrived acks)
any-arrived [] = ground arith
any-arrived (a ∷ acks) = elim (Bool-cases a.is_ok) [
  | inl ok ↦ rw ok ((λ h. omega arith), (λ h. refl))
  | inr bad ↦ rw bad (any-arrived acks)
]

outcome_of-success :
    (c : Bool) (n : ℕ) (fs : List FailedFile)
    → (outcome_of c (n, fs) ≡ success) ↔ ((c ≡ false) × (fs ≡ []))
unfolding outcome_of
outcome_of-success true n fs = ((λ h. absurd (cc)), (λ h. absurd (cc)))
outcome_of-success false n [] = ((λ h. (refl, refl)), (λ h. refl))
outcome_of-success false n (f ∷ fs) = elim (Bool-cases (ltb 0 n)) [
  | inl some_ok ↦ rw some_ok ((λ h. absurd (cc)), (λ h. absurd (cc)))
  | inr none_ok ↦ rw none_ok ((λ h. absurd (cc)), (λ h. absurd (cc)))
]

outcome_of-partial_success :
    (c : Bool) (n : ℕ) (fs gs : List FailedFile)
    → (outcome_of c (n, fs) ≡ partial_success gs)
      ↔ ((c ≡ false) × ((0 < n) × ((fs ≢ []) × (gs ≡ fs))))
unfolding outcome_of
outcome_of-partial_success true n fs gs = ((λ h. absurd (cc)), (λ h. absurd (cc)))
outcome_of-partial_success false n [] gs = ((λ h. absurd (cc)), (λ h. absurd (h.1.1.0 refl)))
outcome_of-partial_success false n (f ∷ fs) gs = elim (Bool-cases (ltb 0 n)) [
  | inl some_ok ↦
      rw some_ok
        ((λ h. (refl, (ground (arith, some_ok), ((λ e. absurd (cc)), cc)))), (λ h. cc (h.1.1.1)))
  | inr none_ok ↦ rw none_ok ((λ h. absurd (cc)), (λ h. absurd (ground (arith, none_ok, h.1.0))))
]

determine_outcome-failures :
    (c : Bool) (acks : List AckResult) (items : List FileItem)
    → determine_outcome c acks items none ≡ outcome_of c (arrived acks, failures items acks)
unfolding determine_outcome
determine_outcome-failures c acks items =
    ap (outcome_of c)
      (tally-failures items acks 0 [] ∙ ap (λ n. (n, failures items acks)) (omega arith))

-- A transfer is a success exactly where no error came up while sending, the peer did not cancel and
-- every result says that the file arrived. It is a partial success exactly where no error came up,
-- the peer did not cancel, at least one file arrived and at least one did not; the files it then
-- lists are those whose result says that they did not arrive, in the order of the results.
pub determine_outcome_iff :
    (c : Bool) (acks : List AckResult) (items : List FileItem) (d : Option ErrorCode)
    (fs : List FailedFile)
    → ((determine_outcome c acks items d ≡ success)
        ↔ ((d ≡ none) × ((c ≡ false) × All Arrived acks)))
      × ((determine_outcome c acks items d ≡ partial_success fs) ↔ (
          (d ≡ none)
          × ((c ≡ false)
              × ((any (λ a. a.is_ok) acks ≡ true)
                  × ((failures items acks ≢ []) × (fs ≡ failures items acks))))))
unfolding determine_outcome
determine_outcome_iff c acks items (some error) fs =
    (((λ h. absurd (cc)), (λ h. absurd (cc))), ((λ h. absurd (cc)), (λ h. absurd (cc))))
determine_outcome_iff c acks items none fs =
    let same = determine_outcome-failures c acks items in
    let whole = outcome_of-success c (arrived acks) (failures items acks) in
    let part = outcome_of-partial_success c (arrived acks) (failures items acks) fs in
    (
      (
        (λ h. let w = whole.0 (sym same ∙ h) in (refl, (w.0, (failures-All items acks).0 w.1))),
        (λ h. same ∙ whole.1 (h.1.0, (failures-All items acks).1 h.1.1)),
      ),
      (
        (λ h. let p = part.0 (sym same ∙ h) in (refl, (p.0, ((any-arrived acks).1 p.1.0, p.1.1)))),
        (λ h. same ∙ part.1 (h.1.0, ((any-arrived acks).0 h.1.1.0, h.1.1.1))),
      ),
    )
