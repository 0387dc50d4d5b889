-- ===== src/Outcome/Tests.antt =====
-- The outcome of three files of which one did not arrive.
use dash_drop.Base.{true, false, Option, none, List, [], ◌∷◌, ◌≡◌, ◌≢◌, ◌↔◌, refl, All, any}
use dash_drop.Types.Protocol.{
  AckResult, ErrorCode, file_ok, file_failed, FailedFile, FileItem, regular_file, timeout, success,
  partial_success, protocol, failed,
}
use dash_drop.Outcome.{determine_outcome, failed_file, tally, outcome_of}
use dash_drop.Outcome.Classes.{determine_outcome_iff, failures, Arrived}

abbrev sent : List FileItem
sent =
    record {
      file_id = 2;
      name = "b.txt";
      rel_path = "b.txt";
      size = 4;
      file_type = regular_file;
      modified = 0;
      risk_class = none;
      source_snapshot = none;
    }
    ∷ []

abbrev acks : List AckResult
acks = file_ok 1 ∷ file_failed 2 timeout ∷ file_ok 3 ∷ []

abbrev missing : List FailedFile
missing = record { file_id = 2; name = "b.txt"; reason = timeout } ∷ []

abbrev no_error : Option ErrorCode
no_error = none

determine_outcome_iff_example :
    ((determine_outcome false acks sent no_error ≡ success)
      ↔ ((no_error ≡ none) × ((false ≡ false) × All Arrived acks)))
    × ((determine_outcome false acks sent no_error ≡ partial_success missing) ↔ (
        (no_error ≡ none)
        × ((false ≡ false)
            × ((any (λ a. a.is_ok) acks ≡ true)
                × ((failures sent acks ≢ []) × (missing ≡ failures sent acks))))))
determine_outcome_iff_example = determine_outcome_iff false acks sent no_error missing

partly : determine_outcome false acks sent no_error ≡ partial_success missing
unfolding determine_outcome tally outcome_of failed_file
partly = refl

nothing_arrived :
    determine_outcome false (file_failed 2 timeout ∷ []) sent no_error
    ≡ failed (protocol "all files failed")
unfolding determine_outcome tally outcome_of failed_file
nothing_arrived = refl
