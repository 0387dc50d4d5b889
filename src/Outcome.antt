-- ===== src/Outcome.antt =====
-- src-tauri/src/transport/sender.rs: `determine_outcome`, which turns the results of the files into
-- the outcome of a transfer.
pub mod Classes
mod Tests
use dash_drop.Base.{
  ℕ, zero, suc, String, Bool, true, false, Option, none, some, List, [], ◌∷◌, ◌++◌, ◌==◌, ◌+◌,
  nat_eq, ltb, is_empty, if◌then◌else◌, find, option_map, unwrap_or, not, map, filter,
}
use dash_drop.Types.Protocol.{
  AckResult, FailedFile, FileItem, ErrorCode, protocol, TransferOutcome, success, partial_success,
  failed, cancelled_by_receiver,
}

unfoldable pub failed_file : List FileItem → AckResult → FailedFile
failed_file items a = record {
  file_id = a.file_id;
  name = unwrap_or (option_map (λ i. i.name) (find (λ i. i.file_id == a.file_id) items)) "";
  reason = unwrap_or a.reason (protocol "unknown");
}

-- The loop: how many files arrived, and the others in the order of their results.
unfoldable pub tally : List FileItem → List AckResult → ℕ → List FailedFile → ℕ × List FailedFile
tally items [] count fs = (count, fs)
tally items (a ∷ acks) count fs =
    tally items acks (if a.is_ok then count + 1 else count)
      (if a.is_ok then fs else fs ++ failed_file items a ∷ [])

unfoldable pub outcome_of : Bool → ℕ × List FailedFile → TransferOutcome
outcome_of cancelled_by_peer (count, fs) =
    if cancelled_by_peer
    then cancelled_by_receiver
    else if is_empty fs
    then success
    else if ltb 0 count
    then partial_success fs
    else failed (protocol "all files failed")

unfoldable pub determine_outcome :
    Bool → List AckResult → List FileItem → Option ErrorCode → TransferOutcome
determine_outcome cancelled_by_peer acks items (some error) = failed error
determine_outcome cancelled_by_peer acks items none =
    outcome_of cancelled_by_peer (tally items acks 0 [])
