-- ===== src/Sender.antt =====
-- src-tauri/src/transport/sender.rs: `send_one_file`. A read yields at least one byte before the end
-- of the file and at most as many as it was asked for; how many, and which operations fail, is the
-- `Source`. BLAKE3 is a parameter, on all the bytes that the hasher was given.

pub mod Chunks
pub mod Whole
use dash_drop.Base.{
  ℕ, zero, suc, String, Done, Bool, true, false, Option, none, some, List, [], ◌∷◌, ◌++◌, ◌+◌, ◌-◌,
  ◌==◌, nat_eq, ltb, is_empty, if◌then◌else◌, insert, remove, lookup, length, take, min, Result, ok,
  err, not, is_none, contains_key, string_eq, list_eq,
}
use dash_drop.Types.Protocol.{
  DashMessage, chunk, complete, ErrorCode, protocol, AckResult, file_failed,
}
use dash_drop.Local.{Local, ProgressEvent, add_progress}

abbrev pub chunk_size : ℕ
chunk_size = 1048576

-- How the wait for the receiver's ack ends.
pub data AckWait : Type 0 where
  acked : Bool → Option ErrorCode → AckWait
  ack_closed ack_timeout : AckWait

pub record Source : Type 0 where
  pub opens_stream : Bool
  pub bytes : Option (List ℕ)
  pub got : ℕ → ℕ
  pub read_fails : ℕ → Bool
  pub write_fails : ℕ → Bool
  pub finishes : Bool
  pub wait : AckWait

-- The place in the file: what was hashed, what is left, and the numbers of the next chunk.
pub record Reading : Type 0 where
  pub hashed : List ℕ
  pub rest : List ℕ
  pub offset : ℕ
  pub chunk_id : ℕ

unfoldable pub split_at : ℕ → List ℕ → List ℕ × List ℕ
split_at zero xs = ([], xs)
split_at (suc n) [] = ([], [])
split_at (suc n) (x ∷ xs) = let (front, back) = split_at n xs in (x ∷ front, back)

-- One read of at most `suc cap` bytes.
unfoldable pub read_some : (ℕ → ℕ) → ℕ → Reading → List ℕ × List ℕ
read_some got cap r = split_at (suc (min (got r.offset) cap)) r.rest

abbrev pub advance : List ℕ → List ℕ → Reading → Reading
advance data' rest r = record {
  hashed = r.hashed ++ data';
  rest = rest;
  offset = r.offset + length data';
  chunk_id = r.chunk_id + 1;
}

-- The part that the receiver has: hashed and not sent. Each round reads a byte at least, so that
-- `fuel` rounds are enough for `fuel` bytes.
unfoldable pub skip_loop : Source → ℕ → ℕ → Reading → Result Reading String
skip_loop s zero to_skip r = ok r
skip_loop s (suc fuel) to_skip r =
    let (data', rest) = read_some s.got (min to_skip chunk_size - 1) r in
    let more = skip_loop s fuel (to_skip - length data') (advance data' rest r) in
    if to_skip == 0
    then ok r
    else if s.read_fails r.offset
    then err "read file for hashing resume"
    else if is_empty r.rest
    then ok r
    else more

pub record Sent : Type 0 where
  pub messages : List DashMessage
  pub local : Local
  pub result : Result Reading String

abbrev pub prepend : DashMessage → Sent → Sent
prepend m s = record s { messages = m ∷ s.messages }

module _ (s : Source) (transfer_id : String) (file_id : ℕ) where
  -- The loop that sends; `fuel` of the length of the file and one is enough.
  unfoldable pub send_loop : ℕ → Reading → Local → Sent
  send_loop zero r l = record { messages = []; local = l; result = err "out of fuel" }
  send_loop (suc fuel) r l =
      let (data', rest) = read_some s.got (chunk_size - 1) r in
      let more =
        send_loop fuel (advance data' rest r) (add_progress transfer_id (length data') l) in
      if s.read_fails r.offset
      then record { messages = []; local = l; result = err "read file" }
      else if is_empty r.rest
      then record { messages = []; local = l; result = ok r }
      else if s.write_fails r.chunk_id
      then record { messages = []; local = l; result = err "write message" }
      else prepend
          (chunk
            (record { file_id = file_id; chunk_id = r.chunk_id; offset = r.offset; bytes = data' }))
          more

abbrev pub empty_event : String → ProgressEvent
empty_event id = record { transfer_id = id; bytes_transferred = 0; total_bytes = 0; revision = 0 }

-- The progress after a resume: an event goes out for an unknown transfer too.
unfoldable pub resume_progress : String → ℕ → Local → Local
resume_progress id n l =
    if contains_key id l.transfers
    then add_progress id n l
    else record l { progress = empty_event id ∷ l.progress }

pub record Sending : Type 0 where
  pub sent : List DashMessage
  pub local : Local
  pub waiters : List (ℕ × Done)
  pub result : Result AckResult String

abbrev pub ack_result : ℕ → AckWait → AckResult
ack_result id (acked is_ok reason) = record { file_id = id; is_ok = is_ok; reason = reason }
ack_result id ack_closed = file_failed id (protocol "ack channel closed")
ack_result id ack_timeout = file_failed id (protocol "ack timeout")

abbrev pub after_wait : ℕ → AckWait → List (ℕ × Done) → List (ℕ × Done)
after_wait id ack_timeout waiters = remove id waiters
after_wait id w waiters = waiters

abbrev pub at_start : List ℕ → Reading
at_start bytes = record { hashed = []; rest = bytes; offset = 0; chunk_id = 0 }

module _ (hash : List ℕ → List ℕ) (s : Source) (transfer_id : String) (file_id : ℕ)
    (waiters : List (ℕ × Done)) where
  abbrev pub failed_sending : List DashMessage → Local → String → Sending
  failed_sending sent l e = record {
    sent = sent;
    local = l;
    waiters = remove file_id (insert file_id tt waiters);
    result = err e;
  }

  -- From the end of the loop: `Complete`, the end of the stream and the wait.
  unfoldable pub close : Sent → Sending
  close out = elim out.result [
    | err e ↦ failed_sending out.messages out.local e
    | ok r ↦
        let last = complete (record { file_id = file_id; file_hash = hash r.hashed }) in
        if s.write_fails r.chunk_id
        then failed_sending out.messages out.local "write message"
        else if s.finishes
        then record {
          sent = out.messages ++ (last ∷ []);
          local = out.local;
          waiters = after_wait file_id s.wait (insert file_id tt waiters);
          result = ok (ack_result file_id s.wait);
        }
        else failed_sending (out.messages ++ (last ∷ [])) out.local "finish stream"
  ]

  unfoldable pub send_from : List ℕ → ℕ → Local → Sending
  send_from bytes resume_offset l =
      if ltb 0 resume_offset
      then elim (skip_loop s resume_offset resume_offset (at_start bytes)) [
        | err e ↦ failed_sending [] l e
        | ok r ↦ close (
            send_loop s transfer_id file_id (suc (length bytes)) r
              (resume_progress transfer_id r.offset l))
      ]
      else close (send_loop s transfer_id file_id (suc (length bytes)) (at_start bytes) l)

  unfoldable pub send_one_file : ℕ → Local → Sending
  send_one_file resume_offset l =
      if s.opens_stream
      then elim s.bytes [
        | none ↦ failed_sending [] l "open source file"
        | some bytes ↦ send_from bytes resume_offset l
      ]
      else failed_sending [] l "open uni stream"
