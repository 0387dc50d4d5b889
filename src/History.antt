-- ===== src/History.antt =====
-- src-tauri/src/db.rs, the table `transfers_history`: `save_transfer` with its guard. The table is
-- a dictionary by the row's id; `read_ok` and `write_ok` say whether SQLite answers the query and
-- carries out the statement, which the source does not decide.
pub mod Order
use dash_drop.Base.{
  ℕ, String, Bool, true, false, Option, none, some, List, ◌&&◌, lookup, insert, unwrap_or, leb, ltb,
  if◌then◌else◌, not, string_eq,
}
use dash_drop.Types.Transfer.{
  FileItemMeta, TransferDirection, TransferStatus, TransferTask, is_terminal,
}

pub record Row : Type 0 where
  pub direction : TransferDirection
  pub peer_fingerprint : String
  pub peer_name : String
  pub items : List FileItemMeta
  pub status : TransferStatus
  pub bytes_transferred : ℕ
  pub total_bytes : ℕ
  pub revision : ℕ
  pub started_at : ℕ
  pub ended_at : ℕ
  pub reason_code : Option String
  pub error : Option String

abbrev pub Table : Type 0
Table = List (String × Row)

pub record Access : Type 0 where
  pub read_ok : Bool
  pub write_ok : Bool

-- `ended_at` falls back on the clock, `now`, in seconds.
unfoldable pub row_of : ℕ → TransferTask → Row
row_of now t = record {
  direction = t.direction;
  peer_fingerprint = t.peer_fingerprint;
  peer_name = t.peer_name;
  items = t.items;
  status = t.status;
  bytes_transferred = t.bytes_transferred;
  total_bytes = t.total_bytes;
  revision = t.revision;
  started_at = t.started_at_unix;
  ended_at = unwrap_or t.ended_at_unix now;
  reason_code = t.terminal_reason_code;
  error = t.error;
}

-- The part of the guard after the row was found.
unfoldable pub supersedes : TransferTask → Row → Bool
supersedes t old =
    if ltb old.revision t.revision
    then true
    else if ltb t.revision old.revision
    then false
    else if is_terminal old.status && not (is_terminal t.status)
    then false
    else leb old.bytes_transferred t.bytes_transferred

unfoldable pub should_persist_transfer : Bool → TransferTask → Table → Bool
unfolding supersedes
should_persist_transfer read_ok t table = elim (if read_ok then lookup t.id table else none) [
  | none ↦ true
  | some old ↦ supersedes t old
]

-- The second part says whether the call returned `Ok`.
unfoldable pub save_transfer : Access → ℕ → TransferTask → Table → Table × Bool
save_transfer access now t table =
    if should_persist_transfer access.read_ok t table
    then if access.write_ok then (insert t.id (row_of now t) table, true) else (table, false)
    else (table, true)
