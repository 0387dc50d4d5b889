-- ===== src/Types/Transfer.antt =====
-- src-tauri/src/state.rs: the task of a transfer. A connection is a number that names it, an
-- `Instant` a number of milliseconds.
use dash_drop.Base.{ℕ, String, Bool, true, false, Option, List}
use dash_drop.Types.Protocol.{RiskClass}

pub record FileItemMeta : Type 0 where
  pub file_id : ℕ
  pub name : String
  pub rel_path : String
  pub size : ℕ
  pub hash : Option String
  pub risk_class : Option RiskClass

pub data TransferDirection : Type 0 where
  send receive : TransferDirection

pub data TransferStatus : Type 0 where
  draft pending_accept transferring completed partial_completed rejected : TransferStatus
  cancelled_by_sender cancelled_by_receiver failed : TransferStatus

pub record TransferTask : Type 0 where
  pub id : String
  pub batch_id : Option String
  pub direction : TransferDirection
  pub peer_fingerprint : String
  pub peer_name : String
  pub items : List FileItemMeta
  pub status : TransferStatus
  pub bytes_transferred : ℕ
  pub total_bytes : ℕ
  pub revision : ℕ
  pub started_at_unix : ℕ
  pub ended_at_unix : Option ℕ
  pub terminal_reason_code : Option String
  pub error : Option String
  pub source_paths : Option (List String)
  pub source_path_by_file_id : Option (List (ℕ × String))
  pub failed_file_ids : Option (List ℕ)
  pub conn : Option ℕ
  pub ended_at : Option ℕ

-- The test that persistence_progress.rs, receiver.rs and db.rs each write out.
unfoldable pub is_terminal : TransferStatus → Bool
is_terminal completed = true
is_terminal partial_completed = true
is_terminal rejected = true
is_terminal cancelled_by_sender = true
is_terminal cancelled_by_receiver = true
is_terminal failed = true
is_terminal _ = false

pub TransferStatus-discrete : Discrete TransferStatus
TransferStatus-discrete = hlevel
