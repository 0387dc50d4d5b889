-- ===== src/Types/Protocol.antt =====
-- src-tauri/src/transport/protocol.rs: error codes, offers and the messages of the wire.
-- A byte string is a list of numbers, a 32-byte hash too.
use dash_drop.Base.{ℕ, String, Bool, true, false, Option, none, some, List}

pub data ErrorCode : Type 0 where
  rejected disk_full hash_mismatch version_mismatch rate_limited timeout cancelled : ErrorCode
  permission_denied identity_mismatch size_policy invalid_path path_conflict : ErrorCode
  unsupported_file_type : ErrorCode
  protocol : String → ErrorCode

unfoldable pub reason_code : ErrorCode → String
reason_code rejected = "E_REJECTED_BY_PEER"
reason_code disk_full = "E_DISK_FULL"
reason_code hash_mismatch = "E_HASH_MISMATCH"
reason_code version_mismatch = "E_VERSION_MISMATCH"
reason_code rate_limited = "E_RATE_LIMITED"
reason_code timeout = "E_TIMEOUT"
reason_code cancelled = "E_CANCELLED"
reason_code permission_denied = "E_PERMISSION_DENIED"
reason_code identity_mismatch = "E_IDENTITY_MISMATCH"
reason_code size_policy = "E_SIZE_POLICY"
reason_code invalid_path = "E_INVALID_PATH"
reason_code path_conflict = "E_PATH_CONFLICT"
reason_code unsupported_file_type = "E_UNSUPPORTED_FILE_TYPE"
reason_code (protocol s) = "E_PROTOCOL"

pub data FileType : Type 0 where
  regular_file directory : FileType

pub data RiskClass : Type 0 where
  high normal : RiskClass

pub record SourceSnapshot : Type 0 where
  pub size : ℕ
  pub mtime_unix_ms : ℕ
  pub head_hash : List ℕ

pub record FileItem : Type 0 where
  pub file_id : ℕ
  pub name : String
  pub rel_path : String
  pub size : ℕ
  pub file_type : FileType
  pub modified : ℕ
  pub risk_class : Option RiskClass
  pub source_snapshot : Option SourceSnapshot

pub record HelloPayload : Type 0 where
  pub wire_version : ℕ
  pub supported_versions : List ℕ

pub record OfferPayload : Type 0 where
  pub transfer_id : String
  pub items : List FileItem
  pub total_size : ℕ
  pub sender_name : String
  pub sender_fingerprint : String

pub record ChunkPayload : Type 0 where
  pub file_id : ℕ
  pub chunk_id : ℕ
  pub offset : ℕ
  pub bytes : List ℕ

pub record CompletePayload : Type 0 where
  pub file_id : ℕ
  pub file_hash : List ℕ

pub record AckPayload : Type 0 where
  pub file_id : ℕ
  pub is_ok : Bool
  pub reason : Option ErrorCode

pub data CancelReason : Type 0 where
  user_cancelled : CancelReason
  error : ErrorCode → CancelReason

pub record AcceptPayload : Type 0 where
  pub chosen_version : ℕ
  pub resume_offsets : Option (List (ℕ × ℕ))

pub record P2pResponsePayload : Type 0 where
  pub method : String
  pub ssid : String
  pub password : Option String
  pub target_address : Option String

pub data DashMessage : Type 0 where
  hello : HelloPayload → DashMessage
  offer : OfferPayload → DashMessage
  accept : AcceptPayload → DashMessage
  reject : ErrorCode → DashMessage
  chunk : ChunkPayload → DashMessage
  complete : CompletePayload → DashMessage
  ack : AckPayload → DashMessage
  cancel : CancelReason → DashMessage
  p2p_request : List String → DashMessage
  p2p_response : P2pResponsePayload → DashMessage

pub record FailedFile : Type 0 where
  pub file_id : ℕ
  pub name : String
  pub reason : ErrorCode

pub data TransferOutcome : Type 0 where
  success : TransferOutcome
  partial_success : List FailedFile → TransferOutcome
  failed : ErrorCode → TransferOutcome
  cancelled_by_sender cancelled_by_receiver : TransferOutcome

-- What one `read_message` yields.
pub data Read : Type 0 where
  message : DashMessage → Read
  read_error : String → Read

-- The tuple of a file's result: its number, whether it arrived, and why not.
pub record AckResult : Type 0 where
  pub file_id : ℕ
  pub is_ok : Bool
  pub reason : Option ErrorCode

abbrev pub file_ok : ℕ → AckResult
file_ok id = record { file_id = id; is_ok = true; reason = none }

abbrev pub file_failed : ℕ → ErrorCode → AckResult
file_failed id e = record { file_id = id; is_ok = false; reason = some e }
