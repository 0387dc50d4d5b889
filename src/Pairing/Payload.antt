-- ===== src/Pairing/Payload.antt =====
-- The payloads of src-tauri/src/pairing.rs and the libraries that it calls.
use dash_drop.Base.{ℕ, String, Bool, Option, List}

pub record IdentityMigrationProof : Type 0 where
  pub previous_fingerprint : String
  pub previous_public_key : String
  pub signature : String

pub record ValidatedPairingPayload : Type 0 where
  pub version : ℕ
  pub fingerprint : String
  pub device_name : String
  pub verification_code : String
  pub issued_at_unix_ms : ℕ
  pub expires_at_unix_ms : ℕ
  pub trust_model : String
  pub signature_verified : Bool
  pub migration_proof : Option IdentityMigrationProof

pub record PairingPayloadV1 : Type 0 where
  pub version : ℕ
  pub fingerprint : String
  pub device_name : String
  pub verification_code : String
  pub issued_at_unix_ms : ℕ

pub record PairingPayloadV2Body : Type 0 where
  pub version : ℕ
  pub fingerprint : String
  pub device_name : String
  pub verification_code : String
  pub issued_at_unix_ms : ℕ
  pub signer_public_key : String
  pub migration_proof : Option IdentityMigrationProof

pub record PairingPayloadV2 : Type 0 where
  pub version : ℕ
  pub fingerprint : String
  pub device_name : String
  pub verification_code : String
  pub issued_at_unix_ms : ℕ
  pub signer_public_key : String
  pub signature : String
  pub migration_proof : Option IdentityMigrationProof

-- The errors, by their messages.
pub data PairingError : Type 0 where
  link_empty link_without_data data_not_base64 data_not_utf8 not_json : PairingError
  unsupported_version payload_not_decoded : PairingError
  fingerprint_missing device_name_missing code_invalid : PairingError
  signer_key_invalid signer_key_length signature_encoding signature_length : PairingError
  signature_invalid : PairingError
  previous_key_invalid previous_key_length proof_encoding proof_length proof_invalid : PairingError
  issue_time_missing issue_time_invalid link_expired : PairingError
  local_fingerprint_missing local_device_name_missing local_key_invalid : PairingError

-- A JSON value as it is read: its version, if it is a number, and the payloads it decodes to.
pub record Json : Type 0 where
  pub version : Option ℕ
  pub as_v1 : Option PairingPayloadV1
  pub as_v2 : Option PairingPayloadV2

-- What base64, serde_json and ed25519_dalek give. A key is its 32 bytes, a signature its 64.
pub record Libraries : Type 0 where
  pub decode_standard : String → Option (List ℕ)
  pub encode_standard : List ℕ → String
  pub decode_url_safe : String → Option (List ℕ)
  pub encode_url_safe : List ℕ → String
  pub from_utf8 : List ℕ → Option String
  pub parse_json : String → Option Json
  pub body_json : PairingPayloadV2Body → List ℕ
  pub payload_json : PairingPayloadV2 → List ℕ
  pub is_key : List ℕ → Bool
  pub verify : List ℕ → List ℕ → List ℕ → Bool
  pub signing_key_of : List ℕ → Option (List ℕ)
  pub verifying_key_of : List ℕ → List ℕ
  pub sign : List ℕ → List ℕ → List ℕ
