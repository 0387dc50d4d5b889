-- ===== src/Pairing/Checks.antt =====
-- The validation of a pairing link in src-tauri/src/pairing.rs.
use Prim.Native.Char.{code}
use dash_drop.Base.{
  ℕ, String, Done, Bool, true, false, Option, none, some, List, [], ◌∷◌, ◌++◌, ◌+◌, ◌-◌, ◌/◌, ◌%◌,
  not, ◌==◌, zero, suc, nat_eq, string_eq, ltb, if◌then◌else◌, length, is_empty_str, trim,
  saturating_add, Result, ok, err, ◌>>=◌,
}
use dash_drop.Pairing.Codes.{normalize_fingerprint, verification_code_from_fingerprint}
use dash_drop.Pairing.Payload.{
  IdentityMigrationProof, ValidatedPairingPayload, PairingPayloadV1, PairingPayloadV2Body,
  PairingPayloadV2, PairingError, not_json, unsupported_version, payload_not_decoded,
  fingerprint_missing, device_name_missing, code_invalid, signer_key_invalid, signer_key_length,
  signature_encoding, signature_length, signature_invalid, previous_key_invalid,
  previous_key_length, proof_encoding, proof_length, proof_invalid, issue_time_missing,
  issue_time_invalid, link_expired, Json, Libraries,
}
use dash_drop.Pairing.Source.{ok_or, decode_pairing_payload_source}

abbrev pub pairing_link_ttl_ms : ℕ
pairing_link_ttl_ms = 600000

abbrev pub pairing_link_future_skew_ms : ℕ
pairing_link_future_skew_ms = 120000

abbrev pub ensure : Bool → PairingError → Result Done PairingError
ensure true why = ok tt
ensure false why = err why

abbrev pub expires_at : ℕ → ℕ
expires_at issued = saturating_add issued pairing_link_ttl_ms

unfoldable pub validate_payload_freshness : ℕ → ℕ → Result ℕ PairingError
validate_payload_freshness issued now = do
  _ ← ensure (not (issued == 0)) issue_time_missing
  _ ← ensure (not (ltb pairing_link_future_skew_ms (issued - now))) issue_time_invalid
  _ ← ensure (not (ltb (expires_at issued) now)) link_expired
  ok (expires_at issued)

-- What both versions check first: the fingerprint, the name and the code of the fingerprint.
unfoldable pub check_names :
    String → String → String → Result (String × String × String) PairingError
check_names fingerprint device_name verification_code =
    let fp = normalize_fingerprint fingerprint in
    let name = trim device_name in
    let expected = verification_code_from_fingerprint fp in
    do
      _ ← ensure (not (is_empty_str fp)) fingerprint_missing
      _ ← ensure (not (is_empty_str name)) device_name_missing
      _ ← ensure (trim verification_code == expected) code_invalid
      ok (fp, name, expected)

unfoldable pub validate_v1 : PairingPayloadV1 → ℕ → Result ValidatedPairingPayload PairingError
unfolding check_names validate_payload_freshness
validate_v1 p now = do
  names ← check_names p.fingerprint p.device_name p.verification_code
  expires ← validate_payload_freshness p.issued_at_unix_ms now
  ok (record {
    version = 1;
    fingerprint = names.0;
    device_name = names.1;
    verification_code = names.2;
    issued_at_unix_ms = p.issued_at_unix_ms;
    expires_at_unix_ms = expires;
    trust_model = "legacy_unsigned";
    signature_verified = false;
    migration_proof = none;
  })

-- The decimal digits of a number before others. Twenty are enough for a `u64`.
unfoldable pub decimal_digits : ℕ → ℕ → List ℕ → List ℕ
decimal_digits zero n later = later
decimal_digits (suc fuel) n later =
    let all = (48 + n % 10) ∷ later in
    let more = decimal_digits fuel (n / 10) all in if ltb n 10 then all else more

abbrev pub char_codes : String → List ℕ
char_codes String.[] = []
char_codes (String.◌∷◌ c s) = code c ∷ char_codes s

-- `format!("{}:{}", fingerprint, issued_at_unix_ms).as_bytes()`, of a normal fingerprint.
unfoldable pub proof_data : String → ℕ → List ℕ
unfolding decimal_digits
proof_data fp issued = char_codes fp ++ 58 ∷ decimal_digits 20 issued []

module _ (lib : Libraries) where
  -- A key and a signature as they are read, and the signature checked.
  unfoldable pub check_signature :
      PairingError
      → PairingError
      → PairingError
      → PairingError
      → PairingError
      → String
      → String
      → List ℕ
      → Result Done PairingError
  check_signature bad_key bad_key_length bad_encoding bad_length bad key_text signature_text bytes =
      do
        key ← ok_or (lib.decode_standard (trim key_text)) bad_key
        _ ← ensure (length key == 32) bad_key_length
        _ ← ensure (lib.is_key key) bad_key
        signature ← ok_or (lib.decode_standard (trim signature_text)) bad_encoding
        _ ← ensure (length signature == 64) bad_length
        ensure (lib.verify key bytes signature) bad

  abbrev pub checked_body : PairingPayloadV2 → String × String × String → PairingPayloadV2Body
  checked_body p (fp, name, expected) = record {
    version = 2;
    fingerprint = fp;
    device_name = name;
    verification_code = expected;
    issued_at_unix_ms = p.issued_at_unix_ms;
    signer_public_key = trim p.signer_public_key;
    migration_proof = p.migration_proof;
  }

  unfoldable pub check_migration_proof :
      Option IdentityMigrationProof → String → ℕ → Result Done PairingError
  unfolding check_signature proof_data
  check_migration_proof none fp issued = ok tt
  check_migration_proof (some proof) fp issued =
      check_signature previous_key_invalid previous_key_length proof_encoding proof_length
        proof_invalid proof.previous_public_key proof.signature (proof_data fp issued)

  unfoldable pub validate_v2 : PairingPayloadV2 → ℕ → Result ValidatedPairingPayload PairingError
  unfolding check_names check_signature check_migration_proof validate_payload_freshness
  validate_v2 p now = do
    names ← check_names p.fingerprint p.device_name p.verification_code
    _ ←
        check_signature signer_key_invalid signer_key_length signature_encoding signature_length
          signature_invalid p.signer_public_key p.signature (lib.body_json (checked_body p names))
    _ ← check_migration_proof p.migration_proof names.0 p.issued_at_unix_ms
    expires ← validate_payload_freshness p.issued_at_unix_ms now
    ok (record {
      version = 2;
      fingerprint = names.0;
      device_name = names.1;
      verification_code = names.2;
      issued_at_unix_ms = p.issued_at_unix_ms;
      expires_at_unix_ms = expires;
      trust_model = "signed_link";
      signature_verified = true;
      migration_proof = p.migration_proof;
    })

  unfoldable pub validate_json : Json → ℕ → Result ValidatedPairingPayload PairingError
  unfolding validate_v1 validate_v2
  validate_json json now = do
    version ← ok_or json.version unsupported_version
    if version == 1
        then ok_or json.as_v1 payload_not_decoded >>= (λ p. validate_v1 p now)
        else if version == 2
        then ok_or json.as_v2 payload_not_decoded >>= (λ p. validate_v2 p now)
        else err unsupported_version

  unfoldable pub validate_pairing_input_value :
      String → ℕ → Result ValidatedPairingPayload PairingError
  unfolding decode_pairing_payload_source validate_json
  validate_pairing_input_value input now = do
    source ← decode_pairing_payload_source lib input
    json ← ok_or (lib.parse_json source) not_json
    validate_json json now
