-- ===== src/Pairing/Build.antt =====
-- The pairing link of this device in src-tauri/src/pairing.rs, and that other devices accept it.
use dash_drop.Base.{
  ℕ, String, true, false, Option, none, some, List, ◌≡◌, refl, ◌≤◌, ◌<◌, ◌-◌, not, ◌==◌, nat_eq,
  string_eq, ltb, length, is_empty_str, trim, trim_idem, trim_solid, is_solid, Result, ok, ◌>>=◌,
  arith, beq_refl,
}
use dash_drop.Pairing.Codes.{
  normalize_fingerprint, verification_code_from_fingerprint, normalize_fingerprint_idem, code_solid,
}
use dash_drop.Pairing.Payload.{
  IdentityMigrationProof, ValidatedPairingPayload, PairingPayloadV2Body, PairingPayloadV2,
  PairingError, local_fingerprint_missing, local_device_name_missing, local_key_invalid, Json,
  Libraries,
}
use dash_drop.Pairing.Source.{ok_or, link_of, is_one_entry, decode-link_of}
use dash_drop.Pairing.Checks.{
  ensure, expires_at, pairing_link_future_skew_ms, validate_payload_freshness, check_names,
  check_signature, check_migration_proof, validate_v2, validate_json, validate_pairing_input_value,
}

module _ (lib : Libraries) where
  abbrev pub signed_body :
      List ℕ → String → String → ℕ → Option IdentityMigrationProof → PairingPayloadV2Body
  signed_body secret fp name issued proof = record {
    version = 2;
    fingerprint = normalize_fingerprint fp;
    device_name = trim name;
    verification_code = verification_code_from_fingerprint (normalize_fingerprint fp);
    issued_at_unix_ms = issued;
    signer_public_key = lib.encode_standard (lib.verifying_key_of secret);
    migration_proof = proof;
  }

  -- The payload that the holder of a key signs.
  abbrev pub signed_payload :
      List ℕ → String → String → ℕ → Option IdentityMigrationProof → PairingPayloadV2
  signed_payload secret fp name issued proof =
      let body = signed_body secret fp name issued proof in
      record {
        version = body.version;
        fingerprint = body.fingerprint;
        device_name = body.device_name;
        verification_code = body.verification_code;
        issued_at_unix_ms = body.issued_at_unix_ms;
        signer_public_key = body.signer_public_key;
        signature = lib.encode_standard (lib.sign secret (lib.body_json body));
        migration_proof = proof;
      }

  abbrev pub link_with : List ℕ → String → String → ℕ → String
  link_with secret fp name issued =
      link_of (lib.encode_url_safe (lib.payload_json (signed_payload secret fp name issued none)))

  unfoldable pub build_signed_pairing_link :
      String → List ℕ → String → ℕ → Result String PairingError
  build_signed_pairing_link fp key_der name issued = do
    _ ← ensure (not (is_empty_str (normalize_fingerprint fp))) local_fingerprint_missing
    _ ← ensure (not (is_empty_str (trim name))) local_device_name_missing
    secret ← ok_or (lib.signing_key_of key_der) local_key_invalid
    ok (link_with secret fp name issued)

-- What Ed25519 promises of the signatures of a key.
pub record Signs (lib : Libraries) (secret : List ℕ) : Type 0 where
  pub key_length : length (lib.verifying_key_of secret) ≡ 32
  pub key_good : lib.is_key (lib.verifying_key_of secret) ≡ true
  pub signature_length : (bytes : List ℕ) → length (lib.sign secret bytes) ≡ 64
  pub verifies :
      (bytes : List ℕ)
      → lib.verify (lib.verifying_key_of secret) bytes (lib.sign secret bytes) ≡ true

-- What base64 promises: its texts are decoded, and have no white character and no separator.
pub record Encodes (lib : Libraries) : Type 0 where
  pub standard : (bytes : List ℕ) → lib.decode_standard (lib.encode_standard bytes) ≡ some bytes
  pub standard_solid : (bytes : List ℕ) → is_solid (lib.encode_standard bytes) ≡ true
  pub url_safe : (bytes : List ℕ) → lib.decode_url_safe (lib.encode_url_safe bytes) ≡ some bytes
  pub url_safe_solid : (bytes : List ℕ) → is_solid (lib.encode_url_safe bytes) ≡ true
  pub url_safe_one : (bytes : List ℕ) → is_one_entry (lib.encode_url_safe bytes) ≡ true

pub check_signature-sign :
    (lib : Libraries) (secret : List ℕ) (e1 e2 e3 e4 e5 : PairingError) (bytes : List ℕ)
    → Signs lib secret
    → Encodes lib
    → check_signature lib e1 e2 e3 e4 e5
        (lib.encode_standard (lib.verifying_key_of secret))
        (lib.encode_standard (lib.sign secret bytes))
        bytes
      ≡ ok tt
unfolding check_signature
check_signature-sign lib secret e1 e2 e3 e4 e5 bytes s e =
    let key = lib.verifying_key_of secret in
    let signature = lib.sign secret bytes in
    rw
      (
        trim_solid (lib.encode_standard key) (e.standard_solid key),
        trim_solid (lib.encode_standard signature) (e.standard_solid signature),
        e.standard key,
        e.standard signature,
        s.key_length,
        s.key_good,
        s.signature_length bytes,
        s.verifies bytes,
      )
      refl

-- A link that is not from too far in the future and not expired.
pub record IsTimely (issued now : ℕ) : Type 0 where
  pub issued_at_all : 0 < issued
  pub not_ahead : issued - now ≤ pairing_link_future_skew_ms
  pub not_over : now ≤ expires_at issued

not_above : (a b : ℕ) → b ≤ a → not (ltb a b) ≡ true
not_above a b h = ground arith

validate_payload_freshness-IsTimely :
    (issued now : ℕ)
    → IsTimely issued now
    → validate_payload_freshness issued now ≡ ok (expires_at issued)
unfolding validate_payload_freshness
validate_payload_freshness-IsTimely issued now t =
    let a : not (issued == 0) ≡ true = ground (arith, t.issued_at_all) in
    rw (a, not_above _ _ t.not_ahead, not_above _ _ t.not_over) refl

check_names-signed :
    (fp name : String)
    → is_empty_str (normalize_fingerprint fp) ≡ false
    → is_empty_str (trim name) ≡ false
    → check_names
        (normalize_fingerprint fp)
        (trim name)
        (verification_code_from_fingerprint (normalize_fingerprint fp))
      ≡ ok (
        normalize_fingerprint fp,
        trim name,
        verification_code_from_fingerprint (normalize_fingerprint fp),
      )
unfolding check_names
check_names-signed fp name has_fp has_name =
    let expected = verification_code_from_fingerprint (normalize_fingerprint fp) in
    rw
      (
        normalize_fingerprint_idem fp,
        trim_idem name,
        has_fp,
        has_name,
        trim_solid expected (code_solid (normalize_fingerprint fp)),
        beq_refl expected,
      )
      refl

-- What a device learns from a signed payload.
abbrev pub accepted : String → String → ℕ → Option IdentityMigrationProof → ValidatedPairingPayload
accepted fp name issued proof = record {
  version = 2;
  fingerprint = normalize_fingerprint fp;
  device_name = trim name;
  verification_code = verification_code_from_fingerprint (normalize_fingerprint fp);
  issued_at_unix_ms = issued;
  expires_at_unix_ms = expires_at issued;
  trust_model = "signed_link";
  signature_verified = true;
  migration_proof = proof;
}

module _ (lib : Libraries) (secret : List ℕ) (signs : Signs lib secret)
    (encodes : Encodes lib) where
  -- A payload that the holder of a key signed is accepted, whoever the holder is.
  pub validate_v2-signed :
      (fp name : String) (issued now : ℕ) (proof : Option IdentityMigrationProof)
      → is_empty_str (normalize_fingerprint fp) ≡ false
      → is_empty_str (trim name) ≡ false
      → check_migration_proof lib proof (normalize_fingerprint fp) issued ≡ ok tt
      → IsTimely issued now
      → validate_v2 lib (signed_payload lib secret fp name issued proof) now
        ≡ ok (accepted fp name issued proof)
  unfolding validate_v2
  validate_v2-signed fp name issued now proof has_fp has_name proved timely =
      let key_text = lib.encode_standard (lib.verifying_key_of secret) in
      let bytes = lib.body_json (signed_body lib secret fp name issued proof) in
      let signature = lib.sign secret bytes in
      rw
        (
          check_names-signed fp name has_fp has_name,
          trim_solid key_text (encodes.standard_solid (lib.verifying_key_of secret)),
          encodes.standard (lib.verifying_key_of secret),
          signs.key_length,
          signs.key_good,
          trim_solid (lib.encode_standard signature) (encodes.standard_solid signature),
          encodes.standard signature,
          signs.signature_length bytes,
          signs.verifies bytes,
          proved,
          validate_payload_freshness-IsTimely issued now timely,
        )
        refl

  build_signed_pairing_link-ok :
      (key_der : List ℕ) (fp name : String) (issued : ℕ)
      → lib.signing_key_of key_der ≡ some secret
      → is_empty_str (normalize_fingerprint fp) ≡ false
      → is_empty_str (trim name) ≡ false
      → build_signed_pairing_link lib fp key_der name issued
        ≡ ok (link_with lib secret fp name issued)
  unfolding build_signed_pairing_link
  build_signed_pairing_link-ok key_der fp name issued held has_fp has_name =
      rw (has_fp, has_name, held) refl

  module _ (fp name text : String) (issued now : ℕ) (json : Json)
      (has_fp : is_empty_str (normalize_fingerprint fp) ≡ false)
      (has_name : is_empty_str (trim name) ≡ false)
      (read : lib.from_utf8 (lib.payload_json (signed_payload lib secret fp name issued none))
        ≡ some text)
      (parsed : lib.parse_json text ≡ some json) (version : json.version ≡ some 2)
      (decoded : json.as_v2 ≡ some (signed_payload lib secret fp name issued none))
      (timely : IsTimely issued now) where
    pub validate-link_with :
        validate_pairing_input_value lib (link_with lib secret fp name issued) now
        ≡ ok (accepted fp name issued none)
    unfolding validate_pairing_input_value validate_json check_migration_proof
    validate-link_with =
        let bytes = lib.payload_json (signed_payload lib secret fp name issued none) in
        rw
          (
            decode-link_of lib (lib.encode_url_safe bytes) bytes text (encodes.url_safe_solid bytes)
                (encodes.url_safe_one bytes) (encodes.url_safe bytes) read,
            parsed,
            version,
            decoded,
          )
          (validate_v2-signed fp name issued now none has_fp has_name refl timely)

    -- A device with a fingerprint and a name builds a pairing link, and any device that reads the
    -- link accepts it, as long as the time of issue is not 0, the clock of the reader is at most two
    -- minutes behind it and the ten minutes of the link are not over. It learns the normal form of the
    -- fingerprint, the trimmed name and the verification code of the fingerprint. Base64, JSON and
    -- Ed25519 undo and verify what they wrote.
    pub build-validate :
        (key_der : List ℕ)
        → lib.signing_key_of key_der ≡ some secret
        → (link : String) × (build_signed_pairing_link lib fp key_der name issued ≡ ok link)
          × (validate_pairing_input_value lib link now ≡ ok (accepted fp name issued none))
    build-validate key_der held = (
      link_with lib secret fp name issued,
      build_signed_pairing_link-ok key_der fp name issued held has_fp has_name,
      validate-link_with,
    )
