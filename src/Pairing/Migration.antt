-- ===== src/Pairing/Migration.antt =====
-- The move of a trusted peer to a new identity: `apply_identity_migration` of src-tauri/src/pairing.rs
-- with `migrate_trusted_peer_identity` of src-tauri/src/db.rs, on the rows of `Trust`.
use Prim.Native.String.{◌++◌}
use dash_drop.Base.{
  ℕ, String, Done, Bool, true, false, Option, none, some, List, ◌≡◌, refl, string_eq, is_empty_str,
  trim, Result, ok, err, ◌>>=◌, lookup, insert, remove, lookup-insert_self,
}
use dash_drop.Types.Trust.{TrustedPeer}
use dash_drop.Trust.{Trusted, SecurityEvent, log_event}
use dash_drop.Pairing.Codes.{normalize_fingerprint}
use dash_drop.Pairing.Payload.{
  IdentityMigrationProof, ValidatedPairingPayload, PairingError, local_key_invalid, Libraries,
}
use dash_drop.Pairing.Source.{ok_or}
use dash_drop.Pairing.Checks.{check_migration_proof, validate_v2, proof_data}
use dash_drop.Pairing.Build.{
  Signs, Encodes, IsTimely, signed_payload, accepted, check_signature-sign, validate_v2-signed,
}

-- What the row of a peer becomes.
abbrev pub migrated : String → String → TrustedPeer → TrustedPeer
migrated new_fp new_name peer = record peer {
  fingerprint = new_fp;
  name = new_name;
  frozen_at = none;
  freeze_reason = none;
}

abbrev pub migration_event : String → String → SecurityEvent
migration_event old_fp new_fp = record {
  event_type = "identity_migrated";
  phase = "pairing";
  peer_fingerprint = some new_fp;
  reason = "Successfully migrated identity from old fingerprint: " ++ old_fp;
}

-- The row that was read. `begins` says whether the transaction can start; its statements succeed.
unfoldable pub swap_rows :
    Bool → String → String → String → Option TrustedPeer → Trusted → Trusted × Result Done String
swap_rows begins old_fp new_fp new_name none s =
    (s, err ("Old fingerprint " ++ old_fp ++ " not found in trusted peers"))
swap_rows false old_fp new_fp new_name (some peer) s = (s, err "cannot start a transaction")
swap_rows true old_fp new_fp new_name (some peer) s = (
  log_event (migration_event old_fp new_fp)
      (record s { saved = insert new_fp (migrated new_fp new_name peer) (remove old_fp s.saved) }),
  ok tt,
)

unfoldable pub migrate_trusted_peer_identity :
    Bool → String → String → String → Trusted → Trusted × Result Done String
unfolding swap_rows
migrate_trusted_peer_identity begins old_fp new_fp new_name s =
    swap_rows begins old_fp new_fp new_name (lookup old_fp s.saved) s

unfoldable pub apply_identity_migration :
    Bool → ValidatedPairingPayload → Trusted → Trusted × Result Done String
unfolding migrate_trusted_peer_identity
apply_identity_migration begins payload s = elim payload.migration_proof [
  | none ↦ (s, err "No migration proof found in payload")
  | some proof ↦
      migrate_trusted_peer_identity begins proof.previous_fingerprint payload.fingerprint
        payload.device_name s
]

-- The proof that this device makes for its new fingerprint. Only the fingerprint and the key of the
-- identity are read.
unfoldable pub create_identity_migration_proof :
    Libraries → String → List ℕ → String → ℕ → Result IdentityMigrationProof PairingError
create_identity_migration_proof lib identity_fp key_der new_fp issued = do
  secret ← ok_or (lib.signing_key_of key_der) local_key_invalid
  ok (record {
    previous_fingerprint = normalize_fingerprint identity_fp;
    previous_public_key = lib.encode_standard (lib.verifying_key_of secret);
    signature =
        lib.encode_standard (lib.sign secret (proof_data (normalize_fingerprint new_fp) issued));
  })

-- The proof that a device makes is one that the readers of its new link accept.
create_identity_migration_proof-check :
    (lib : Libraries) (secret key_der : List ℕ) (identity_fp new_fp : String) (issued : ℕ)
    → Signs lib secret
    → Encodes lib
    → lib.signing_key_of key_der ≡ some secret
    → (proof : IdentityMigrationProof) × (create_identity_migration_proof lib identity_fp key_der
          new_fp issued
        ≡ ok proof)
      × (check_migration_proof lib (some proof) (normalize_fingerprint new_fp) issued ≡ ok tt)
unfolding create_identity_migration_proof check_migration_proof
create_identity_migration_proof-check lib secret key_der identity_fp new_fp issued signs encodes
      held =
    let proof : IdentityMigrationProof = record {
      previous_fingerprint = normalize_fingerprint identity_fp;
      previous_public_key = lib.encode_standard (lib.verifying_key_of secret);
      signature =
          lib.encode_standard (lib.sign secret (proof_data (normalize_fingerprint new_fp) issued));
    } in
    (
      proof,
      rw held refl,
      check_signature-sign lib secret _ _ _ _ _ (proof_data (normalize_fingerprint new_fp) issued)
          signs encodes,
    )

-- Nothing of the program: what the holder of any key can write instead, a proof that names any
-- fingerprint as the previous one.
abbrev pub claimed_proof : Libraries → List ℕ → String → String → ℕ → IdentityMigrationProof
claimed_proof lib secret victim fp issued = record {
  previous_fingerprint = victim;
  previous_public_key = lib.encode_standard (lib.verifying_key_of secret);
  signature = lib.encode_standard (lib.sign secret (proof_data (normalize_fingerprint fp) issued));
}

-- The fingerprint that a proof names is not bound to the key that signs it. Whoever holds a key
-- that can sign makes a payload which is accepted and of which the proof names any fingerprint as
-- the previous one; applied, it gives the row that is saved for that fingerprint, with its level
-- of trust, to the fingerprint of the payload. Base64 and Ed25519 undo and verify what they wrote,
-- the link is in its time and the transaction starts.
pub claimed_proof-apply :
    (lib : Libraries) (secret : List ℕ) (victim fp name : String) (issued now : ℕ)
    (peer : TrustedPeer) (s : Trusted)
    → Signs lib secret
    → Encodes lib
    → is_empty_str (normalize_fingerprint fp) ≡ false
    → is_empty_str (trim name) ≡ false
    → IsTimely issued now
    → lookup victim s.saved ≡ some peer
    → (payload : ValidatedPairingPayload) × (validate_v2 lib
          (signed_payload lib secret fp name issued
            (some (claimed_proof lib secret victim fp issued)))
          now
        ≡ ok payload)
      × (lookup (normalize_fingerprint fp) (apply_identity_migration true payload s).0.saved
          ≡ some (migrated (normalize_fingerprint fp) (trim name) peer))
unfolding apply_identity_migration check_migration_proof
claimed_proof-apply lib secret victim fp name issued now peer s signs encodes has_fp has_name timely
      trusted =
    let proof = claimed_proof lib secret victim fp issued in
    let new_fp = normalize_fingerprint fp in
    let proved =
      check_signature-sign lib secret _ _ _ _ _ (proof_data new_fp issued) signs encodes in
    (
      accepted fp name issued (some proof),
      validate_v2-signed lib secret signs encodes fp name issued now (some proof) has_fp has_name
          proved timely,
      rw trusted
          (lookup-insert_self new_fp (migrated new_fp (trim name) peer) (remove victim s.saved)),
    )
