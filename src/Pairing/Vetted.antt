-- ===== src/Pairing/Vetted.antt =====
-- What is known of a pairing link that src-tauri/src/pairing.rs accepts.
use dash_drop.Base.{
  ℕ, String, Done, Bool, true, false, ◌≡◌, refl, sym, subst, ◌≤◌, ◌<◌, ◌-◌, not, ◌==◌, nat_eq,
  string_eq, ltb, is_empty_str, trim, trim_idem, Result, ok, bind-eq-ok, not-err-ok, arith,
  Bool-cases, inl, inr,
}
use dash_drop.Pairing.Codes.{
  normalize_fingerprint, verification_code_from_fingerprint, normalize_fingerprint_idem,
}
use dash_drop.Pairing.Payload.{
  ValidatedPairingPayload, PairingPayloadV1, PairingPayloadV2, PairingError, unsupported_version,
  Json, Libraries, payload_not_decoded,
}
use dash_drop.Pairing.Source.{ok_or, decode_pairing_payload_source}
use dash_drop.Pairing.Checks.{
  ensure, expires_at, pairing_link_future_skew_ms, validate_payload_freshness, check_names,
  check_signature, check_migration_proof, validate_v1, validate_v2, validate_json,
  validate_pairing_input_value,
}
use dash_drop.Pairing.Build.{IsTimely}

ensure-ok : (b : Bool) (why : PairingError) (x : Done) → ensure b why ≡ ok x → b ≡ true
ensure-ok true why x h = refl
ensure-ok false why x h = absurd (not-err-ok h)

not_zero : (n : ℕ) → not (n == 0) ≡ true → 0 < n
not_zero n h = ground arith

not_less : (a b : ℕ) → not (ltb a b) ≡ true → b ≤ a
not_less a b h = ground arith

unok {ℓ} : {A : Type ℓ} (x y : A) → Path (Result A PairingError) (ok x) (ok y) → x ≡ y
unok x y h = cc

filled : (s : String) → not (is_empty_str s) ≡ true → is_empty_str s ≡ false
filled s h = ground arith

freshness-IsTimely :
    (issued now expires : ℕ)
    → validate_payload_freshness issued now ≡ ok expires
    → (expires ≡ expires_at issued) × IsTimely issued now
unfolding validate_payload_freshness
freshness-IsTimely issued now expires h =
    let (x, given, h1) = bind-eq-ok (ensure (not (issued == 0)) _) _ h in
    let (y, near, h2) =
      bind-eq-ok (ensure (not (ltb pairing_link_future_skew_ms (issued - now))) _) _ h1 in
    let (z, kept, h3) = bind-eq-ok (ensure (not (ltb (expires_at issued) now)) _) _ h2 in
    (
      unok _ _ (sym h3),
      record {
        issued_at_all = not_zero issued (ensure-ok _ _ x given);
        not_ahead = not_less _ _ (ensure-ok _ _ y near);
        not_over = not_less _ _ (ensure-ok _ _ z kept);
      },
    )

-- The fingerprint and the name are normal and not empty, the code is that of the fingerprint, and
-- the link is in its time.
pub record IsVetted (now : ℕ) (r : ValidatedPairingPayload) : Type 0 where
  pub normal_fp : normalize_fingerprint r.fingerprint ≡ r.fingerprint
  pub has_fp : is_empty_str r.fingerprint ≡ false
  pub trimmed_name : trim r.device_name ≡ r.device_name
  pub has_name : is_empty_str r.device_name ≡ false
  pub coded : r.verification_code ≡ verification_code_from_fingerprint r.fingerprint
  pub expiry : r.expires_at_unix_ms ≡ expires_at r.issued_at_unix_ms
  pub timely : IsTimely r.issued_at_unix_ms now

-- The names that were checked.
record AreNames (names : String × String × String) : Type 0 where
  normal : normalize_fingerprint names.0 ≡ names.0
  has_fp : is_empty_str names.0 ≡ false
  trimmed : trim names.1 ≡ names.1
  has_name : is_empty_str names.1 ≡ false
  coded : names.2 ≡ verification_code_from_fingerprint names.0

check_names-AreNames :
    (fp name given : String) (names : String × String × String)
    → check_names fp name given ≡ ok names
    → AreNames names
unfolding check_names
check_names-AreNames fp name given names h =
    let normal = normalize_fingerprint fp in
    let (x, a, h1) = bind-eq-ok (ensure (not (is_empty_str normal)) _) _ h in
    let (y, b, h2) = bind-eq-ok (ensure (not (is_empty_str (trim name))) _) _ h1 in
    let (z, c, h3) =
      bind-eq-ok (ensure (trim given == verification_code_from_fingerprint normal) _) _ h2 in
    subst AreNames (unok _ _ h3) (record {
      normal = normalize_fingerprint_idem fp;
      has_fp = filled _ (ensure-ok _ _ x a);
      trimmed = trim_idem name;
      has_name = filled _ (ensure-ok _ _ y b);
      coded = refl;
    })

vetted :
    (now : ℕ) (names : String × String × String) (r : ValidatedPairingPayload)
    → AreNames names
    → r.fingerprint ≡ names.0
    → r.device_name ≡ names.1
    → r.verification_code ≡ names.2
    → (r.expires_at_unix_ms ≡ expires_at r.issued_at_unix_ms) × IsTimely r.issued_at_unix_ms now
    → IsVetted now r
vetted now names r n fp name given (expiry, timely) = record {
  normal_fp = rw fp n.normal;
  has_fp = rw fp n.has_fp;
  trimmed_name = rw name n.trimmed;
  has_name = rw name n.has_name;
  coded = rw (given, fp) n.coded;
  expiry = expiry;
  timely = timely;
}

validate_v1-IsVetted :
    (p : PairingPayloadV1) (now : ℕ) (r : ValidatedPairingPayload)
    → validate_v1 p now ≡ ok r
    → IsVetted now r
unfolding validate_v1
validate_v1-IsVetted p now r h =
    let (names, checked, h1) =
      bind-eq-ok (check_names p.fingerprint p.device_name p.verification_code) _ h in
    let (expires, fresh, h2) =
      bind-eq-ok (validate_payload_freshness p.issued_at_unix_ms now) _ h1 in
    subst (IsVetted now) (unok _ _ h2) (
      vetted now names _ (check_names-AreNames _ _ _ names checked) refl refl refl
        (freshness-IsTimely _ _ _ fresh))

module _ (lib : Libraries) where
  validate_v2-IsVetted :
      (p : PairingPayloadV2) (now : ℕ) (r : ValidatedPairingPayload)
      → validate_v2 lib p now ≡ ok r
      → IsVetted now r
  unfolding validate_v2
  validate_v2-IsVetted p now r h =
      let (names, checked, h1) =
        bind-eq-ok (check_names p.fingerprint p.device_name p.verification_code) _ h in
      let (x, signed, h2) =
        bind-eq-ok (check_signature lib _ _ _ _ _ p.signer_public_key p.signature _) _ h1 in
      let (y, proved, h3) =
        bind-eq-ok (check_migration_proof lib p.migration_proof names.0 p.issued_at_unix_ms) _ h2 in
      let (expires, fresh, h4) =
        bind-eq-ok (validate_payload_freshness p.issued_at_unix_ms now) _ h3 in
      subst (IsVetted now) (unok _ _ h4) (
        vetted now names _ (check_names-AreNames _ _ _ names checked) refl refl refl
          (freshness-IsTimely _ _ _ fresh))

  validate_json-IsVetted :
      (json : Json) (now : ℕ) (r : ValidatedPairingPayload)
      → validate_json lib json now ≡ ok r
      → IsVetted now r
  unfolding validate_json
  validate_json-IsVetted json now r h =
      let (version, given, h1) = bind-eq-ok (ok_or json.version unsupported_version) _ h in
      elim (Bool-cases (version == 1)) [
        | inl first ↦
            let (p, decoded, h2) =
              bind-eq-ok (ok_or json.as_v1 payload_not_decoded) (λ p. validate_v1 p now)
                (rw first at h1) in
            validate_v1-IsVetted p now r h2
        | inr later ↦ elim (Bool-cases (version == 2)) [
          | inl second ↦
              let (p, decoded, h2) =
                bind-eq-ok (ok_or json.as_v2 payload_not_decoded) (λ p. validate_v2 lib p now)
                  (rw (later, second) at h1) in
              validate_v2-IsVetted p now r h2
          | inr other ↦ absurd (not-err-ok (rw (later, other) at h1))
        ]
      ]

  -- Whatever text is given as a pairing link: if it is accepted, signed or not, the fingerprint and
  -- the name that come out are normal and not empty, the verification code is that of the
  -- fingerprint, the link expires ten minutes after its time of issue and has not, and it was
  -- issued at most two minutes after the time of the reader.
  pub validate_pairing_input_value-IsVetted :
      (input : String) (now : ℕ) (r : ValidatedPairingPayload)
      → validate_pairing_input_value lib input now ≡ ok r
      → IsVetted now r
  unfolding validate_pairing_input_value
  validate_pairing_input_value-IsVetted input now r h =
      let (source, decoded, h1) = bind-eq-ok (decode_pairing_payload_source lib input) _ h in
      let (json, parsed, h2) = bind-eq-ok (ok_or (lib.parse_json source) _) _ h1 in
      validate_json-IsVetted json now r h2
