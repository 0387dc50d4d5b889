-- ===== src/Pairing/Tests.antt =====
-- A toy of the libraries: base64 writes each byte in unary, and there is one key and one signature.
use Prim.Native.Char.{code}
use dash_drop.Base.{
  ℕ, String, true, none, some, List, [], ◌∷◌, ◌≡◌, refl, ap, ◌∙◌, ◌+◌, zero, suc, ◌==◌, nat_eq,
  list_eq, string_eq, if◌then◌else◌, is_solid, ok, arith, lookup, trim,
}
use dash_drop.Types.Trust.{TrustedPeer, mutual_confirmed, mutual_receipt}
use dash_drop.Trust.{Trusted}
use dash_drop.Pairing.Codes.{
  ascii_upper, digit, normalize_fingerprint, verification_code_from_fingerprint,
}
use dash_drop.Pairing.Payload.{ValidatedPairingPayload, Json, Libraries}
use dash_drop.Pairing.Source.{is_one_entry}
use dash_drop.Pairing.Checks.{validate_v2, validate_pairing_input_value}
use dash_drop.Pairing.Build.{
  Signs, Encodes, IsTimely, signed_payload, accepted, build_signed_pairing_link, link_with,
  validate-link_with, build-validate,
}
use dash_drop.Pairing.Migration.{
  migrated, claimed_proof, apply_identity_migration, claimed_proof-apply,
}
use dash_drop.Pairing.Vetted.{IsVetted, validate_pairing_input_value-IsVetted}

-- The third part has no byte of a value of two.
code_is : verification_code_from_fingerprint "ab" ≡ "8646-1003-13980"
unfolding verification_code_from_fingerprint ascii_upper digit
code_is = refl

normal_is : normalize_fingerprint "aB:c1 " ≡ "ABC1"
unfolding normalize_fingerprint ascii_upper
normal_is = refl

abbrev ones : ℕ → String → String
ones zero rest = String.◌∷◌ "0" rest
ones (suc n) rest = String.◌∷◌ "1" (ones n rest)

abbrev unary : List ℕ → String
unary [] = String.[]
unary (n ∷ ns) = ones n (unary ns)

abbrev read_unary : ℕ → String → List ℕ
read_unary n String.[] = []
read_unary n (String.◌∷◌ c s) =
    let more = read_unary (n + 1) s in
    let next = read_unary 0 s in if code c == 49 then more else n ∷ next

read-ones :
    (m n : ℕ) (ns : List ℕ)
    → read_unary 0 (unary ns) ≡ ns
    → read_unary m (ones n (unary ns)) ≡ (m + n) ∷ ns
read-ones m zero ns h = ap (λ r. m ∷ r) h ∙ ap (λ k. k ∷ ns) (omega arith)
read-ones m (suc n) ns h = read-ones (m + 1) n ns h ∙ ap (λ k. k ∷ ns) (omega arith)

read-unary : (ns : List ℕ) → read_unary 0 (unary ns) ≡ ns
read-unary [] = refl
read-unary (n ∷ ns) = read-ones 0 n ns (read-unary ns) ∙ ap (λ k. k ∷ ns) (omega arith)

ones_solid : (n : ℕ) (s : String) → is_solid s ≡ true → is_solid (ones n s) ≡ true
ones_solid zero s h = h
ones_solid (suc n) s h = ones_solid n s h

unary_solid : (ns : List ℕ) → is_solid (unary ns) ≡ true
unary_solid [] = refl
unary_solid (n ∷ ns) = ones_solid n (unary ns) (unary_solid ns)

ones_one : (n : ℕ) (s : String) → is_one_entry s ≡ true → is_one_entry (ones n s) ≡ true
ones_one zero s h = h
ones_one (suc n) s h = ones_one n s h

unary_one : (ns : List ℕ) → is_one_entry (unary ns) ≡ true
unary_one [] = refl
unary_one (n ∷ ns) = ones_one n (unary ns) (unary_one ns)

abbrev zeros : ℕ → List ℕ
zeros zero = []
zeros (suc n) = 0 ∷ zeros n

abbrev no_json : Libraries
no_json = record {
  decode_standard = λ s. some (read_unary 0 s);
  encode_standard = unary;
  decode_url_safe = λ s. some (read_unary 0 s);
  encode_url_safe = unary;
  from_utf8 = λ bytes. some "{}";
  parse_json = λ text. none;
  body_json = λ body. 7 ∷ [];
  payload_json = λ payload. 8 ∷ [];
  is_key = λ key. true;
  verify = λ key bytes signature. signature == zeros 64;
  signing_key_of = λ der. some [];
  verifying_key_of = λ secret. zeros 32;
  sign = λ secret bytes. zeros 64;
}

abbrev json : Json
json = record {
  version = some 2;
  as_v1 = none;
  as_v2 = some (signed_payload no_json [] "ab" " Home " 1000 none);
}

abbrev lib : Libraries
lib = record no_json { parse_json = λ text. some json }

abbrev signs : Signs lib []
signs = record {
  key_length = refl;
  key_good = refl;
  signature_length = λ bytes. refl;
  verifies = λ bytes. refl;
}

abbrev encodes : Encodes lib
encodes = record {
  standard = λ bytes. ap some (read-unary bytes);
  standard_solid = unary_solid;
  url_safe = λ bytes. ap some (read-unary bytes);
  url_safe_solid = unary_solid;
  url_safe_one = unary_one;
}

abbrev timely : IsTimely 1000 2000
timely = record { issued_at_all = omega arith; not_ahead = omega arith; not_over = omega arith }

build-validate_example :
    (link : String) × (build_signed_pairing_link lib "ab" [] " Home " 1000 ≡ ok link)
    × (validate_pairing_input_value lib link 2000 ≡ ok (accepted "ab" " Home " 1000 none))
unfolding normalize_fingerprint trim
build-validate_example =
    build-validate lib [] signs encodes "ab" " Home " "{}" 1000 2000 json refl refl refl refl refl
      refl timely [] refl

abbrev peer : TrustedPeer
peer = record {
  fingerprint = "VICTIM";
  name = "Friend";
  paired_at = 5;
  trust_level = mutual_confirmed;
  last_verification_method = mutual_receipt;
  alias = none;
  last_used_at = none;
  remote_confirmation_material_seen_at = some 6;
  local_confirmation_at = some 6;
  mutual_confirmed_at = some 6;
  frozen_at = none;
  freeze_reason = none;
}

abbrev trusted : Trusted
trusted = record { peers = ("VICTIM", peer) ∷ []; saved = ("VICTIM", peer) ∷ []; security_log = [] }

claimed_proof-apply_example :
    (payload : ValidatedPairingPayload) × (validate_v2 lib
        (signed_payload lib [] "ev" "Eve" 1000 (some (claimed_proof lib [] "VICTIM" "ev" 1000)))
        2000
      ≡ ok payload)
    × (lookup (normalize_fingerprint "ev") (apply_identity_migration true payload trusted).0.saved
        ≡ some (migrated (normalize_fingerprint "ev") (trim "Eve") peer))
unfolding normalize_fingerprint trim lookup
claimed_proof-apply_example =
    claimed_proof-apply lib [] "VICTIM" "ev" "Eve" 1000 2000 peer trusted signs encodes refl refl
      timely refl

validate_pairing_input_value-IsVetted_example : IsVetted 2000 (accepted "ab" " Home " 1000 none)
unfolding normalize_fingerprint trim
validate_pairing_input_value-IsVetted_example =
    validate_pairing_input_value-IsVetted lib (link_with lib [] "ab" " Home " 1000) 2000
      (accepted "ab" " Home " 1000 none)
      (validate-link_with lib [] signs encodes "ab" " Home " "{}" 1000 2000 json refl refl refl refl
        refl refl timely)
