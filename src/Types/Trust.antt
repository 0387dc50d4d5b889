-- ===== src/Types/Trust.antt =====
-- src-tauri/src/state.rs: trusted peers and the levels of trust.
use dash_drop.Base.{ℕ, String, Bool, true, false, Option, leb, if◌then◌else◌}

pub data TrustLevel : Type 0 where
  legacy_paired signed_link_verified mutual_confirmed frozen : TrustLevel

pub data TrustVerificationMethod : Type 0 where
  manual_pairing legacy_unsigned_link signed_pairing_link mutual_receipt : TrustVerificationMethod

pub record TrustedPeer : Type 0 where
  pub fingerprint : String
  pub name : String
  pub paired_at : ℕ
  pub trust_level : TrustLevel
  pub last_verification_method : TrustVerificationMethod
  pub alias : Option String
  pub last_used_at : Option ℕ
  pub remote_confirmation_material_seen_at : Option ℕ
  pub local_confirmation_at : Option ℕ
  pub mutual_confirmed_at : Option ℕ
  pub frozen_at : Option ℕ
  pub freeze_reason : Option String

-- The derived order: by the place of the constructor.
abbrev pub rank : TrustLevel → ℕ
rank legacy_paired = 0
rank signed_link_verified = 1
rank mutual_confirmed = 2
rank frozen = 3

unfoldable pub max_level : TrustLevel → TrustLevel → TrustLevel
max_level a b = if leb (rank b) (rank a) then a else b

unfoldable pub apply_verification : TrustLevel → TrustLevel → TrustLevel
unfolding max_level
apply_verification frozen legacy_paired = legacy_paired
apply_verification frozen signed_link_verified = signed_link_verified
apply_verification frozen mutual_confirmed = mutual_confirmed
apply_verification current next = max_level current next

unfoldable pub allows_sensitive_send : TrustLevel → Bool
allows_sensitive_send frozen = false
allows_sensitive_send _ = true
