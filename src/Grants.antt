-- ===== src/Grants.antt =====
-- The access grants of the local IPC, src-tauri/src/state.rs: the table of the tokens that the
-- daemon has given out, and the calls that issue, validate, revoke and count them.
-- A call takes the time of the clock, in milliseconds, and the token that the random generator
-- draws.
pub mod Table
pub mod Life
mod Tests
use dash_drop.Base.{
  ℕ, String, Bool, false, true, Option, none, some, List, [], ◌∷◌, if◌then◌else◌, Result, ok, err,
  lookup, insert, remove, retain, is_blank, saturating_add, length, ltb, string_eq,
}

pub record LocalIpcAccessTokenRecord : Type 0 where
  pub expires_at_unix_ms : ℕ
  pub refresh_after_unix_ms : ℕ

pub record LocalIpcAccessGrant : Type 0 where
  pub access_token : String
  pub expires_at_unix_ms : ℕ
  pub refresh_after_unix_ms : ℕ

-- The three texts of an error.
pub data GrantError : Type 0 where
  missing_access_token : GrantError
  expired_access_token : GrantError
  unknown_access_token : GrantError

-- `Result<(), &str>`.
abbrev pub GrantStatus : Type 0
GrantStatus = Result {0, 0} Unit GrantError

abbrev pub Tokens : Type 0
Tokens = List (String × LocalIpcAccessTokenRecord)

abbrev pub token_ttl_ms : ℕ
token_ttl_ms = 300000

abbrev pub token_refresh_after_ms : ℕ
token_refresh_after_ms = 120000

-- The test that keeps a record.
unfoldable pub is_live : ℕ → LocalIpcAccessTokenRecord → Bool
is_live now r = ltb now r.expires_at_unix_ms

unfoldable pub retain_live : ℕ → Tokens → Tokens
retain_live now tokens = retain (is_live now) tokens

-- `token.filter(|value| !value.trim().is_empty())`.
unfoldable pub given : Option String → Option String
given none = none
given (some token) = if is_blank token then none else some token

unfoldable pub remove_given : Option String → Tokens → Tokens
remove_given none tokens = tokens
remove_given (some token) tokens = remove token tokens

abbrev pub issued_record : ℕ → LocalIpcAccessTokenRecord
issued_record now = record {
  expires_at_unix_ms = saturating_add now token_ttl_ms;
  refresh_after_unix_ms = saturating_add now token_refresh_after_ms;
}

unfoldable pub issue_local_ipc_access_grant :
    ℕ → String → Option String → Tokens → Tokens × LocalIpcAccessGrant
issue_local_ipc_access_grant now drawn previous tokens = (
  insert drawn (issued_record now) (remove_given (given previous) (retain_live now tokens)),
  record {
    access_token = drawn;
    expires_at_unix_ms = saturating_add now token_ttl_ms;
    refresh_after_unix_ms = saturating_add now token_refresh_after_ms;
  },
)

-- The status of a record that was looked up.
unfoldable pub record_status : ℕ → Option LocalIpcAccessTokenRecord → GrantStatus
record_status now none = err unknown_access_token
record_status now (some r) = if is_live now r then ok tt else err expired_access_token

unfoldable pub validate_given : ℕ → Option String → Tokens → Tokens × GrantStatus
validate_given now none tokens = (tokens, err missing_access_token)
validate_given now (some token) tokens =
    (retain_live now tokens, record_status now (lookup token tokens))

unfoldable pub validate_local_ipc_access_token : ℕ → Option String → Tokens → Tokens × GrantStatus
validate_local_ipc_access_token now token tokens = validate_given now (given token) tokens

-- `status?; tokens.remove(token)`.
unfoldable pub remove_if_ok : String → GrantStatus → Tokens → Tokens
remove_if_ok token (ok u) tokens = remove token tokens
remove_if_ok token (err e) tokens = tokens

unfoldable pub revoke_given : ℕ → Option String → Tokens → Tokens × GrantStatus
revoke_given now none tokens = (tokens, err missing_access_token)
revoke_given now (some token) tokens =
    let status = record_status now (lookup token tokens) in
    (remove_if_ok token status (retain_live now tokens), status)

unfoldable pub revoke_local_ipc_access_token : ℕ → Option String → Tokens → Tokens × GrantStatus
revoke_local_ipc_access_token now token tokens = revoke_given now (given token) tokens

unfoldable pub active_local_ipc_access_grant_count : ℕ → Tokens → Tokens × ℕ
active_local_ipc_access_grant_count now tokens =
    let tokens' = retain_live now tokens in (tokens', length tokens')

-- The calls, and a run of them, each with its time.
pub data Call : Type 0 where
  issue : String → Option String → Call
  validate : Option String → Call
  revoke : Option String → Call
  count : Call

unfoldable pub perform : ℕ → Call → Tokens → Tokens
perform now (issue drawn previous) tokens =
    (issue_local_ipc_access_grant now drawn previous tokens).0
perform now (validate token) tokens = (validate_local_ipc_access_token now token tokens).0
perform now (revoke token) tokens = (revoke_local_ipc_access_token now token tokens).0
perform now count tokens = (active_local_ipc_access_grant_count now tokens).0

unfoldable pub run_calls : List (ℕ × Call) → Tokens → Tokens
run_calls [] tokens = tokens
run_calls ((now, c) ∷ calls) tokens = run_calls calls (perform now c tokens)
