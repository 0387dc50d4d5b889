-- ===== src/Grants/Life.antt =====
-- The life of one token under the calls of state.rs on access grants.
use dash_drop.Base.{
  ℕ, String, false, Option, none, some, List, ◌≡◌, ◌≢◌, refl, ◌∙◌, ap, if◌then◌else◌, ok, err,
  lookup, is_blank, ◌<◌, saturating_add, ltb, string_eq, All, lookup-insert_self, lookup-insert_ne,
  lookup-remove_self,
}
use dash_drop.Grants.{
  Tokens, unknown_access_token, expired_access_token, Call, is_live, given, remove_given,
  issued_record, issue_local_ipc_access_grant, record_status, validate_given,
  validate_local_ipc_access_token, remove_if_ok, revoke_given, revoke_local_ipc_access_token,
  run_calls, token_ttl_ms,
}
use dash_drop.Grants.Table.{Undrawn, Spares, run_calls-Spares, run_calls-Undrawn}

validate-record_status :
    (at : ℕ) (token : String) (m : Tokens)
    → is_blank token ≡ false
    → (validate_local_ipc_access_token at (some token) m).1 ≡ record_status at (lookup token m)
unfolding validate_local_ipc_access_token validate_given given
validate-record_status at token m word = rw word refl

-- A token that a call has issued at `now` is accepted until its five minutes are over and refused
-- as expired from then on, whatever calls come in between, as long as they come before that end,
-- do not draw the same token, refresh it or revoke it. The token is not blank.
pub issue-validate :
    (now at : ℕ) (token : String) (previous : Option String) (calls : List (ℕ × Call)) (m : Tokens)
    → is_blank token ≡ false
    → All (λ c. (c.0 < saturating_add now token_ttl_ms) × Spares token c.1) calls
    → (validate_local_ipc_access_token at
        (some token)
        (run_calls calls (issue_local_ipc_access_grant now token previous m).0)).1
      ≡ (if ltb at (saturating_add now token_ttl_ms) then ok tt else err expired_access_token)
unfolding issue_local_ipc_access_grant record_status is_live
issue-validate now at token previous calls m word h =
    validate-record_status at token _ word
    ∙ ap (record_status at) (
        run_calls-Spares token (issued_record now) calls _ h
          (lookup-insert_self token (issued_record now) _))

-- A token that is not in the table stays unknown.
run_calls-validate :
    (at : ℕ) (token : String) (calls : List (ℕ × Call)) (m : Tokens)
    → is_blank token ≡ false
    → All (λ c. Undrawn token c.1) calls
    → lookup token m ≡ none
    → (validate_local_ipc_access_token at (some token) (run_calls calls m)).1
      ≡ err unknown_access_token
unfolding record_status
run_calls-validate at token calls m word h q =
    validate-record_status at token _ word
    ∙ ap (record_status at) (run_calls-Undrawn token calls m h q)

lookup-revoke :
    (now : ℕ) (token : String) (m : Tokens)
    → is_blank token ≡ false
    → (revoke_local_ipc_access_token now (some token) m).1 ≡ ok tt
    → lookup token (revoke_local_ipc_access_token now (some token) m).0 ≡ none
unfolding revoke_local_ipc_access_token revoke_given given remove_if_ok
lookup-revoke now token m word = rw (word) (λ p. rw p (lookup-remove_self token _))

-- A token that a revoke has taken away, with success, is unknown for ever after, whatever calls
-- follow, as long as none draws it again. The token is not blank.
pub revoke-validate :
    (now at : ℕ) (token : String) (calls : List (ℕ × Call)) (m : Tokens)
    → is_blank token ≡ false
    → All (λ c. Undrawn token c.1) calls
    → (revoke_local_ipc_access_token now (some token) m).1 ≡ ok tt
    → (validate_local_ipc_access_token at
        (some token)
        (run_calls calls (revoke_local_ipc_access_token now (some token) m).0)).1
      ≡ err unknown_access_token
revoke-validate now at token calls m word h p =
    run_calls-validate at token calls _ word h (lookup-revoke now token m word p)

lookup-issue_previous :
    (now : ℕ) (token drawn : String) (m : Tokens)
    → is_blank token ≡ false
    → drawn ≢ token
    → lookup token (issue_local_ipc_access_grant now drawn (some token) m).0 ≡ none
unfolding issue_local_ipc_access_grant given remove_given
lookup-issue_previous now token drawn m word other =
    lookup-insert_ne drawn token _ _ other ∙ (rw word (lookup-remove_self token _))

-- A token that is named as the previous one when another is issued is unknown for ever after,
-- whatever calls follow, as long as none draws it again. The token is not blank.
pub issue_previous-validate :
    (now at : ℕ) (token drawn : String) (calls : List (ℕ × Call)) (m : Tokens)
    → is_blank token ≡ false
    → drawn ≢ token
    → All (λ c. Undrawn token c.1) calls
    → (validate_local_ipc_access_token at
        (some token)
        (run_calls calls (issue_local_ipc_access_grant now drawn (some token) m).0)).1
      ≡ err unknown_access_token
issue_previous-validate now at token drawn calls m word other h =
    run_calls-validate at token calls _ word h (lookup-issue_previous now token drawn m word other)
