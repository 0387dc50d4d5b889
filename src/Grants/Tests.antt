-- ===== src/Grants/Tests.antt =====
-- The life of a token in small runs.
use dash_drop.Base.{
  ℕ, none, some, List, [], ◌∷◌, ◌≡◌, refl, ok, err, arith, string_eq, is_blank, lookup, retain,
}
use dash_drop.Grants.{
  Tokens, Call, issue, validate, revoke, issue_local_ipc_access_grant,
  validate_local_ipc_access_token, revoke_local_ipc_access_token, run_calls, unknown_access_token,
  expired_access_token, record_status, given, revoke_given, is_live, validate_given, retain_live,
  issued_record,
}
use dash_drop.Grants.Life.{issue-validate, revoke-validate}

abbrev empty : Tokens
empty = []

abbrev held : Tokens
held = ("a", issued_record 1000) ∷ []

abbrev calls : List (ℕ × Call)
calls = (2000, issue "b" none) ∷ (3000, validate (some "a")) ∷ (4000, revoke (some "b")) ∷ []

issue-validate_example :
    (validate_local_ipc_access_token 5000
      (some "a")
      (run_calls calls (issue_local_ipc_access_grant 1000 "a" none empty).0)).1
    ≡ ok tt
unfolding is_blank
issue-validate_example = issue-validate 1000 5000 "a" none calls empty refl (
  (omega arith, ((λ e. ground (arith, string_eq.eqb_iff "b" "a")), (λ e. absurd (cc)))),
  ((omega arith, tt), ((omega arith, (λ e. ground (arith, string_eq.eqb_iff "b" "a"))), tt)),
)

revoke-validate_example :
    (validate_local_ipc_access_token 5000
      (some "a")
      (run_calls calls (revoke_local_ipc_access_token 1500 (some "a") held).0)).1
    ≡ err unknown_access_token
unfolding is_blank revoke_local_ipc_access_token revoke_given given record_status is_live lookup
revoke-validate_example =
    revoke-validate 1500 5000 "a" calls held refl
      ((λ e. ground (arith, string_eq.eqb_iff "b" "a")), (tt, (tt, tt))) refl

-- After its end a token is expired, and the call that says so drops it.
expired :
    (validate_local_ipc_access_token 301000 (some "a") held ≡ (empty, err expired_access_token))
unfolding validate_local_ipc_access_token validate_given given is_blank record_status is_live lookup
    retain_live retain
expired = refl
