-- ===== src/Grants/Table.antt =====
-- What the calls of state.rs on access grants leave of one token in the table.
use dash_drop.Base.{
  ℕ, String, Option, none, some, List, [], ◌∷◌, ◌≡◌, ◌≢◌, refl, ◌∙◌, ap, inl, inr, ok, err, lookup,
  is_blank, ◌<◌, arith, string_eq, ◌==◌, Bool-cases, All, lookup-insert_ne, lookup-remove_self,
  lookup-retain, lookup-retain-none, lookup-remove_ne,
}
use dash_drop.Grants.{
  Tokens, LocalIpcAccessTokenRecord, GrantStatus, Call, issue, validate, revoke, count, is_live,
  retain_live, given, remove_given, issue_local_ipc_access_grant, validate_given,
  validate_local_ipc_access_token, remove_if_ok, revoke_given, revoke_local_ipc_access_token,
  active_local_ipc_access_grant_count, perform, run_calls,
}

-- No call draws the token again.
abbrev pub Undrawn : String → Call → Type 0
Undrawn token (issue drawn previous) = drawn ≢ token
Undrawn token (validate t) = Unit
Undrawn token (revoke t) = Unit
Undrawn token count = Unit

-- Nor does it name it to take it away.
abbrev pub Spares : String → Call → Type 0
Spares token (issue drawn previous) = (drawn ≢ token) × (previous ≢ some token)
Spares token (validate t) = Unit
Spares token (revoke t) = t ≢ some token
Spares token count = Unit

lookup-retain_live :
    (now : ℕ) (token : String) (r : LocalIpcAccessTokenRecord) (m : Tokens)
    → now < r.expires_at_unix_ms
    → lookup token m ≡ some r
    → lookup token (retain_live now m) ≡ some r
unfolding retain_live is_live
lookup-retain_live now token r m h q = lookup-retain (is_live now) token r m (ground arith) q

lookup-retain_live-none :
    (now : ℕ) (token : String) (m : Tokens)
    → lookup token m ≡ none
    → lookup token (retain_live now m) ≡ none
unfolding retain_live
lookup-retain_live-none now token m q = lookup-retain-none (is_live now) token m q

lookup-remove_given :
    (token : String) (t : Option String) (m : Tokens)
    → t ≢ some token
    → lookup token (remove_given (given t) m) ≡ lookup token m
unfolding remove_given given
lookup-remove_given token none m h = refl
lookup-remove_given token (some t) m h = elim (Bool-cases (is_blank t)) [
  | inl blank ↦ rw blank refl
  | inr word ↦ rw word (lookup-remove_ne t token m (λ p. h (ap some p)))
]

lookup-remove_given-none :
    (token : String) (t : Option String) (m : Tokens)
    → lookup token m ≡ none
    → lookup token (remove_given t m) ≡ none
unfolding remove_given
lookup-remove_given-none token none m q = q
lookup-remove_given-none token (some t) m q = elim (Bool-cases (t == token)) [
  | inl same ↦ ground (arith, string_eq.eqb_iff t token, lookup-remove_self t m)
  | inr other ↦ lookup-remove_ne t token m (λ p. ground (arith, string_eq.eqb_iff t token)) ∙ q
]

-- What `remove_if_ok` leaves of another token.
lookup-remove_if_ok :
    (token t : String) (status : GrantStatus) (m : Tokens)
    → t ≢ token
    → lookup token (remove_if_ok t status m) ≡ lookup token m
unfolding remove_if_ok
lookup-remove_if_ok token t (ok u) m h = lookup-remove_ne t token m h
lookup-remove_if_ok token t (err e) m h = refl

lookup-remove_if_ok-none :
    (token t : String) (status : GrantStatus) (m : Tokens)
    → lookup token m ≡ none
    → lookup token (remove_if_ok t status m) ≡ none
unfolding remove_if_ok remove_given
lookup-remove_if_ok-none token t (ok u) m q = lookup-remove_given-none token (some t) m q
lookup-remove_if_ok-none token t (err e) m q = q

given_spares : (token : String) (t : Option String) → t ≢ some token → given t ≢ some token
unfolding given
given_spares token none h = h
given_spares token (some t) h = elim (Bool-cases (is_blank t)) [
  | inl blank ↦ rw blank (λ p. absurd (cc))
  | inr word ↦ rw word h
]

-- A live token stays where another one is validated or revoked.
validate_given_spares :
    (token : String) (r : LocalIpcAccessTokenRecord) (now : ℕ) (t : Option String) (m : Tokens)
    → now < r.expires_at_unix_ms
    → lookup token m ≡ some r
    → lookup token (validate_given now t m).0 ≡ some r
unfolding validate_given
validate_given_spares token r now none m live q = q
validate_given_spares token r now (some t) m live q = lookup-retain_live now token r m live q

revoke_given_spares :
    (token : String) (r : LocalIpcAccessTokenRecord) (now : ℕ) (t : Option String) (m : Tokens)
    → now < r.expires_at_unix_ms
    → t ≢ some token
    → lookup token m ≡ some r
    → lookup token (revoke_given now t m).0 ≡ some r
unfolding revoke_given
revoke_given_spares token r now none m live h q = q
revoke_given_spares token r now (some t) m live h q =
    lookup-remove_if_ok token t _ _ (λ p. h (ap some p)) ∙ lookup-retain_live now token r m live q

perform-Spares :
    (token : String) (r : LocalIpcAccessTokenRecord) (now : ℕ) (c : Call) (m : Tokens)
    → now < r.expires_at_unix_ms
    → Spares token c
    → lookup token m ≡ some r
    → lookup token (perform now c m) ≡ some r
unfolding perform issue_local_ipc_access_grant validate_local_ipc_access_token
    revoke_local_ipc_access_token active_local_ipc_access_grant_count
perform-Spares token r now (issue drawn previous) m live spared q =
    lookup-insert_ne drawn token _ _ spared.0
    ∙ lookup-remove_given token previous _ spared.1
    ∙ lookup-retain_live now token r m live q
perform-Spares token r now (validate t) m live spared q =
    validate_given_spares token r now (given t) m live q
perform-Spares token r now (revoke t) m live spared q =
    revoke_given_spares token r now (given t) m live (given_spares token t spared) q
perform-Spares token r now count m live spared q = lookup-retain_live now token r m live q

validate_given-none :
    (token : String) (now : ℕ) (t : Option String) (m : Tokens)
    → lookup token m ≡ none
    → lookup token (validate_given now t m).0 ≡ none
unfolding validate_given
validate_given-none token now none m q = q
validate_given-none token now (some t) m q = lookup-retain_live-none now token m q

revoke_given-none :
    (token : String) (now : ℕ) (t : Option String) (m : Tokens)
    → lookup token m ≡ none
    → lookup token (revoke_given now t m).0 ≡ none
unfolding revoke_given
revoke_given-none token now none m q = q
revoke_given-none token now (some t) m q =
    lookup-remove_if_ok-none token t _ _ (lookup-retain_live-none now token m q)

perform-Undrawn :
    (token : String) (now : ℕ) (c : Call) (m : Tokens)
    → Undrawn token c
    → lookup token m ≡ none
    → lookup token (perform now c m) ≡ none
unfolding perform issue_local_ipc_access_grant validate_local_ipc_access_token
    revoke_local_ipc_access_token active_local_ipc_access_grant_count
perform-Undrawn token now (issue drawn previous) m other q =
    lookup-insert_ne drawn token _ _ other
    ∙ lookup-remove_given-none token (given previous) _ (lookup-retain_live-none now token m q)
perform-Undrawn token now (validate t) m other q = validate_given-none token now (given t) m q
perform-Undrawn token now (revoke t) m other q = revoke_given-none token now (given t) m q
perform-Undrawn token now count m other q = lookup-retain_live-none now token m q

pub run_calls-Spares :
    (token : String) (r : LocalIpcAccessTokenRecord) (calls : List (ℕ × Call)) (m : Tokens)
    → All (λ c. (c.0 < r.expires_at_unix_ms) × Spares token c.1) calls
    → lookup token m ≡ some r
    → lookup token (run_calls calls m) ≡ some r
unfolding run_calls
run_calls-Spares token r [] m h q = q
run_calls-Spares token r ((now, c) ∷ calls) m h q =
    run_calls-Spares token r calls (perform now c m) h.1
      (perform-Spares token r now c m h.0.0 h.0.1 q)

pub run_calls-Undrawn :
    (token : String) (calls : List (ℕ × Call)) (m : Tokens)
    → All (λ c. Undrawn token c.1) calls
    → lookup token m ≡ none
    → lookup token (run_calls calls m) ≡ none
unfolding run_calls
run_calls-Undrawn token [] m h q = q
run_calls-Undrawn token ((now, c) ∷ calls) m h q =
    run_calls-Undrawn token calls (perform now c m) h.1 (perform-Undrawn token now c m h.0 q)
