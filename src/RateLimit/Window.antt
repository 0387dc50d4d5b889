-- ===== src/RateLimit/Window.antt =====
-- What the limiters let through in one window.
use dash_drop.Base.{
  ℕ, false, none, some, List, [], ◌∷◌, ◌≡◌, ◌+◌, ◌-◌, ◌≤◌, ◌<◌, lookup, insert, Eq, string_eq,
  arith, All, length, lookup-insert_self, u32_max, min, lookup-insert_ne, ◌≢◌,
}
use dash_drop.RateLimit.{Counter, window_ms, fresh, hit, check, passed}

-- The calls fall into the window that starts at `start`.
abbrev pub InWindow : ℕ → List ℕ → Type 0
InWindow start = All (λ t. t ≤ start + window_ms)

hit_in_window :
    (now : ℕ) (c : Counter)
    → now ≤ c.window_start + window_ms
    → c.count < u32_max
    → (hit now c).count ≡ c.count + 1
unfolding hit
hit_in_window now c h b = ground arith

hit_start :
    (now : ℕ) (c : Counter)
    → now ≤ c.window_start + window_ms
    → (hit now c).window_start ≡ c.window_start
unfolding hit
hit_start now c h = ground arith

module _ {ℓ} {K : Type ℓ} ⦃e : Eq K⦄ (limit : ℕ) (key : K) where
  -- In one window, after `c.count` calls, as many calls pass as are left to the limit.
  passed_from :
      (times : List ℕ) (table : List (K × Counter)) (c : Counter)
      → lookup key table ≡ some c
      → InWindow c.window_start times
      → c.count + length times < u32_max
      → passed hit limit key times table ≡ min (length times) (limit - c.count)
  unfolding passed check
  passed_from [] table c found h b = omega arith
  passed_from (now ∷ times) table c found h b =
      let c' = hit now c in
      let start = hit_start now c h.0 in
      let one = hit_in_window now c h.0 (omega arith) in
      let rest =
        passed_from times (insert key c' table) c' (lookup-insert_self key c' table) (rw start h.1)
          (omega (arith, one)) in
      rw found (ground (arith, rest, one))

  -- The first call of a key opens a window: of the calls in it, which are fewer than the end of a
  -- word of 32 bits, exactly the first `limit` pass.
  pub passed_window :
      (now : ℕ) (times : List ℕ) (table : List (K × Counter))
      → lookup key table ≡ none
      → InWindow now times
      → length times < u32_max - 1
      → passed hit limit key (now ∷ times) table ≡ min (length (now ∷ times)) limit
  unfolding passed check
  passed_window now times table none_yet h b =
      let c' = hit now (fresh now) in
      let rest =
        passed_from times (insert key c' table) c' (lookup-insert_self key c' table)
          (rw (hit_start now (fresh now) (omega arith)) h)
          (omega (arith, hit_in_window now (fresh now) (omega arith) (omega arith))) in
      rw none_yet (ground (arith, rest, hit_in_window now (fresh now) (omega arith) (omega arith)))

  -- A call more than sixty seconds after the window's start opens a new one, whatever the count:
  -- it passes if the limit lets any call pass.
  pub check_new_window :
      (now : ℕ) (c : Counter) (table : List (K × Counter))
      → lookup key table ≡ some c
      → c.window_start + window_ms < now
      → 0 < limit
      → ((check hit limit now key table).1 ≡ false)
        × (lookup key (check hit limit now key table).0
            ≡ some (record { count = 1; window_start = now }))
  unfolding check hit
  check_new_window now c table found late pos =
      rw (found, lookup-insert_self key _ table) (ground arith, ground arith)

  -- A call for one key leaves the counters of the others alone.
  pub check_other :
      (bump : ℕ → Counter → Counter) (now : ℕ) (other : K) (table : List (K × Counter))
      → key ≢ other
      → lookup other (check bump limit now key table).0 ≡ lookup other table
  unfolding check
  check_other bump now other table h = lookup-insert_ne key other _ table h
