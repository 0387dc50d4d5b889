-- ===== src/RateLimit.antt =====
-- The per-peer limits of src-tauri/src/transport/handshake.rs and the per-address limit of
-- src-tauri/src/transport/server.rs: a counter with the start of its window, one for each key.
-- Instants are milliseconds of a clock that does not go back.
pub mod Window
mod Tests
use dash_drop.Base.{
  ℕ, String, Bool, true, false, Option, none, some, List, ◌+◌, ◌-◌, ◌≤◌, ltb, if◌then◌else◌, lookup,
  insert, unwrap_or, Eq, string_eq, wrapping_add_u32, saturating_add_u32,
}
use dash_drop.Types.Protocol.{ErrorCode, rate_limited}
use dash_drop.Trust.{Peers, is_trusted}

pub record Counter : Type 0 where
  pub count : ℕ
  pub window_start : ℕ

abbrev pub window_ms : ℕ
window_ms = 60000

abbrev pub fresh : ℕ → Counter
fresh now = record { count = 0; window_start = now }

-- `or_insert((0, now))`, then a new window after more than sixty seconds.
unfoldable pub roll : ℕ → Counter → Counter
roll now c = if ltb window_ms (now - c.window_start) then fresh now else c

-- `*count += 1` of a release build, and `saturating_add`.
unfoldable pub hit : ℕ → Counter → Counter
unfolding roll
hit now c = let r = roll now c in record r { count = wrapping_add_u32 r.count 1 }

unfoldable pub hit_saturating : ℕ → Counter → Counter
unfolding roll
hit_saturating now c = let r = roll now c in record r { count = saturating_add_u32 r.count 1 }

-- One call of a limiter: the new table, and whether the call is over the limit.
unfoldable pub check {ℓ} :
    {K : Type ℓ} ⦃e : Eq K⦄
    → (ℕ → Counter → Counter)
    → ℕ
    → ℕ
    → K
    → List (K × Counter)
    → List (K × Counter) × Bool
check bump limit now key table =
    let c = bump now (unwrap_or (lookup key table) (fresh now)) in
    (insert key c table, ltb limit c.count)

abbrev pub offer_limit : Bool → ℕ
offer_limit trusted = if trusted then 60 else 20

abbrev pub connection_limit : Bool → ℕ
connection_limit trusted = if trusted then 400 else 120

abbrev pub limited : Bool → Option ErrorCode
limited true = some rate_limited
limited false = none

unfoldable pub check_offer_rate_limit :
    ℕ → Peers → String → List (String × Counter) → List (String × Counter) × Option ErrorCode
check_offer_rate_limit now peers fp table =
    let (table', over) = check hit (offer_limit (is_trusted fp peers)) now fp table in
    (table', limited over)

unfoldable pub check_connection_rate_limit :
    ℕ → Peers → String → List (String × Counter) → List (String × Counter) × Option ErrorCode
check_connection_rate_limit now peers fp table =
    let (table', over) = check hit (connection_limit (is_trusted fp peers)) now fp table in
    (table', limited over)

-- `ip_rate_limited` of server.rs; an address is a text.
unfoldable pub ip_rate_limited :
    ℕ → String → List (String × Counter) → List (String × Counter) × Bool
ip_rate_limited now ip table = check hit_saturating 120 now ip table

-- A run of calls for one key at the given instants, and how many of them pass.
unfoldable pub passed {ℓ} :
    {K : Type ℓ} ⦃e : Eq K⦄ → (ℕ → Counter → Counter) → ℕ → K → List ℕ → List (K × Counter) → ℕ
passed bump limit key List.[] table = 0
passed bump limit key (List.◌∷◌ now times) table =
    let (table', over) = check bump limit now key table in
    let rest = passed bump limit key times table' in if over then rest else rest + 1
