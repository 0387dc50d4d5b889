-- ===== src/Types/Device.antt =====
-- src-tauri/src/state.rs: the devices that discovery has found, and the addresses of Rust's library.
-- A version 4 address is its four bytes, a version 6 address its eight groups. An `Instant` is a
-- number of seconds.
use dash_drop.Base.{
  ℕ, String, Bool, true, false, Option, none, some, List, [], ◌∷◌, ◌≡◌, ◌↔◌, ◌&&◌, ◌||◌, not, ◌==◌,
  nat_eq, list_eq, list_beq_iff, ltb, leb, arith, Eq, is_empty, filter, if◌then◌else◌, any,
  lower_codes, ◌++◌,
}

pub data Platform : Type 0 where
  mac windows linux android ios unknown : Platform

-- `Platform::from`. No letter outside ASCII has one of the letters of these words as its small form.
abbrev pub is_word : String → String → Bool
is_word text word = lower_codes text == lower_codes word

unfoldable pub platform_from : String → Platform
unfolding lower_codes
platform_from text =
    if is_word text "mac" || is_word text "macos"
    then mac
    else if is_word text "win" || is_word text "windows"
    then windows
    else if is_word text "linux"
    then linux
    else if is_word text "android"
    then android
    else if is_word text "ios"
    then ios
    else unknown

pub data IpAddr : Type 0 where
  v4 : ℕ → ℕ → ℕ → ℕ → IpAddr
  v6 : List ℕ → IpAddr

pub record SocketAddr : Type 0 where
  pub ip : IpAddr
  pub port : ℕ
  pub scope_id : ℕ

abbrev pub ip_beq : IpAddr → IpAddr → Bool
ip_beq (v4 a b c d) (v4 a' b' c' d') = a == a' && b == b' && c == c' && d == d'
ip_beq (v4 a b c d) (v6 gs) = false
ip_beq (v6 gs) (v4 a b c d) = false
ip_beq (v6 gs) (v6 gs') = gs == gs'

pub ip_beq_iff : (x y : IpAddr) → (ip_beq x y ≡ true) ↔ (x ≡ y)
ip_beq_iff (v4 a b c d) (v4 a' b' c' d') = ground arith
ip_beq_iff (v4 a b c d) (v6 gs) = ground arith
ip_beq_iff (v6 gs) (v4 a b c d) = ground arith
ip_beq_iff (v6 gs) (v6 gs') = ground (arith, list_beq_iff gs gs')

instance abbrev pub ip_eq : Eq IpAddr
ip_eq = record { eqb = ip_beq; eqb_iff = ip_beq_iff }

abbrev pub addr_beq : SocketAddr → SocketAddr → Bool
addr_beq x y = x.ip == y.ip && x.port == y.port && x.scope_id == y.scope_id

pub addr_beq_iff : (x y : SocketAddr) → (addr_beq x y ≡ true) ↔ (x ≡ y)
addr_beq_iff x y = ground (arith, ip_beq_iff x.ip y.ip)

instance abbrev pub addr_eq : Eq SocketAddr
addr_eq = record { eqb = addr_beq; eqb_iff = addr_beq_iff }

abbrev pub is_ipv4 : SocketAddr → Bool
is_ipv4 a = elim a.ip [ v4 b c d e ↦ true | v6 gs ↦ false ]

abbrev pub is_loopback : IpAddr → Bool
is_loopback (v4 a b c d) = a == 127
is_loopback (v6 gs) = gs == (0 ∷ 0 ∷ 0 ∷ 0 ∷ 0 ∷ 0 ∷ 0 ∷ 1 ∷ [])

abbrev pub is_unspecified : IpAddr → Bool
is_unspecified (v4 a b c d) = a == 0 && b == 0 && c == 0 && d == 0
is_unspecified (v6 gs) = gs == (0 ∷ 0 ∷ 0 ∷ 0 ∷ 0 ∷ 0 ∷ 0 ∷ 0 ∷ [])

abbrev pub is_multicast : IpAddr → Bool
is_multicast (v4 a b c d) = leb 224 a && leb a 239
is_multicast (v6 []) = false
is_multicast (v6 (g ∷ gs)) = leb 0xFF00 g

-- `fe80::/10`.
abbrev pub is_unicast_link_local : IpAddr → Bool
is_unicast_link_local (v4 a b c d) = false
is_unicast_link_local (v6 []) = false
is_unicast_link_local (v6 (g ∷ gs)) = leb 0xFE80 g && ltb g 0xFEC0

pub data ReachabilityStatus : Type 0 where
  discovered reachable offline_candidate offline : ReachabilityStatus

pub record SessionInfo : Type 0 where
  pub session_id : String
  pub addrs : List SocketAddr
  pub last_seen_unix : ℕ
  pub last_seen_instant : ℕ

pub record SessionIndexEntry : Type 0 where
  pub fingerprint : String
  pub session_id : String

pub record DeviceInfo : Type 0 where
  pub fingerprint : String
  pub name : String
  pub platform : Platform
  pub trusted : Bool
  pub sessions : List (String × SessionInfo)
  pub last_seen : ℕ
  pub reachability : ReachabilityStatus
  pub probe_fail_count : ℕ
  pub last_probe_at : Option ℕ
  pub last_probe_result : Option String
  pub last_probe_error : Option String
  pub last_probe_error_detail : Option String
  pub last_probe_addr : Option SocketAddr
  pub last_probe_attempted_addrs : List SocketAddr
  pub last_resolve_raw_addr_count : ℕ
  pub last_resolve_usable_addr_count : ℕ
  pub last_resolve_hostname : Option String
  pub last_resolve_port : Option ℕ
  pub last_resolve_at : Option ℕ

-- Whether a connection can be tried, `is_connectable_addr` here and in discovery/browser.rs.
unfoldable pub is_connectable_addr : SocketAddr → Bool
is_connectable_addr a = is_ipv4 a || not (is_unicast_link_local a.ip && a.scope_id == 0)

-- The connectable ones, or all if there is none.
unfoldable pub prefer_connectable : List SocketAddr → List SocketAddr
prefer_connectable addrs =
    let filtered = filter is_connectable_addr addrs in if is_empty filtered then addrs else filtered

-- `let mut seen = HashSet::new(); addrs.retain(|a| seen.insert(*a))`.
unfoldable pub dedupe : List SocketAddr → List SocketAddr → List SocketAddr
dedupe seen [] = []
dedupe seen (a ∷ addrs) =
    let rest = dedupe (a ∷ seen) addrs in if any (λ b. b == a) seen then rest else a ∷ rest

-- `sessions.sort_by_key(|s| Reverse(s.last_seen_unix))`, which is stable.
unfoldable pub insert_session : SessionInfo → List SessionInfo → List SessionInfo
insert_session x [] = x ∷ []
insert_session x (y ∷ ys) =
    if ltb x.last_seen_unix y.last_seen_unix then y ∷ insert_session x ys else x ∷ y ∷ ys

unfoldable pub newest_first : List (String × SessionInfo) → List SessionInfo
unfolding insert_session
newest_first [] = []
newest_first ((key, x) ∷ sessions) = insert_session x (newest_first sessions)

unfoldable pub session_addrs : List SessionInfo → List SocketAddr
session_addrs [] = []
session_addrs (x ∷ xs) = x.addrs ++ session_addrs xs

unfoldable pub best_addrs : DeviceInfo → Option (List SocketAddr)
unfolding dedupe prefer_connectable session_addrs newest_first
best_addrs d =
    let addrs = dedupe [] (session_addrs (newest_first d.sessions)) in
    if is_empty addrs then none else some (prefer_connectable addrs)

pub record DeviceSloObservability : Type 0 where
  pub remote_peer_online_at : Option ℕ
  pub local_device_visible_at : Option ℕ

abbrev pub record_first_timestamp : ℕ → Option ℕ → Option ℕ
record_first_timestamp value none = some value
record_first_timestamp value (some slot) = some slot
