-- ===== src/Discovery/Calls.antt =====
-- The handlers of src-tauri/src/discovery/browser.rs and of beacon.rs: a service that is resolved or
-- removed, a beacon, and the result of a probe.
use dash_drop.Base.{
  ℕ, String, Bool, Option, none, some, List, [], ◌∷◌, ◌++◌, ◌&&◌, ◌||◌, not, ◌==◌, nat_eq,
  string_eq, ltb, leb, if◌then◌else◌, length, map, filter, any, is_empty, is_none, option_map,
  option_bind, unwrap_or, lookup, insert, update, saturating_add_u32, is_empty_str, lower_contains,
}
use dash_drop.Trust.{Peers, is_trusted}
use dash_drop.Types.Device.{
  Platform, unknown, platform_from, IpAddr, SocketAddr, addr_eq, ReachabilityStatus, discovered,
  reachable, offline_candidate, offline, SessionInfo, SessionIndexEntry, DeviceInfo,
}
use dash_drop.Discovery.{
  Devices, SessionIndex, device_discovered, device_updated, Discovery, bump_event, bump_failure,
  record_device_visibility, emit, is_usable_peer_addr, sort_dedupe_addrs, select_probe_addrs,
  should_apply_deferred_remove, find_entry, remove_session_from_state,
}

-- What the lookup of a host name over mDNS came to. A task that fails ends it.
pub data HostnameAnswer : Type 0 where
  no_daemon start_failed : HostnameAnswer
  answered : Bool → List IpAddr → HostnameAnswer

-- A service as the browser hands it over, with the answers to its host name, and the clock in
-- milliseconds when it has become visible.
pub record ServiceInfo : Type 0 where
  pub fp : Option String
  pub id : Option String
  pub name : Option String
  pub platform : Option String
  pub fullname : String
  pub hostname : String
  pub port : ℕ
  pub addresses : List IpAddr
  pub mdns_answer : HostnameAnswer
  pub dns_answer : List SocketAddr
  pub visible_at : ℕ

abbrev pub socket_addr : ℕ → IpAddr → SocketAddr
socket_addr port ip = record { ip = ip; port = port; scope_id = 0 }

-- `.filter(|s| !s.is_empty())`.
abbrev pub non_empty : Option String → Option String
non_empty none = none
non_empty (some s) = if is_empty_str s then none else some s

unfoldable pub resolve_hostname_with_mdns :
    HostnameAnswer → ℕ → Discovery → Discovery × List SocketAddr
resolve_hostname_with_mdns no_daemon port s = (s, [])
resolve_hostname_with_mdns start_failed port s =
    (bump_failure "hostname_mdns_resolve_start_failed" s, [])
resolve_hostname_with_mdns (answered join_error found) port s =
    let addrs = sort_dedupe_addrs (filter is_usable_peer_addr (map (socket_addr port) found)) in
    let s1 = if join_error then bump_failure "hostname_mdns_resolve_join_error" s else s in
    (if is_empty addrs then bump_failure "hostname_mdns_resolve_no_usable_addr" s1 else s1, addrs)

unfoldable pub resolve_hostname_with_system_dns : List SocketAddr → List SocketAddr
resolve_hostname_with_system_dns found = sort_dedupe_addrs (filter is_usable_peer_addr found)

-- The addresses of a service: its own, or those of its host name.
unfoldable pub resolve_addrs : ServiceInfo → Discovery → Discovery × List SocketAddr
resolve_addrs info s =
    let own = filter is_usable_peer_addr (map (socket_addr info.port) info.addresses) in
    let (s1, by_mdns) =
      resolve_hostname_with_mdns info.mdns_answer info.port
        (bump_event "resolved_empty_addr_set" s) in
    let by_dns = resolve_hostname_with_system_dns info.dns_answer in
    if not (is_empty own)
    then (s, sort_dedupe_addrs own)
    else if not (is_empty by_mdns)
    then (s1, sort_dedupe_addrs by_mdns)
    else if not (is_empty by_dns)
    then (bump_event "resolved_addr_via_system_dns" s1, sort_dedupe_addrs by_dns)
    else (bump_event "resolved_kept_without_addrs" (bump_failure "resolved_no_usable_addrs" s1), [])

-- What a sighting says of a device, and the clock in milliseconds when it is visible.
pub record Sighting : Type 0 where
  pub fp : String
  pub name : String
  pub platform : Platform
  pub session_id : String
  pub addrs : List SocketAddr
  pub raw_addr_count : ℕ
  pub hostname : String
  pub port : ℕ
  pub visible_at : ℕ

abbrev pub new_device : Sighting → Bool → DeviceInfo
new_device g trusted = record {
  fingerprint = g.fp;
  name = g.name;
  platform = g.platform;
  trusted = trusted;
  sessions = [];
  last_seen = 0;
  reachability = discovered;
  probe_fail_count = 0;
  last_probe_at = none;
  last_probe_result = none;
  last_probe_error = none;
  last_probe_error_detail = none;
  last_probe_addr = none;
  last_probe_attempted_addrs = [];
  last_resolve_raw_addr_count = 0;
  last_resolve_usable_addr_count = 0;
  last_resolve_hostname = none;
  last_resolve_port = none;
  last_resolve_at = none;
}

-- `Offline | OfflineCandidate` becomes `Discovered`.
abbrev pub found_again : ReachabilityStatus → ReachabilityStatus
found_again discovered = discovered
found_again reachable = reachable
found_again offline_candidate = discovered
found_again offline = discovered

unfoldable pub seen_device : Sighting → Bool → ℕ → ℕ → DeviceInfo → DeviceInfo
seen_device g trusted now instant d = record d {
  sessions =
      insert g.session_id
        (record {
          session_id = g.session_id;
          addrs = g.addrs;
          last_seen_unix = now;
          last_seen_instant = instant;
        })
        d.sessions;
  trusted = trusted;
  last_seen = now;
  last_resolve_raw_addr_count = g.raw_addr_count;
  last_resolve_usable_addr_count = length g.addrs;
  last_resolve_hostname = some g.hostname;
  last_resolve_port = some g.port;
  last_resolve_at = some now;
  reachability = found_again d.reachability;
}

unfoldable pub index_all : List String → SessionIndexEntry → SessionIndex → SessionIndex
index_all [] entry index = index
index_all (key ∷ keys) entry index = index_all keys entry (insert key entry index)

-- The device and the index after a sighting; `aliases` are the keys that the session gets.
unfoldable pub upsert : Sighting → List String → Bool → ℕ → ℕ → Discovery → Discovery
unfolding record_device_visibility
upsert g aliases trusted now instant s =
    let known = lookup g.fp s.devices in
    let d = seen_device g trusted now instant (unwrap_or known (new_device g trusted)) in
    let entry : SessionIndexEntry = record { fingerprint = g.fp; session_id = g.session_id } in
    emit (if is_none known then device_discovered g.fp else device_updated g.fp) (
      record_device_visibility g.visible_at g.fp (record s {
        devices = insert g.fp d s.devices;
        session_index = index_all aliases entry s.session_index;
      }))

unfoldable pub handle_resolved : String → Peers → ℕ → ℕ → ServiceInfo → Discovery → Discovery
handle_resolved own_fp peers now instant info s =
    let fp = unwrap_or info.fp "" in
    let (s1, addrs) = resolve_addrs info s in
    let session_id = unwrap_or (non_empty info.id) info.fullname in
    if is_none info.fp
    then bump_failure "resolved_missing_fp_txt" s
    else if is_empty_str fp
    then bump_failure "resolved_empty_fp_txt" s
    else if fp == own_fp
    then bump_event "resolved_self_filtered" s
    else upsert
        (record {
          fp = fp;
          name = unwrap_or (non_empty info.name) info.hostname;
          platform = unwrap_or (option_map platform_from info.platform) unknown;
          session_id = session_id;
          addrs = addrs;
          raw_addr_count = length info.addresses;
          hostname = info.hostname;
          port = info.port;
          visible_at = info.visible_at;
        })
        (session_id ∷ info.fullname ∷ []) (is_trusted fp peers) now instant s1

-- A packet of the beacon, with the clock in milliseconds when its device has become visible.
pub record BeaconPacket : Type 0 where
  pub kind : String
  pub fp : String
  pub name : String
  pub platform : String
  pub port : ℕ
  pub instance_id : String
  pub ts : ℕ
  pub visible_at : ℕ

-- The receiving loop for one packet that was parsed, with `upsert_from_beacon`. `session_of` is
-- `format!("beacon:{}", ..)` and `text_of` the text of an address.
unfoldable pub receive_beacon :
    (String → String)
    → (IpAddr → String)
    → String
    → Peers
    → ℕ
    → ℕ
    → BeaconPacket
    → IpAddr
    → Discovery
    → Discovery
receive_beacon session_of text_of own_fp peers now instant packet src s =
    let candidate = socket_addr packet.port src in
    let session_id = session_of packet.instance_id in
    if not (packet.kind == "dashdrop_beacon_v1")
    then s
    else if packet.fp == own_fp
    then bump_event "beacon_self_filtered" s
    else if not (is_usable_peer_addr candidate)
    then bump_failure "beacon_unusable_addr" s
    else upsert
        (record {
          fp = packet.fp;
          name = packet.name;
          platform = platform_from packet.platform;
          session_id = session_id;
          addrs = candidate ∷ [];
          raw_addr_count = 1;
          hostname = text_of src;
          port = packet.port;
          visible_at = packet.visible_at;
        })
        (session_id ∷ []) (is_trusted packet.fp peers) now instant (bump_event "beacon_received" s)

-- A removal that waits for the end of its grace.
pub record DeferredRemove : Type 0 where
  pub fp : String
  pub session_id : String
  pub observed_last_seen : ℕ

abbrev pub session_of_entry : SessionIndexEntry → Devices → Option SessionInfo
session_of_entry e devices =
    option_bind (lookup e.fingerprint devices) (λ d. lookup e.session_id d.sessions)

-- `pending.insert(key)`: the key is the pair of the fingerprint and the session.
abbrev pub is_pending : SessionIndexEntry → List (String × String) → Bool
is_pending e pending = any (λ p. p.0 == e.fingerprint && p.1 == e.session_id) pending

unfoldable pub schedule_remove :
    SessionIndexEntry → Option SessionInfo → Discovery → Discovery × Option DeferredRemove
schedule_remove e none s = (bump_failure "service_removed_without_session" s, none)
schedule_remove e (some session) s =
    let waiting = record s {
      pending_removed_sessions = s.pending_removed_sessions ++ (e.fingerprint, e.session_id) ∷ [];
    } in
    if is_pending e s.pending_removed_sessions
    then (bump_event "service_removed_deferred_duplicate" s, none)
    else (
      bump_event "service_removed_deferred" waiting,
      some (record {
        fp = e.fingerprint;
        session_id = e.session_id;
        observed_last_seen = session.last_seen_unix;
      }),
    )

unfoldable pub remove_found :
    Option SessionIndexEntry → Discovery → Discovery × Option DeferredRemove
remove_found none s = (bump_failure "service_removed_without_index_entry" s, none)
remove_found (some e) s = schedule_remove e (session_of_entry e s.devices) s

-- The service says that it is gone.
unfoldable pub handle_removed : String → Discovery → Discovery × Option DeferredRemove
handle_removed key s = remove_found (find_entry key s.session_index) s

abbrev pub not_waiting : DeferredRemove → Discovery → Discovery
not_waiting r s = record s {
  pending_removed_sessions =
      filter (λ p. not (p.0 == r.fp && p.1 == r.session_id)) s.pending_removed_sessions;
}

-- The removal was applied: its event, and the device as it is now.
unfoldable pub told_removed : Discovery × Option SessionIndexEntry → Discovery
told_removed (s, none) = bump_event "service_removed_skipped_stale" s
told_removed (s, some e) =
    let s' = bump_event "service_removed_applied" s in
    if is_none (lookup e.fingerprint s.devices) then s' else emit (device_updated e.fingerprint) s'

-- The end of the grace, for the session as it is then.
unfoldable pub apply_to_session : ℕ → DeferredRemove → Option SessionInfo → Discovery → Discovery
apply_to_session now r none s = bump_event "service_removed_skipped_stale" s
apply_to_session now r (some session) s =
    if should_apply_deferred_remove session.last_seen_unix r.observed_last_seen now
    then told_removed (remove_session_from_state r.session_id s)
    else if ltb r.observed_last_seen session.last_seen_unix
    then bump_event "service_removed_skipped_refreshed" s
    else bump_event "service_removed_skipped_stale" s

unfoldable pub apply_deferred_remove : ℕ → DeferredRemove → Discovery → Discovery
apply_deferred_remove now r s = not_waiting r (
    apply_to_session now r
      (session_of_entry (record { fingerprint = r.fp; session_id = r.session_id }) s.devices) s)

-- The counter and the reason of a failed probe.
unfoldable pub classify_probe_error : String → String × String
unfolding lower_contains
classify_probe_error detail =
    if lower_contains detail "timeout" || lower_contains detail "timed out"
    then ("probe_timeout", "timeout")
    else if lower_contains detail "handshake"
    then ("probe_handshake", "handshake")
    else if lower_contains detail "refused"
        || lower_contains detail "unreachable"
        || lower_contains detail "invalid remote address"
    then ("probe_connect", "connect")
    else ("probe_other", "other")

-- The tries of a probe: the counters that failed tries move, the address that answered, and the
-- last failure. `answer` gives the error of an address, if it fails.
pub record Probed : Type 0 where
  pub counters : List String
  pub success_addr : Option SocketAddr
  pub last_failure : Option (SocketAddr × String)

unfoldable pub probe_loop : (SocketAddr → Option String) → List SocketAddr → Probed → Probed
probe_loop answer [] p = p
probe_loop answer (a ∷ addrs) p = elim (answer a) [
  | none ↦ record p { success_addr = some a }
  | some detail ↦ probe_loop answer addrs (record p {
    counters = p.counters ++ (classify_probe_error detail).0 ∷ [];
    last_failure = some (a, detail);
  })
]

unfoldable pub probed_reachability : ℕ → ReachabilityStatus → ReachabilityStatus
probed_reachability fails r = if leb 3 fails then offline_candidate else found_again r

unfoldable pub probed_device : ℕ → Probed → List SocketAddr → DeviceInfo → DeviceInfo
probed_device now p attempted d =
    let fails = saturating_add_u32 d.probe_fail_count 1 in
    if is_none p.success_addr
    then record d {
      last_probe_at = some now;
      probe_fail_count = fails;
      reachability = probed_reachability fails d.reachability;
      last_probe_result = some "failed";
      last_probe_error = option_map (λ f. (classify_probe_error f.1).1) p.last_failure;
      last_probe_error_detail = option_map (λ f. f.1) p.last_failure;
      last_probe_addr = option_map (λ f. f.0) p.last_failure;
      last_probe_attempted_addrs = attempted;
    }
    else record d {
      last_probe_at = some now;
      reachability = reachable;
      probe_fail_count = 0;
      last_probe_result = some "ok";
      last_probe_error = none;
      last_probe_error_detail = none;
      last_probe_addr = p.success_addr;
      last_probe_attempted_addrs = attempted;
    }

abbrev pub bump_failures : List String → Discovery → Discovery
bump_failures [] s = s
bump_failures (key ∷ keys) s = bump_failures keys (bump_failure key s)

unfoldable pub run_probe_update :
    (SocketAddr → Option String) → ℕ → String → List SocketAddr → Discovery → Discovery
run_probe_update answer now fp addrs s =
    let attempted = select_probe_addrs addrs in
    let p =
      probe_loop answer attempted
        (record { counters = []; success_addr = none; last_failure = none }) in
    let s1 = bump_failures p.counters s in
    let s2 = record s1 { devices = update fp (probed_device now p attempted) s1.devices } in
    if is_none (lookup fp s.devices)
    then s1
    else emit (device_updated fp)
        (if is_none p.success_addr then bump_failure "probe_failed" s2 else s2)
