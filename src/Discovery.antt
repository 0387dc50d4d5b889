-- ===== src/Discovery.antt =====
-- Discovery of devices: src-tauri/src/discovery/browser.rs and src-tauri/src/discovery/beacon.rs on
-- the tables of `AppState` in src-tauri/src/state.rs. A handler is one step; the table of devices and
-- the index of sessions, which the source locks one after the other, change together. `now` is the
-- clock in seconds and `instant` the monotonic clock. What the network answers is an argument.
pub mod Calls
pub mod Index
pub mod Sound
pub mod Run
pub mod Offline
pub mod Leaving
pub mod Addresses
pub mod Grace
pub mod Newest
pub mod Best
mod Tests
use dash_drop.Base.{
  ℕ, String, Bool, true, false, Option, none, some, List, [], ◌∷◌, ◌++◌, ◌+◌, ◌-◌, ◌&&◌, ◌||◌, not,
  ◌==◌, nat_eq, string_eq, ltb, leb, if◌then◌else◌, length, map, filter, any, find, is_empty, first,
  is_none, option_map, option_or, option_bind, unwrap_or, lookup, insert, remove, retain, update,
  contains_key, saturating_add, saturating_add_u32, is_empty_str,
}
use dash_drop.Types.Device.{
  Platform, IpAddr, SocketAddr, addr_eq, is_ipv4, is_loopback, is_unspecified, is_multicast,
  ReachabilityStatus, discovered, reachable, offline_candidate, offline, SessionInfo,
  SessionIndexEntry, DeviceInfo, prefer_connectable, dedupe, DeviceSloObservability,
  record_first_timestamp,
}

abbrev pub Devices : Type 0
Devices = List (String × DeviceInfo)

abbrev pub SessionIndex : Type 0
SessionIndex = List (String × SessionIndexEntry)

-- What the user interface is told of a device.
pub data DeviceEvent : Type 0 where
  device_discovered device_updated device_lost : String → DeviceEvent

pub record Discovery : Type 0 where
  pub devices : Devices
  pub session_index : SessionIndex
  pub pending_removed_sessions : List (String × String)
  pub event_counts : List (String × ℕ)
  pub failure_counts : List (String × ℕ)
  pub slo_devices : List (String × DeviceSloObservability)
  pub emitted : List DeviceEvent

abbrev pub offline_grace_secs : ℕ
offline_grace_secs = 15

abbrev pub device_lost_retention_secs : ℕ
device_lost_retention_secs = 45

abbrev pub session_stale_secs : ℕ
session_stale_secs = 90

unfoldable pub bump_counter : String → List (String × ℕ) → List (String × ℕ)
bump_counter key counts = insert key (saturating_add (unwrap_or (lookup key counts) 0) 1) counts

abbrev pub bump_event : String → Discovery → Discovery
bump_event key s = record s { event_counts = bump_counter key s.event_counts }

abbrev pub bump_failure : String → Discovery → Discovery
bump_failure key s = record s { failure_counts = bump_counter key s.failure_counts }

abbrev pub emit : DeviceEvent → Discovery → Discovery
emit e s = record s { emitted = s.emitted ++ e ∷ [] }

unfoldable pub record_device_visibility : ℕ → String → Discovery → Discovery
record_device_visibility observed_at fp s =
    let old =
      unwrap_or (lookup fp s.slo_devices)
        (record { remote_peer_online_at = none; local_device_visible_at = none }) in
    record s {
      slo_devices =
          insert fp
            (record {
              remote_peer_online_at = record_first_timestamp observed_at old.remote_peer_online_at;
              local_device_visible_at =
                  record_first_timestamp observed_at old.local_device_visible_at;
            })
            s.slo_devices;
    }

unfoldable pub is_usable_peer_addr : SocketAddr → Bool
is_usable_peer_addr a = not (is_loopback a.ip || is_unspecified a.ip || is_multicast a.ip)

-- `sort_by_key` is stable: the version 4 addresses first, each kind in its order.
unfoldable pub sort_dedupe_addrs : List SocketAddr → List SocketAddr
unfolding dedupe
sort_dedupe_addrs addrs = dedupe [] (filter is_ipv4 addrs ++ filter (λ a. not (is_ipv4 a)) addrs)

unfoldable pub select_probe_addrs : List SocketAddr → List SocketAddr
unfolding sort_dedupe_addrs prefer_connectable
select_probe_addrs addrs = prefer_connectable (sort_dedupe_addrs addrs)

unfoldable pub should_apply_deferred_remove : ℕ → ℕ → ℕ → Bool
should_apply_deferred_remove current observed now =
    leb current observed && leb offline_grace_secs (now - current)

abbrev pub is_session_stale : ℕ → SessionInfo → Bool
is_session_stale instant s = leb session_stale_secs (instant - s.last_seen_instant)

abbrev pub is_candidate : ReachabilityStatus → Bool
is_candidate discovered = false
is_candidate reachable = false
is_candidate offline_candidate = true
is_candidate offline = false

abbrev pub is_offline : ReachabilityStatus → Bool
is_offline discovered = false
is_offline reachable = false
is_offline offline_candidate = false
is_offline offline = true

unfoldable pub should_mark_offline : ℕ → DeviceInfo → Bool
should_mark_offline now d =
    is_empty d.sessions && is_candidate d.reachability && leb offline_grace_secs (now - d.last_seen)

unfoldable pub should_emit_device_lost : ℕ → DeviceInfo → Bool
should_emit_device_lost now d =
    is_empty d.sessions
    && is_offline d.reachability
    && leb device_lost_retention_secs (now - d.last_seen)

-- A device whose last session is gone.
abbrev pub without_session : String → DeviceInfo → DeviceInfo
without_session sid d =
    let left = remove sid d.sessions in
    record d {
      sessions = left;
      reachability = if is_empty left then offline_candidate else d.reachability;
    }

-- `index.get(key).or_else(|| index.values().find(..))`.
unfoldable pub find_entry : String → SessionIndex → Option SessionIndexEntry
find_entry key index =
    option_or (lookup key index) (option_map (λ e. e.1) (find (λ e. e.1.session_id == key) index))

-- The index without any alias of the session, and the device without it.
unfoldable pub drop_aliases : SessionIndexEntry → Discovery → Discovery
drop_aliases e s = record s {
  session_index = retain (λ v. not (v.session_id == e.session_id)) s.session_index;
  devices = update e.fingerprint (without_session e.session_id) s.devices;
}

unfoldable pub drop_found :
    Option SessionIndexEntry → Discovery → Discovery × Option SessionIndexEntry
drop_found none s = (s, none)
drop_found (some e) s = (drop_aliases e s, some e)

unfoldable pub remove_session_from_state : String → Discovery → Discovery × Option SessionIndexEntry
remove_session_from_state key s = drop_found (find_entry key s.session_index) s

-- The maintenance of one device: its stale sessions go, and it may be marked offline.
unfoldable pub prune_sessions : ℕ → DeviceInfo → DeviceInfo
prune_sessions instant d =
    let left = retain (λ s. not (is_session_stale instant s)) d.sessions in
    if any (λ e. is_session_stale instant e.1) d.sessions
    then record d {
      sessions = left;
      reachability = if is_empty left then offline_candidate else d.reachability;
    }
    else d

unfoldable pub mark_offline : ℕ → DeviceInfo → DeviceInfo
mark_offline now d = if should_mark_offline now d then record d { reachability = offline } else d

unfoldable pub tick_device : ℕ → ℕ → DeviceInfo → DeviceInfo
tick_device now instant d = mark_offline now (prune_sessions instant d)

-- `(device.fingerprint, session id)` of the sessions that are stale.
unfoldable pub pruned_pairs : ℕ → DeviceInfo → List (String × String)
pruned_pairs instant d =
    map (λ e. (d.fingerprint, e.0)) (filter (λ e. is_session_stale instant e.1) d.sessions)

unfoldable pub updates_of : ℕ → ℕ → DeviceInfo → List DeviceEvent
updates_of now instant d =
    let told = device_updated d.fingerprint in
    (if any (λ e. is_session_stale instant e.1) d.sessions then told ∷ [] else [])
    ++ (if should_mark_offline now (prune_sessions instant d) then told ∷ [] else [])

unfoldable pub map_values {ℓ} : {V : Type ℓ} → (V → V) → List (String × V) → List (String × V)
map_values f [] = []
map_values f ((k, v) ∷ m) = (k, f v) ∷ map_values f m

unfoldable pub flat_values {ℓ κ} :
    {V : Type ℓ} {B : Type κ} → (V → List B) → List (String × V) → List B
flat_values f [] = []
flat_values f ((k, v) ∷ m) = f v ++ flat_values f m

abbrev pub has_pair : String → String → List (String × String) → Bool
has_pair fp sid pairs = any (λ p. fp == p.0 && sid == p.1) pairs

-- The fingerprints of the devices that are lost.
unfoldable pub lost_devices : ℕ → Devices → List String
lost_devices now devices = map (λ e. e.0) (filter (λ e. should_emit_device_lost now e.1) devices)

-- One round of the maintenance.
unfoldable pub tick : ℕ → ℕ → Discovery → Discovery
tick now instant s =
    let pairs = flat_values (pruned_pairs instant) s.devices in
    let ticked = map_values (tick_device now instant) s.devices in
    let lost = lost_devices now ticked in
    let s' = record s {
      devices = retain (λ d. not (should_emit_device_lost now d)) ticked;
      session_index =
          retain
            (λ e.
              not (any (λ fp. fp == e.fingerprint) lost)
              && not (has_pair e.fingerprint e.session_id pairs))
            s.session_index;
      emitted =
          s.emitted ++ (flat_values (updates_of now instant) s.devices ++ map device_lost lost);
    } in
    if is_empty pairs then s' else bump_event "stale_session_pruned" s'
