-- ===== src/Discovery/Tests.antt =====
-- Two devices on a network: one that a beacon shows, and one that a service shows and takes back.
use dash_drop.Base.{
  insert, retain, ℕ, String, true, false, Option, none, some, List, [], ◌∷◌, ◌≡◌, refl, arith, any,
  is_none, lookup, string_eq, Distinct, contains, not, ◌&&◌, ◌||◌, if◌then◌else◌, unwrap_or, length,
}
use dash_drop.Types.Device.{
  mac, platform_from, v4, v6, SocketAddr, addr_eq, reachable, offline_candidate, SessionInfo,
  DeviceInfo, is_connectable_addr, best_addrs,
}
use dash_drop.Discovery.{
  find_entry, sort_dedupe_addrs, is_usable_peer_addr, prune_sessions, should_mark_offline,
  mark_offline, should_emit_device_lost, map_values, pruned_pairs, flat_values, Discovery, tick,
  tick_device, select_probe_addrs,
}
use dash_drop.Discovery.Calls.{
  seen_device, schedule_remove, remove_found, resolve_hostname_with_mdns, resolve_addrs, index_all,
  answered, ServiceInfo, BeaconPacket, Sighting, upsert, DeferredRemove, handle_resolved,
  handle_removed, apply_deferred_remove, run_probe_update, new_device,
}
use dash_drop.Discovery.Index.{IsSound}
use dash_drop.Discovery.Run.{Happening, happen_all, happen_all-IsSound}
use dash_drop.Discovery.Offline.{tick_rounds, run_probe_update-lingers}
use dash_drop.Discovery.Leaving.{leaves, settled_device, tells_lost, tick-leaves}
use dash_drop.Discovery.Newest.{last_sighting, IsNewestFirst}
use dash_drop.Discovery.Best.{is_known, any_known, best_addrs-Distinct}
use dash_drop.Discovery.Grace.{apply_deferred_remove-upsert}
use dash_drop.Discovery.Sound.{SameTables}

abbrev nothing : Discovery
nothing = record {
  devices = [];
  session_index = [];
  pending_removed_sessions = [];
  event_counts = [];
  failure_counts = [];
  slo_devices = [];
  emitted = [];
}

abbrev nothing-IsSound : IsSound nothing
nothing-IsSound = record { pointed = tt; named = tt }

abbrev service : ServiceInfo
service = record {
  fp = some "bb";
  id = some "s1";
  name = some "";
  platform = some "MacOS";
  fullname = "s1._dashdrop";
  hostname = "host.local.";
  port = 4000;
  addresses = v4 127 0 0 1 ∷ [];
  mdns_answer = answered false (v6 (0xFE80 ∷ 0 ∷ 0 ∷ 0 ∷ 0 ∷ 0 ∷ 0 ∷ 1 ∷ []) ∷ v4 10 0 0 2 ∷ []);
  dns_answer = [];
  visible_at = 5000;
}

abbrev packet : BeaconPacket
packet = record {
  kind = "dashdrop_beacon_v1";
  fp = "cc";
  name = "other";
  platform = "linux";
  port = 4001;
  instance_id = "i";
  ts = 6;
  visible_at = 6000;
}

abbrev history : List (ℕ × ℕ × Happening)
history =
    (5, 5, Happening.resolved "aa" [] service)
    ∷ (6, 6, Happening.beacon (λ i. i) (λ ip. "10.0.0.3") "aa" [] packet (v4 10 0 0 3))
    ∷ (7, 7, Happening.removed "s1._dashdrop")
    ∷ (
      22,
      22,
      Happening.grace_over (record { fp = "bb"; session_id = "s1"; observed_last_seen = 5 }),
    )
    ∷ (100, 100, Happening.maintained)
    ∷ []

happen_all-IsSound_example : IsSound (happen_all history nothing)
happen_all-IsSound_example = happen_all-IsSound history nothing nothing-IsSound

-- A device of which the only session was taken back.
abbrev alone : DeviceInfo
alone =
    record (new_device
      (record {
        fp = "bb";
        name = "b";
        platform = mac;
        session_id = "s1";
        addrs = [];
        raw_addr_count = 0;
        hostname = "host";
        port = 4000;
        visible_at = 5000;
      })
      false) { last_seen = 5; reachability = offline_candidate }

abbrev with_alone : Discovery
with_alone = record nothing { devices = ("bb", alone) ∷ [] }

abbrev addr_a : SocketAddr
addr_a = record { ip = v4 10 0 0 2; port = 4000; scope_id = 0 }

abbrev addr_b : SocketAddr
addr_b = record { ip = v6 (0xFE80 ∷ 0 ∷ 0 ∷ 0 ∷ 0 ∷ 0 ∷ 0 ∷ 1 ∷ []); port = 4000; scope_id = 0 }

abbrev answer : SocketAddr → Option String
answer a = none

run_probe_update-lingers_example :
    (d' : DeviceInfo) × (lookup "bb"
        (tick_rounds
          ((100, 100) ∷ (200, 200) ∷ [])
          (run_probe_update answer 20 "bb" (addr_b ∷ addr_a ∷ []) with_alone)).devices
      ≡ some d')
    × (d'.sessions ≡ [])
    × (d'.reachability ≡ reachable)
unfolding select_probe_addrs lookup is_connectable_addr
run_probe_update-lingers_example =
    run_probe_update-lingers answer 20 "bb" (addr_b ∷ addr_a ∷ []) alone with_alone
      ((100, 100) ∷ (200, 200) ∷ []) refl refl refl

tick-leaves_example :
    (lookup "bb" (tick 50 50 with_alone).devices
      ≡ (if leaves 50 50 alone then none else some (settled_device 50 50 alone)))
    × ((not (leaves 50 50 alone) || any (tells_lost "bb") (tick 50 50 with_alone).emitted) ≡ true)
unfolding lookup
tick-leaves_example = tick-leaves 50 50 "bb" alone with_alone (tt, tt) refl

-- At 50 it has gone, at 40 it is offline and still there.
gone_at_50 : length (tick 50 50 with_alone).devices ≡ 0
unfolding tick flat_values pruned_pairs retain map_values should_emit_device_lost tick_device
    mark_offline should_mark_offline prune_sessions
gone_at_50 = refl

there_at_40 : length (tick 40 40 with_alone).devices ≡ 1
unfolding tick flat_values pruned_pairs retain map_values should_emit_device_lost tick_device
    mark_offline should_mark_offline prune_sessions
there_at_40 = refl

abbrev session_at : String → ℕ → SocketAddr → String × SessionInfo
session_at id t a =
    (id, record { session_id = id; addrs = a ∷ []; last_seen_unix = t; last_seen_instant = t })

abbrev twice_there : DeviceInfo
twice_there = record alone { sessions = session_at "s1" 5 addr_b ∷ session_at "s2" 9 addr_a ∷ [] }

best_addrs-Distinct_example :
    IsNewestFirst (last_sighting twice_there.sessions) (unwrap_or (best_addrs twice_there) [])
    × Distinct (unwrap_or (best_addrs twice_there) [])
    × ((a : SocketAddr)
        → contains (unwrap_or (best_addrs twice_there) []) a ≡ (
            is_known twice_there a
            && (is_connectable_addr a || not (any_known is_connectable_addr twice_there))))
best_addrs-Distinct_example = best_addrs-Distinct twice_there

best_is : best_addrs twice_there ≡ some (addr_a ∷ [])
unfolding best_addrs is_connectable_addr
best_is = refl

abbrev again : Sighting
again = record {
  fp = "bb";
  name = "b";
  platform = mac;
  session_id = "s1";
  addrs = addr_a ∷ [];
  raw_addr_count = 1;
  hostname = "host";
  port = 4000;
  visible_at = 9000;
}

abbrev waiting : DeferredRemove
waiting = record { fp = "bb"; session_id = "s1"; observed_last_seen = 5 }

apply_deferred_remove-upsert_example :
    SameTables
      (upsert again ("s1" ∷ []) false 9 9 with_alone)
      (apply_deferred_remove 22 waiting (upsert again ("s1" ∷ []) false 9 9 with_alone))
apply_deferred_remove-upsert_example =
    apply_deferred_remove-upsert again ("s1" ∷ []) false 9 9 22 waiting with_alone refl refl
      (omega arith)

platform_is : platform_from "MacOS" ≡ mac
unfolding platform_from
platform_is = refl

abbrev first_seen : Discovery
first_seen = handle_resolved "aa" [] 5 5 service nothing

seen_twice_indexed : length first_seen.session_index ≡ 2
unfolding handle_resolved upsert index_all insert resolve_addrs is_usable_peer_addr
    resolve_hostname_with_mdns sort_dedupe_addrs
seen_twice_indexed = refl

removed_once : is_none (handle_removed "s1._dashdrop" first_seen).1 ≡ false
unfolding handle_removed handle_resolved remove_found find_entry lookup upsert index_all insert
    resolve_addrs is_usable_peer_addr resolve_hostname_with_mdns sort_dedupe_addrs schedule_remove
    seen_device
removed_once = refl
