-- ===== src/Discovery/Run.antt =====
-- The calls of discovery in any order: the index of sessions stays sound.
use dash_drop.Base.{
  ℕ, String, Option, none, some, List, [], ◌∷◌, ◌≡◌, refl, ◌∙◌, ap, nat_eq, string_eq, ltb, is_none,
  option_map, lookup, update, All-update, update_cases, Bool-cases, inl, inr, arith,
}
use dash_drop.Trust.{Peers}
use dash_drop.Types.Device.{IpAddr, SocketAddr, SessionInfo, SessionIndexEntry, DeviceInfo}
use dash_drop.Discovery.{
  Devices, Discovery, bump_event, bump_failure, find_entry, remove_session_from_state,
  should_apply_deferred_remove, select_probe_addrs, tick,
}
use dash_drop.Discovery.Calls.{
  ServiceInfo, handle_resolved, BeaconPacket, receive_beacon, DeferredRemove, session_of_entry,
  schedule_remove, remove_found, handle_removed, told_removed, apply_to_session,
  apply_deferred_remove, Probed, probe_loop, probed_device, bump_failures, run_probe_update,
}
use dash_drop.Discovery.Index.{
  HasSession, IsNamed, Pointed, IsSound, All-implied, remove_session_from_state-IsSound,
  tick-IsSound,
}
use dash_drop.Discovery.Sound.{
  same_tables, SameTables, handle_resolved-IsSound, receive_beacon-IsSound,
}

schedule_remove_same :
    (e : SessionIndexEntry) (o : Option SessionInfo) (s : Discovery)
    → SameTables s (schedule_remove e o s).0
unfolding schedule_remove
schedule_remove_same e none s = (refl, refl)
schedule_remove_same e (some session) s = ground arith

remove_found_same :
    (o : Option SessionIndexEntry) (s : Discovery) → SameTables s (remove_found o s).0
unfolding remove_found
remove_found_same none s = (refl, refl)
remove_found_same (some e) s = schedule_remove_same e (session_of_entry e s.devices) s

told_removed_same : (r : Discovery × Option SessionIndexEntry) → SameTables r.0 (told_removed r)
unfolding told_removed
told_removed_same (s, none) = (refl, refl)
told_removed_same (s, some e) = ground arith

apply_to_session-IsSound :
    (now : ℕ) (r : DeferredRemove) (o : Option SessionInfo) (s : Discovery)
    → IsSound s
    → IsSound (apply_to_session now r o s)
unfolding apply_to_session
apply_to_session-IsSound now r none s h = same_tables s _ refl refl h
apply_to_session-IsSound now r (some session) s h =
    let removed = remove_session_from_state r.session_id s in
    let told = told_removed_same removed in
    elim (Bool-cases
      (should_apply_deferred_remove session.last_seen_unix r.observed_last_seen now)) [
        | inl apply ↦ simp apply (
            same_tables removed.0 (told_removed removed) told.0 told.1
              (remove_session_from_state-IsSound r.session_id s h))
        | inr keep ↦ elim (Bool-cases (ltb r.observed_last_seen session.last_seen_unix)) [
          | inl refreshed ↦ simp (keep, refreshed) (same_tables s _ refl refl h)
          | inr stale ↦ simp (keep, stale) (same_tables s _ refl refl h)
        ]
      ]

apply_deferred_remove-IsSound :
    (now : ℕ) (r : DeferredRemove) (s : Discovery)
    → IsSound s
    → IsSound (apply_deferred_remove now r s)
unfolding apply_deferred_remove
apply_deferred_remove-IsSound now r s h =
    let e : SessionIndexEntry = record { fingerprint = r.fp; session_id = r.session_id } in
    same_tables (apply_to_session now r (session_of_entry e s.devices) s) _ refl refl
      (apply_to_session-IsSound now r (session_of_entry e s.devices) s h)

pub bump_failures_same : (keys : List String) (s : Discovery) → SameTables s (bump_failures keys s)
bump_failures_same [] s = (refl, refl)
bump_failures_same (key ∷ keys) s = bump_failures_same keys (bump_failure key s)

pub probed_device-sessions :
    (now : ℕ) (p : Probed) (attempted : List SocketAddr) (d : DeviceInfo)
    → (probed_device now p attempted d).sessions ≡ d.sessions
unfolding probed_device
probed_device-sessions now p attempted d = ground arith

probed_device-fingerprint :
    (now : ℕ) (p : Probed) (attempted : List SocketAddr) (d : DeviceInfo)
    → (probed_device now p attempted d).fingerprint ≡ d.fingerprint
unfolding probed_device
probed_device-fingerprint now p attempted d = ground arith

probed_device-HasSession :
    (now : ℕ) (p : Probed) (attempted : List SocketAddr) (fp : String) (devices : Devices)
    (v : SessionIndexEntry)
    → HasSession devices v
    → HasSession (update fp (probed_device now p attempted) devices) v
probed_device-HasSession now p attempted fp devices v (d, found, (x, has)) =
    update_cases
      (λ o.
        (d : DeviceInfo) × (o ≡ some d)
        × ((x : SessionInfo) × (lookup v.session_id d.sessions ≡ some x)))
      fp v.fingerprint (probed_device now p attempted) devices
      (λ same. (
        probed_device now p attempted d,
        ap (option_map (probed_device now p attempted)) found,
        (x, ap (lookup v.session_id) (probed_device-sessions now p attempted d) ∙ has),
      ))
      (λ other. (d, found, (x, has)))

probed-IsSound :
    (now : ℕ) (p : Probed) (attempted : List SocketAddr) (fp : String) (s : Discovery)
    → IsSound s
    → IsSound (record s { devices = update fp (probed_device now p attempted) s.devices })
probed-IsSound now p attempted fp s h =
    let devices = update fp (probed_device now p attempted) s.devices in
    record {
      pointed =
          All-implied (Pointed s.devices) (Pointed devices)
            (λ x has. probed_device-HasSession now p attempted fp s.devices x.1 has) s.session_index
            h.pointed;
      named =
          All-update IsNamed fp (probed_device now p attempted) s.devices
            (λ d same. probed_device-fingerprint now p attempted d ∙ same) h.named;
    }

run_probe_update-IsSound :
    (answer : SocketAddr → Option String) (now : ℕ) (fp : String) (addrs : List SocketAddr)
    (s : Discovery)
    → IsSound s
    → IsSound (run_probe_update answer now fp addrs s)
unfolding run_probe_update
run_probe_update-IsSound answer now fp addrs s h =
    let attempted = select_probe_addrs addrs in
    let p =
      probe_loop answer attempted
        (record { counters = []; success_addr = none; last_failure = none }) in
    let same = bump_failures_same p.counters s in
    let h1 = same_tables s (bump_failures p.counters s) same.0 same.1 h in
    let h2 = probed-IsSound now p attempted fp (bump_failures p.counters s) h1 in
    elim (Bool-cases (is_none (lookup fp s.devices))) [
      | inl gone ↦ simp gone h1
      | inr there ↦ elim (Bool-cases (is_none p.success_addr)) [
        | inl failed ↦ simp (there, failed) (same_tables _ _ refl refl h2)
        | inr answered_one ↦ simp (there, answered_one) (same_tables _ _ refl refl h2)
      ]
    ]

-- What may happen to the tables of discovery, with the two clocks.
pub data Happening : Type 0 where
  resolved : String → Peers → ServiceInfo → Happening
  removed : String → Happening
  grace_over : DeferredRemove → Happening
  beacon :
      (String → String) → (IpAddr → String) → String → Peers → BeaconPacket → IpAddr → Happening
  probed : (SocketAddr → Option String) → String → List SocketAddr → Happening
  maintained : Happening

abbrev pub happen : ℕ → ℕ → Happening → Discovery → Discovery
happen now instant (resolved own_fp peers info) s =
    handle_resolved own_fp peers now instant info (bump_event "service_resolved" s)
happen now instant (removed key) s = (handle_removed key (bump_event "service_removed" s)).0
happen now instant (grace_over r) s = apply_deferred_remove now r s
happen now instant (beacon session_of text_of own_fp peers packet src) s =
    receive_beacon session_of text_of own_fp peers now instant packet src s
happen now instant (probed answer fp addrs) s = run_probe_update answer now fp addrs s
happen now instant maintained s = tick now instant s

abbrev pub happen_all : List (ℕ × ℕ × Happening) → Discovery → Discovery
happen_all [] s = s
happen_all ((now, instant, x) ∷ xs) s = happen_all xs (happen now instant x s)

happen-IsSound :
    (now instant : ℕ) (x : Happening) (s : Discovery) → IsSound s → IsSound (happen now instant x s)
unfolding handle_removed
happen-IsSound now instant (resolved own_fp peers info) s h =
    handle_resolved-IsSound own_fp peers now instant info (bump_event "service_resolved" s)
      (same_tables s _ refl refl h)
happen-IsSound now instant (removed key) s h =
    let s' = bump_event "service_removed" s in
    let same = remove_found_same (find_entry key s.session_index) s' in
    same_tables s' (handle_removed key s').0 same.0 same.1 (same_tables s s' refl refl h)
happen-IsSound now instant (grace_over r) s h = apply_deferred_remove-IsSound now r s h
happen-IsSound now instant (beacon session_of text_of own_fp peers packet src) s h =
    receive_beacon-IsSound session_of text_of own_fp peers now instant packet src s h
happen-IsSound now instant (probed answer fp addrs) s h =
    run_probe_update-IsSound answer now fp addrs s h
happen-IsSound now instant maintained s h = tick-IsSound now instant s h

-- Whatever services and beacons say, in any order, with any answers of the network and at any
-- times: each entry of the index of sessions names a device that is known and that has the session
-- of the entry, and each device stands under its own fingerprint, if it was so at the start.
pub happen_all-IsSound :
    (xs : List (ℕ × ℕ × Happening)) (s : Discovery) → IsSound s → IsSound (happen_all xs s)
happen_all-IsSound [] s h = h
happen_all-IsSound ((now, instant, x) ∷ xs) s h =
    happen_all-IsSound xs (happen now instant x s) (happen-IsSound now instant x s h)
