-- ===== src/Discovery/Offline.antt =====
-- How a device leaves the table of src-tauri/src/discovery/browser.rs: the rounds of the
-- maintenance, and what a probe leaves behind.
use dash_drop.Base.{
  ℕ, String, Bool, true, false, Option, none, some, List, [], ◌∷◌, ◌≡◌, refl, ◌∙◌, ap, ◌&&◌, ◌||◌,
  not, nat_eq, string_eq, any, is_empty, is_none, option_map, lookup, lookup-retain, lookup-update,
  Option-cases, inl, inr, arith, beq_refl,
}
use dash_drop.Types.Device.{SocketAddr, SessionInfo, DeviceInfo, reachable}
use dash_drop.Discovery.{
  Discovery, is_session_stale, is_candidate, is_offline, should_emit_device_lost,
  should_mark_offline, prune_sessions, mark_offline, tick_device, tick, select_probe_addrs,
}
use dash_drop.Discovery.Calls.{Probed, probe_loop, probed_device, bump_failures, run_probe_update}
use dash_drop.Discovery.Run.{bump_failures_same, probed_device-sessions}
use dash_drop.Discovery.Index.{lookup-map_values, tick-parts, ticked_devices}

-- The rounds of the maintenance, each at its two clocks.
abbrev pub tick_rounds : List (ℕ × ℕ) → Discovery → Discovery
tick_rounds [] s = s
tick_rounds ((now, instant) ∷ xs) s = tick_rounds xs (tick now instant s)

-- No session, and yet not on its way out.
abbrev pub lingers : DeviceInfo → Bool
lingers d = is_empty d.sessions && not (is_candidate d.reachability || is_offline d.reachability)

empty_any :
    (instant : ℕ) (sessions : List (String × SessionInfo))
    → is_empty sessions ≡ true
    → any (λ e. is_session_stale instant e.1) sessions ≡ false
empty_any instant [] h = refl
empty_any instant (x ∷ xs) h = absurd (cc)

tick_device-lingers :
    (now instant : ℕ) (d : DeviceInfo) → lingers d ≡ true → tick_device now instant d ≡ d
unfolding tick_device prune_sessions mark_offline should_mark_offline
tick_device-lingers now instant d h =
    let none_stale = empty_any instant d.sessions (ground arith) in ground (arith, none_stale, h)

lingers-kept : (now : ℕ) (d : DeviceInfo) → lingers d ≡ true → should_emit_device_lost now d ≡ false
unfolding should_emit_device_lost
lingers-kept now d h = ground arith

tick-lingers :
    (now instant : ℕ) (fp : String) (d : DeviceInfo) (s : Discovery)
    → lingers d ≡ true
    → lookup fp s.devices ≡ some d
    → lookup fp (tick now instant s).devices ≡ some d
tick-lingers now instant fp d s h found =
    ap (lookup fp) (tick-parts now instant s).0
    ∙ lookup-retain (λ d. not (should_emit_device_lost now d)) fp d (ticked_devices now instant s)
        (ap not (lingers-kept now d h))
        (lookup-map_values (tick_device now instant) fp s.devices
          ∙ ap (option_map (tick_device now instant)) found
          ∙ ap some (tick_device-lingers now instant d h))

tick_rounds-lingers :
    (xs : List (ℕ × ℕ)) (fp : String) (d : DeviceInfo) (s : Discovery)
    → lingers d ≡ true
    → lookup fp s.devices ≡ some d
    → lookup fp (tick_rounds xs s).devices ≡ some d
tick_rounds-lingers [] fp d s h found = found
tick_rounds-lingers ((now, instant) ∷ xs) fp d s h found =
    tick_rounds-lingers xs fp d (tick now instant s) h (tick-lingers now instant fp d s h found)

-- A probe has an answer as soon as one of its addresses answers.
probe_loop_answered :
    (answer : SocketAddr → Option String) (addrs : List SocketAddr) (p : Probed)
    → any (λ a. is_none (answer a)) addrs ≡ true
    → is_none (probe_loop answer addrs p).success_addr ≡ false
unfolding probe_loop
probe_loop_answered answer [] p h = absurd (cc)
probe_loop_answered answer (a ∷ addrs) p h = elim (Option-cases (answer a)) [
  | inl silent ↦ rw (silent, probe_loop, is_none) refl
  | inr (detail, failed) ↦
      let rest : any (λ a. is_none (answer a)) addrs ≡ true = rw failed at h in
      rw (failed, probe_loop, is_none) (probe_loop_answered answer addrs _ rest)
]

probed_device_answered :
    (t : ℕ) (p : Probed) (attempted : List SocketAddr) (d : DeviceInfo)
    → is_none p.success_addr ≡ false
    → (probed_device t p attempted d).reachability ≡ reachable
unfolding probed_device
probed_device_answered t p attempted d h = ground (arith, h)

run_probe_update-device :
    (answer : SocketAddr → Option String) (t : ℕ) (fp : String) (addrs : List SocketAddr)
    (d : DeviceInfo) (s : Discovery)
    → lookup fp s.devices ≡ some d
    → any (λ a. is_none (answer a)) (select_probe_addrs addrs) ≡ true
    → (d' : DeviceInfo) × (lookup fp (run_probe_update answer t fp addrs s).devices ≡ some d')
      × (d'.sessions ≡ d.sessions)
      × (d'.reachability ≡ reachable)
unfolding run_probe_update
run_probe_update-device answer t fp addrs d s found answers =
    let attempted = select_probe_addrs addrs in
    let p =
      probe_loop answer attempted
        (record { counters = []; success_addr = none; last_failure = none }) in
    let good =
      probe_loop_answered answer attempted
        (record { counters = []; success_addr = none; last_failure = none }) answers in
    (
      probed_device t p attempted d,
      rw (found, good)
          (lookup-update fp fp (probed_device t p attempted) (bump_failures p.counters s).devices
            ∙ rw (beq_refl fp) (
                ap (option_map (probed_device t p attempted))
                  (ap (lookup fp) (bump_failures_same p.counters s).0 ∙ found))),
      probed_device-sessions t p attempted d,
      probed_device_answered t p attempted d good,
    )

-- A device without a session that answers a probe is never lost: after any number of rounds of the
-- maintenance, at any times, it stands in the table as reachable, still without a session.
pub run_probe_update-lingers :
    (answer : SocketAddr → Option String) (t : ℕ) (fp : String) (addrs : List SocketAddr)
    (d : DeviceInfo) (s : Discovery) (xs : List (ℕ × ℕ))
    → lookup fp s.devices ≡ some d
    → d.sessions ≡ []
    → any (λ a. is_none (answer a)) (select_probe_addrs addrs) ≡ true
    → (d' : DeviceInfo) × (lookup fp (tick_rounds xs (run_probe_update answer t fp addrs s)).devices
        ≡ some d')
      × (d'.sessions ≡ [])
      × (d'.reachability ≡ reachable)
run_probe_update-lingers answer t fp addrs d s xs found alone answers =
    let (d', there, sessions, state) =
      run_probe_update-device answer t fp addrs d s found answers in
    (
      d',
      tick_rounds-lingers xs fp d' (run_probe_update answer t fp addrs s)
          (rw (sessions ∙ alone, state) refl) there,
      sessions ∙ alone,
      state,
    )
