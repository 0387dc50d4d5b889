-- ===== src/Discovery/Leaving.antt =====
-- Which devices a round of the maintenance of src-tauri/src/discovery/browser.rs takes out of the
-- table, and that the user interface is told.
use dash_drop.Base.{
  ℕ, String, Bool, true, false, none, some, List, [], ◌∷◌, ◌++◌, ◌≡◌, ◌≢◌, refl, ◌∙◌, ap, ◌-◌, ◌&&◌,
  ◌||◌, not, ◌==◌, nat_eq, string_eq, leb, if◌then◌else◌, map, any, is_empty, option_map, lookup,
  retain, filter, sym, All, NodupKeys, lookup-retain, lookup-retain_dropped, Bool-cases, inl, inr,
  arith,
}
use dash_drop.Types.Device.{SessionInfo, DeviceInfo, ReachabilityStatus, offline, offline_candidate}
use dash_drop.Discovery.{
  Devices, Discovery, DeviceEvent, device_discovered, device_updated, device_lost, is_session_stale,
  should_emit_device_lost, should_mark_offline, is_candidate, is_offline, prune_sessions,
  mark_offline, tick_device, map_values, flat_values, pruned_pairs, updates_of, lost_devices, tick,
  device_lost_retention_secs,
}
use dash_drop.Discovery.Index.{lookup-map_values, tick-parts, ticked_devices, any-lost}
use dash_drop.Discovery.Offline.{lingers}

abbrev pub is_fresh : ℕ → SessionInfo → Bool
is_fresh instant s = not (leb 90 (instant - s.last_seen_instant))

-- Every session is stale, the device is on its way out, and it was not seen for long.
abbrev pub leaves : ℕ → ℕ → DeviceInfo → Bool
leaves now instant d =
    not (any (λ e. is_fresh instant e.1) d.sessions)
    && not (lingers d)
    && leb 45 (now - d.last_seen)

abbrev pub tells_lost : String → DeviceEvent → Bool
tells_lost fp (device_discovered x) = false
tells_lost fp (device_updated x) = false
tells_lost fp (device_lost x) = x == fp

retain_empty :
    (instant : ℕ) (sessions : List (String × SessionInfo))
    → is_empty (retain (is_fresh instant) sessions) ≡ not (any (λ e. is_fresh instant e.1) sessions)
unfolding retain
retain_empty instant [] = refl
retain_empty instant ((k, x) ∷ xs) = ground (arith, retain_empty instant xs)

-- Without a stale session, there is a fresh one or none at all.
none_stale :
    (instant : ℕ) (sessions : List (String × SessionInfo))
    → any (λ e. is_session_stale instant e.1) sessions ≡ false
    → any (λ e. is_fresh instant e.1) sessions ≡ not (is_empty sessions)
none_stale instant [] h = refl
none_stale instant ((k, x) ∷ xs) h = ground (arith, h)

some_stale :
    (instant : ℕ) (sessions : List (String × SessionInfo))
    → any (λ e. is_session_stale instant e.1) sessions ≡ true
    → is_empty sessions ≡ false
some_stale instant [] h = absurd (cc)
some_stale instant (x ∷ xs) h = refl

lost-mark_offline :
    (now : ℕ) (d : DeviceInfo)
    → should_emit_device_lost now (mark_offline now d) ≡ (
        is_empty d.sessions
        && not (lingers d)
        && leb device_lost_retention_secs (now - d.last_seen))
unfolding should_emit_device_lost mark_offline should_mark_offline
lost-mark_offline now d = ground arith

lost-tick_device :
    (now instant : ℕ) (d : DeviceInfo)
    → should_emit_device_lost now (tick_device now instant d) ≡ leaves now instant d
unfolding tick_device prune_sessions
lost-tick_device now instant d =
    lost-mark_offline now (prune_sessions instant d)
    ∙ elim (Bool-cases (any (λ e. is_session_stale instant e.1) d.sessions)) [
      | inl stale ↦
          ground
            (arith, stale, retain_empty instant d.sessions, some_stale instant d.sessions stale)
      | inr all_fresh ↦ ground (arith, all_fresh, none_stale instant d.sessions all_fresh)
    ]

any-lost_told :
    (fp : String) (xs : List String) (ys : List DeviceEvent)
    → any (λ x. x == fp) xs ≡ true
    → any (tells_lost fp) (ys ++ map device_lost xs) ≡ true
any-lost_told fp [] [] h = absurd (cc)
any-lost_told fp (x ∷ xs) [] h = elim (Bool-cases (x == fp)) [
  | inl same ↦ rw same refl
  | inr other ↦ rw other (any-lost_told fp xs [] (rw other at h))
]
any-lost_told fp xs (y ∷ ys) h = ground (arith, any-lost_told fp xs ys h)

tick-emitted :
    (now instant : ℕ) (s : Discovery)
    → (tick now instant s).emitted
      ≡ s.emitted
        ++ (flat_values (updates_of now instant) s.devices
            ++ map device_lost (lost_devices now (ticked_devices now instant s)))
unfolding tick
tick-emitted now instant s =
    elim (Bool-cases (is_empty (flat_values (pruned_pairs instant) s.devices))) [
      | inl nothing ↦ rw nothing refl
      | inr something ↦ rw something refl
    ]

any-told :
    (fp : String) (xs ys : List DeviceEvent)
    → any (tells_lost fp) ys ≡ true
    → any (tells_lost fp) (xs ++ ys) ≡ true
any-told fp [] ys h = h
any-told fp (x ∷ xs) ys h = ground (arith, any-told fp xs ys h)

map_values-NodupKeys :
    (f : DeviceInfo → DeviceInfo) (devices : Devices)
    → NodupKeys devices
    → NodupKeys (map_values f devices)
unfolding map_values
map_values-NodupKeys f [] h = tt
map_values-NodupKeys f ((k, d) ∷ devices) h =
    (others devices h.0, map_values-NodupKeys f devices h.1)
  where
    others : (m : Devices) → All (λ x. x.0 ≢ k) m → All (λ x. x.0 ≢ k) (map_values f m)
    others [] a = tt
    others ((j, v) ∷ m) a = (a.0, others m a.1)

-- The state of a device after the round: with a fresh session, or where it had none and was neither
-- a candidate nor offline, its state is as it was; otherwise it is offline after 15 seconds, or if
-- it was offline without a session, and else a candidate.
abbrev pub settled : ℕ → ℕ → DeviceInfo → ReachabilityStatus
settled now instant d =
    if any (λ e. is_fresh instant e.1) d.sessions || lingers d
    then d.reachability
    else if is_empty d.sessions && is_offline d.reachability || leb 15 (now - d.last_seen)
    then offline
    else offline_candidate

abbrev pub settled_device : ℕ → ℕ → DeviceInfo → DeviceInfo
settled_device now instant d = record d {
  sessions = filter (λ e. is_fresh instant e.1) d.sessions;
  reachability = settled now instant d;
}

retain-filter :
    (p : SessionInfo → Bool) (m : List (String × SessionInfo)) → retain p m ≡ filter (λ e. p e.1) m
unfolding retain
retain-filter p [] = refl
retain-filter p ((k, x) ∷ m) = elim (Bool-cases (p x)) [
  | inl keep ↦ rw keep (ap (◌∷◌ (k, x)) (retain-filter p m))
  | inr drop ↦ rw drop (retain-filter p m)
]

filter_fresh :
    (instant : ℕ) (m : List (String × SessionInfo))
    → any (λ e. is_session_stale instant e.1) m ≡ false
    → filter (λ e. is_fresh instant e.1) m ≡ m
filter_fresh instant [] h = refl
filter_fresh instant ((k, x) ∷ m) h = elim (Bool-cases (is_session_stale instant x)) [
  | inl stale ↦ absurd (ground (arith, stale, h))
  | inr fresh ↦ rw fresh (ap (◌∷◌ (k, x)) (filter_fresh instant m (rw fresh at h)))
]

abbrev fresh_sessions : ℕ → DeviceInfo → List (String × SessionInfo)
fresh_sessions instant d = filter (λ e. is_fresh instant e.1) d.sessions

abbrev pruned_state : ℕ → DeviceInfo → ReachabilityStatus
pruned_state instant d =
    if any (λ e. is_session_stale instant e.1) d.sessions && is_empty (fresh_sessions instant d)
    then offline_candidate
    else d.reachability

prune_sessions-fresh :
    (instant : ℕ) (d : DeviceInfo)
    → prune_sessions instant d
      ≡ record d { sessions = fresh_sessions instant d; reachability = pruned_state instant d }
unfolding prune_sessions
prune_sessions-fresh instant d =
    elim (Bool-cases (any (λ e. is_session_stale instant e.1) d.sessions)) [
      | inl stale ↦ rw (stale, retain-filter (is_fresh instant) d.sessions) refl
      | inr all_fresh ↦ rw (all_fresh, filter_fresh instant d.sessions all_fresh) refl
    ]

mark_offline-state :
    (now : ℕ) (d : DeviceInfo)
    → mark_offline now d
      ≡ record d { reachability = if should_mark_offline now d then offline else d.reachability }
unfolding mark_offline
mark_offline-state now d = elim (Bool-cases (should_mark_offline now d)) [
  | inl marked ↦ rw marked refl
  | inr same ↦ rw same refl
]

fresh_empty :
    (instant : ℕ) (m : List (String × SessionInfo))
    → is_empty (filter (λ e. is_fresh instant e.1) m) ≡ not (any (λ e. is_fresh instant e.1) m)
fresh_empty instant m =
    ap is_empty (sym (retain-filter (is_fresh instant) m)) ∙ retain_empty instant m

settled_is :
    (now instant : ℕ) (d : DeviceInfo)
    → (if is_empty (fresh_sessions instant d)
          && is_candidate (pruned_state instant d)
          && leb 15 (now - d.last_seen)
        then offline
        else pruned_state instant d)
      ≡ settled now instant d
settled_is now instant d = elim (Bool-cases (any (λ e. is_session_stale instant e.1) d.sessions)) [
  | inl stale ↦
      ground (arith, stale, fresh_empty instant d.sessions, some_stale instant d.sessions stale)
  | inr all_fresh ↦
      ground
        (arith, all_fresh, fresh_empty instant d.sessions, none_stale instant d.sessions all_fresh)
]

tick_device-settled :
    (now instant : ℕ) (d : DeviceInfo) → tick_device now instant d ≡ settled_device now instant d
unfolding tick_device should_mark_offline
tick_device-settled now instant d =
    ap (mark_offline now) (prune_sessions-fresh instant d)
    ∙ mark_offline-state now
        (record d { sessions = fresh_sessions instant d; reachability = pruned_state instant d })
    ∙ ap (λ r. record d { sessions = fresh_sessions instant d; reachability = r })
        (settled_is now instant d)

-- One round takes a device out of the table if and only if no session of it is fresh, it is a
-- candidate for going offline, or offline, or has sessions which are all stale, and it was last
-- seen at least 45 seconds before; the user interface is then told that the device is lost. Any
-- other device stays with exactly its fresh sessions. It keeps its state if it has such a session,
-- or if it had no session and was neither a candidate nor offline. Otherwise it is offline if it
-- was so without a session or was last seen at least 15 seconds before, and else a candidate. A
-- session is fresh for 90 seconds. Each device stands once in the table.
pub tick-leaves :
    (now instant : ℕ) (fp : String) (d : DeviceInfo) (s : Discovery)
    → NodupKeys s.devices
    → lookup fp s.devices ≡ some d
    → (lookup fp (tick now instant s).devices
        ≡ (if leaves now instant d then none else some (settled_device now instant d)))
      × ((not (leaves now instant d) || any (tells_lost fp) (tick now instant s).emitted) ≡ true)
tick-leaves now instant fp d s nodup found =
    let d' = tick_device now instant d in
    let found' : lookup fp (ticked_devices now instant s) ≡ some d' =
      lookup-map_values (tick_device now instant) fp s.devices
      ∙ ap (option_map (tick_device now instant)) found in
    let keeps : DeviceInfo → Bool = λ d. not (should_emit_device_lost now d) in
    let (devices, _) = tick-parts now instant s in
    elim (Bool-cases (leaves now instant d)) [
      | inl gone ↦
          let lost = lost-tick_device now instant d ∙ gone in
          rw gone (
            ap (lookup fp) devices
                ∙ lookup-retain_dropped keeps fp d' (ticked_devices now instant s)
                    (map_values-NodupKeys (tick_device now instant) s.devices nodup) found'
                    (ap not lost),
            ap (any (tells_lost fp)) (tick-emitted now instant s)
                ∙ any-told fp s.emitted _ (
                    any-lost_told fp (lost_devices now (ticked_devices now instant s))
                      (flat_values (updates_of now instant) s.devices)
                      (any-lost now fp d' (ticked_devices now instant s) found' lost)),
          )
      | inr stays ↦ rw stays (
        ap (lookup fp) devices
            ∙ lookup-retain keeps fp d' (ticked_devices now instant s)
                (ap not (lost-tick_device now instant d ∙ stays)) found'
            ∙ ap some (tick_device-settled now instant d),
        refl,
      )
    ]
