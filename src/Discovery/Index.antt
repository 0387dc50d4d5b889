-- ===== src/Discovery/Index.antt =====
-- That the index of sessions of src-tauri/src/discovery/browser.rs points to sessions that devices
-- have, whatever the network says.
use dash_drop.Base.{
  ℕ, String, Bool, true, false, Option, none, some, List, [], ◌∷◌, ◌++◌, ◌≡◌, refl, sym, ◌∙◌, ap,
  subst, ◌&&◌, ◌||◌, not, ◌==◌, nat_eq, string_eq, map, filter, any, is_empty, option_map, lookup,
  retain, All, All-update, All-retain, All-lookup, lookup-remove_ne, lookup-retain, update_cases,
  Bool-cases, inl, inr, arith,
}
use dash_drop.Types.Device.{SessionInfo, SessionIndexEntry, DeviceInfo}
use dash_drop.Discovery.{
  Devices, Discovery, is_session_stale, should_emit_device_lost, without_session, find_entry,
  drop_aliases, drop_found, remove_session_from_state, prune_sessions, mark_offline, tick_device,
  pruned_pairs, map_values, flat_values, has_pair, lost_devices, tick,
}

-- The device of the entry has its session.
abbrev pub HasSession : Devices → SessionIndexEntry → Type 0
HasSession devices e =
    (d : DeviceInfo) × (lookup e.fingerprint devices ≡ some d)
    × ((x : SessionInfo) × (lookup e.session_id d.sessions ≡ some x))

abbrev pub IsNamed : String × DeviceInfo → Type 0
IsNamed (key, d) = d.fingerprint ≡ key

pub record IsSound (s : Discovery) : Type 0 where
  pub pointed : All (λ (x : String × SessionIndexEntry). HasSession s.devices x.1) s.session_index
  pub named : All IsNamed s.devices

module _ {ℓ κ} {A : Type ℓ} (P Q : A → Type κ) (f : (x : A) → P x → Q x) where
  pub All-implied : (xs : List A) → All P xs → All Q xs
  All-implied [] h = tt
  All-implied (x ∷ xs) h = (f x h.0, All-implied xs h.1)

-- What is kept by a test, with the test.
module _ {ℓ κ} {V : Type ℓ} (P Q : String × V → Type κ) (p : V → Bool)
    (f : (k : String) (v : V) → p v ≡ true → P (k, v) → Q (k, v)) where
  pub All-retain_map : (m : List (String × V)) → All P m → All Q (retain p m)
  unfolding retain
  All-retain_map [] h = tt
  All-retain_map ((k, v) ∷ m) h = elim (Bool-cases (p v)) [
    | inl keep ↦ rw keep (f k v keep h.0, All-retain_map m h.1)
    | inr drop ↦ rw drop (All-retain_map m h.1)
  ]

pub lookup-map_values {ℓ} :
    {V : Type ℓ} (f : V → V) (k : String) (m : List (String × V))
    → lookup k (map_values f m) ≡ option_map f (lookup k m)
unfolding lookup map_values
lookup-map_values f k [] = refl
lookup-map_values f k ((j, v) ∷ m) = ground (arith, lookup-map_values f k m)

-- A session that is dropped from another device, or under another name, leaves the rest.
drop_aliases-HasSession :
    (e v : SessionIndexEntry) (s : Discovery)
    → not (v.session_id == e.session_id) ≡ true
    → HasSession s.devices v
    → HasSession (drop_aliases e s).devices v
unfolding drop_aliases
drop_aliases-HasSession e v s other (d, found, (x, has)) =
    update_cases
      (λ o.
        (d : DeviceInfo) × (o ≡ some d)
        × ((x : SessionInfo) × (lookup v.session_id d.sessions ≡ some x)))
      e.fingerprint v.fingerprint (without_session e.session_id) s.devices
      (λ same. (
        without_session e.session_id d,
        ap (option_map (without_session e.session_id)) found,
        (
          x,
          lookup-remove_ne e.session_id v.session_id d.sessions
                (λ q. ground (arith, string_eq.eqb_iff v.session_id e.session_id))
              ∙ has,
        ),
      ))
      (λ apart. (d, found, (x, has)))

abbrev pub Pointed : Devices → String × SessionIndexEntry → Type 0
Pointed devices x = HasSession devices x.1

pub drop_aliases-IsSound :
    (e : SessionIndexEntry) (s : Discovery) → IsSound s → IsSound (drop_aliases e s)
unfolding drop_aliases
drop_aliases-IsSound e s h = record {
  pointed =
      All-retain_map (Pointed s.devices) (Pointed (drop_aliases e s).devices)
        (λ v. not (v.session_id == e.session_id))
        (λ k v other old. drop_aliases-HasSession e v s other old) s.session_index h.pointed;
  named =
      All-update IsNamed e.fingerprint (without_session e.session_id) s.devices (λ d same. same)
        h.named;
}

drop_found-IsSound :
    (o : Option SessionIndexEntry) (s : Discovery) → IsSound s → IsSound (drop_found o s).0
unfolding drop_found
drop_found-IsSound none s h = h
drop_found-IsSound (some e) s h = drop_aliases-IsSound e s h

pub remove_session_from_state-IsSound :
    (key : String) (s : Discovery) → IsSound s → IsSound (remove_session_from_state key s).0
unfolding remove_session_from_state
remove_session_from_state-IsSound key s h = drop_found-IsSound (find_entry key s.session_index) s h

-- A device that is lost is among the lost ones, and a stale session among the stale ones.
pub any-lost :
    (now : ℕ) (fp : String) (d : DeviceInfo) (devices : Devices)
    → lookup fp devices ≡ some d
    → should_emit_device_lost now d ≡ true
    → any (λ x. x == fp) (lost_devices now devices) ≡ true
unfolding lookup lost_devices
any-lost now fp d [] found lost = absurd (cc)
any-lost now fp d ((key, v) ∷ devices) found lost = elim (Bool-cases (key == fp)) [
  | inl same ↦
      let first : v ≡ d = ground (arith, same, found) in
      subst (λ v. any (λ x. x == fp) (lost_devices now ((key, v) ∷ devices)) ≡ true) (sym first)
        (ground (arith, lost, same))
  | inr other ↦
      let rest = any-lost now fp d devices (ground (arith, other, found)) lost in
      ground (arith, rest)
]

any-append :
    (fp sid : String) (xs ys : List (String × String))
    → has_pair fp sid (xs ++ ys) ≡ (has_pair fp sid xs || has_pair fp sid ys)
any-append fp sid [] ys = refl
any-append fp sid (x ∷ xs) ys = ground (arith, any-append fp sid xs ys)

has_pair-stale :
    (instant : ℕ) (fp sid : String) (x : SessionInfo) (sessions : List (String × SessionInfo))
    → lookup sid sessions ≡ some x
    → is_session_stale instant x ≡ true
    → has_pair fp sid (map (λ e. (fp, e.0)) (filter (λ e. is_session_stale instant e.1) sessions))
      ≡ true
unfolding lookup
has_pair-stale instant fp sid x [] found stale = absurd (cc)
has_pair-stale instant fp sid x ((key, v) ∷ sessions) found stale = ground (
  arith,
  found,
  stale,
  string_eq.eqb_iff sid key,
  string_eq.eqb_iff key sid,
  string_eq.eqb_iff fp fp,
  has_pair-stale instant fp sid x sessions,
)

has_pair-pruned :
    (instant : ℕ) (fp sid : String) (d : DeviceInfo) (devices : Devices)
    → lookup fp devices ≡ some d
    → has_pair fp sid (pruned_pairs instant d) ≡ true
    → has_pair fp sid (flat_values (pruned_pairs instant) devices) ≡ true
unfolding lookup flat_values
has_pair-pruned instant fp sid d [] found h = absurd (cc)
has_pair-pruned instant fp sid d ((key, v) ∷ devices) found h = elim (Bool-cases (key == fp)) [
  | inl same ↦
      let first : v ≡ d = ground (arith, same, found) in
      any-append fp sid (pruned_pairs instant v) (flat_values (pruned_pairs instant) devices)
      ∙ ap (λ b. b || has_pair fp sid (flat_values (pruned_pairs instant) devices))
          (ap (λ v. has_pair fp sid (pruned_pairs instant v)) first ∙ h)
  | inr other ↦
      let rest = has_pair-pruned instant fp sid d devices (ground (arith, other, found)) h in
      any-append fp sid (pruned_pairs instant v) (flat_values (pruned_pairs instant) devices)
      ∙ ground (arith, rest)
]

mark_offline-sessions : (now : ℕ) (d : DeviceInfo) → (mark_offline now d).sessions ≡ d.sessions
unfolding mark_offline
mark_offline-sessions now d = ground arith

mark_offline-fingerprint :
    (now : ℕ) (d : DeviceInfo) → (mark_offline now d).fingerprint ≡ d.fingerprint
unfolding mark_offline
mark_offline-fingerprint now d = ground arith

tick_device-fingerprint :
    (now instant : ℕ) (d : DeviceInfo) → (tick_device now instant d).fingerprint ≡ d.fingerprint
unfolding tick_device prune_sessions
tick_device-fingerprint now instant d =
    mark_offline-fingerprint now (prune_sessions instant d) ∙ ground arith

-- A session that is not stale is still there.
tick_device-session :
    (now instant : ℕ) (d : DeviceInfo) (sid : String) (x : SessionInfo)
    → lookup sid d.sessions ≡ some x
    → is_session_stale instant x ≡ false
    → lookup sid (tick_device now instant d).sessions ≡ some x
unfolding tick_device prune_sessions
tick_device-session now instant d sid x found fresh =
    ap (lookup sid) (mark_offline-sessions now (prune_sessions instant d))
    ∙ ground (
      arith,
      found,
      lookup-retain (λ s. not (is_session_stale instant s)) sid x d.sessions (ground arith) found,
    )

map_values-IsNamed :
    (now instant : ℕ) (devices : Devices)
    → All IsNamed devices
    → All IsNamed (map_values (tick_device now instant) devices)
unfolding map_values
map_values-IsNamed now instant [] h = tt
map_values-IsNamed now instant ((key, d) ∷ devices) h =
    (tick_device-fingerprint now instant d ∙ h.0, map_values-IsNamed now instant devices h.1)

both : (a b : Bool) → (not a && not b) ≡ true → (a ≡ false) × (b ≡ false)
both a b h = ground arith

abbrev pub ticked_devices : ℕ → ℕ → Discovery → Devices
ticked_devices now instant s = map_values (tick_device now instant) s.devices

abbrev pub kept_devices : ℕ → ℕ → Discovery → Devices
kept_devices now instant s =
    retain (λ d. not (should_emit_device_lost now d)) (ticked_devices now instant s)

abbrev entry_stays : ℕ → ℕ → Discovery → SessionIndexEntry → Bool
entry_stays now instant s e =
    not (any (λ fp. fp == e.fingerprint) (lost_devices now (ticked_devices now instant s)))
    && not (has_pair e.fingerprint e.session_id (flat_values (pruned_pairs instant) s.devices))

stale_pair :
    (instant : ℕ) (s : Discovery) (v : SessionIndexEntry) (d : DeviceInfo) (x : SessionInfo)
    → d.fingerprint ≡ v.fingerprint
    → lookup v.fingerprint s.devices ≡ some d
    → lookup v.session_id d.sessions ≡ some x
    → is_session_stale instant x ≡ true
    → has_pair v.fingerprint v.session_id (flat_values (pruned_pairs instant) s.devices) ≡ true
unfolding pruned_pairs
stale_pair instant s v d x same found has stale =
    has_pair-pruned instant v.fingerprint v.session_id d s.devices found (
      subst
        (λ fp.
          has_pair v.fingerprint v.session_id
            (map (λ e. (fp, e.0)) (filter (λ e. is_session_stale instant e.1) d.sessions))
          ≡ true)
        (sym same) (has_pair-stale instant v.fingerprint v.session_id x d.sessions has stale))

tick-HasSession :
    (now instant : ℕ) (s : Discovery) (v : SessionIndexEntry)
    → All IsNamed s.devices
    → entry_stays now instant s v ≡ true
    → HasSession s.devices v
    → HasSession (kept_devices now instant s) v
tick-HasSession now instant s v named keep (d, found, (x, has)) =
    let (not_lost, no_pair) = both _ _ keep in
    let d' = tick_device now instant d in
    let found' : lookup v.fingerprint (ticked_devices now instant s) ≡ some d' =
      lookup-map_values (tick_device now instant) v.fingerprint s.devices
      ∙ ap (option_map (tick_device now instant)) found in
    let fresh : is_session_stale instant x ≡ false =
      elim (Bool-cases (is_session_stale instant x)) [
        | inl stale ↦
            let pair =
              stale_pair instant s v d x (All-lookup IsNamed v.fingerprint d s.devices named found)
                found has stale in
            absurd (cc)
        | inr fresh ↦ fresh
      ] in
    let stays : not (should_emit_device_lost now d') ≡ true =
      elim (Bool-cases (should_emit_device_lost now d')) [
        | inl lost ↦
            let among = any-lost now v.fingerprint d' (ticked_devices now instant s) found' lost in
            absurd (cc)
        | inr kept ↦ ap not kept
      ] in
    (
      d',
      lookup-retain (λ d. not (should_emit_device_lost now d)) v.fingerprint d'
          (ticked_devices now instant s) stays found',
      (x, tick_device-session now instant d v.session_id x has fresh),
    )

pub tick-parts :
    (now instant : ℕ) (s : Discovery)
    → ((tick now instant s).devices ≡ kept_devices now instant s)
      × ((tick now instant s).session_index ≡ retain (entry_stays now instant s) s.session_index)
unfolding tick
tick-parts now instant s =
    elim (Bool-cases (is_empty (flat_values (pruned_pairs instant) s.devices))) [
      | inl nothing ↦ simp nothing (refl, refl)
      | inr something ↦ simp something (refl, refl)
    ]

pub tick-IsSound : (now instant : ℕ) (s : Discovery) → IsSound s → IsSound (tick now instant s)
tick-IsSound now instant s h =
    let (devices, index) = tick-parts now instant s in
    record {
      pointed =
          subst (λ D. All (Pointed D) (tick now instant s).session_index) (sym devices)
            (subst (All (Pointed (kept_devices now instant s))) (sym index) (
              All-retain_map (Pointed s.devices) (Pointed (kept_devices now instant s))
                (entry_stays now instant s)
                (λ k v keep old. tick-HasSession now instant s v h.named keep old) s.session_index
                h.pointed));
      named = subst (All IsNamed) (sym devices) (
          All-retain IsNamed (λ d. not (should_emit_device_lost now d))
            (ticked_devices now instant s) (map_values-IsNamed now instant s.devices h.named));
    }
