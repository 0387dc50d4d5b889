-- ===== src/Discovery/Sound.antt =====
-- That a sighting of a device, by the browser or by a beacon, keeps the index of sessions sound.
use dash_drop.Base.{
  ℕ, String, Bool, some, List, [], ◌∷◌, ◌≡◌, ◌⊎◌, refl, sym, ◌∙◌, ap, subst, ◌==◌, nat_eq,
  string_eq, is_none, unwrap_or, lookup, insert, All, All-insert, All-lookup, lookup-insert_self,
  insert_cases, Bool-cases, is_empty_str, Option-cases, inl, inr, arith,
}
use dash_drop.Trust.{Peers}
use dash_drop.Types.Device.{IpAddr, SessionInfo, SessionIndexEntry, DeviceInfo}
use dash_drop.Discovery.{Devices, SessionIndex, Discovery, bump_event, is_usable_peer_addr}
use dash_drop.Discovery.Calls.{
  HostnameAnswer, no_daemon, start_failed, answered, ServiceInfo, resolve_hostname_with_mdns,
  resolve_addrs, Sighting, new_device, seen_device, index_all, upsert, handle_resolved,
  BeaconPacket, receive_beacon, socket_addr,
}
use dash_drop.Discovery.Index.{HasSession, IsNamed, Pointed, IsSound, All-implied}

-- Counters and events do not touch the tables.
pub same_tables :
    (s s' : Discovery)
    → s'.devices ≡ s.devices
    → s'.session_index ≡ s.session_index
    → IsSound s
    → IsSound s'
same_tables s s' devices index h = record {
  pointed =
      subst (λ D. All (Pointed D) s'.session_index) (sym devices)
        (subst (All (Pointed s.devices)) (sym index) h.pointed);
  named = subst (All IsNamed) (sym devices) h.named;
}

abbrev known_device : Sighting → Bool → Discovery → DeviceInfo
known_device g trusted s = unwrap_or (lookup g.fp s.devices) (new_device g trusted)

known_device-IsNamed :
    (g : Sighting) (trusted : Bool) (s : Discovery)
    → All IsNamed s.devices
    → (known_device g trusted s).fingerprint ≡ g.fp
known_device-IsNamed g trusted s named = elim (Option-cases (lookup g.fp s.devices)) [
  | inl new ↦ rw new refl
  | inr (d, old) ↦ rw old (All-lookup IsNamed g.fp d s.devices named old)
]

seen_device-fingerprint :
    (g : Sighting) (trusted : Bool) (now instant : ℕ) (d : DeviceInfo)
    → (seen_device g trusted now instant d).fingerprint ≡ d.fingerprint
unfolding seen_device
seen_device-fingerprint g trusted now instant d = refl

-- A device that is seen has the new session and keeps the old ones.
seen_device-session :
    (g : Sighting) (trusted : Bool) (now instant : ℕ) (d : DeviceInfo) (sid : String)
    → ((x : SessionInfo) × (lookup sid d.sessions ≡ some x)) ⊎ (g.session_id ≡ sid)
    → (x : SessionInfo) × (lookup sid (seen_device g trusted now instant d).sessions ≡ some x)
unfolding seen_device
seen_device-session g trusted now instant d sid (inl old) =
    insert_cases (λ o. (x : SessionInfo) × (o ≡ some x)) g.session_id sid _ d.sessions
      (λ same. (_, refl)) (λ other. old)
seen_device-session g trusted now instant d sid (inr same) = (
  _,
  ap (λ k. lookup k (seen_device g trusted now instant d).sessions) (sym same)
      ∙ lookup-insert_self g.session_id _ d.sessions,
)

seen_device-HasSession :
    (g : Sighting) (trusted : Bool) (now instant : ℕ) (s : Discovery) (v : SessionIndexEntry)
    → HasSession s.devices v
    → HasSession
        (insert g.fp (seen_device g trusted now instant (known_device g trusted s)) s.devices)
        v
seen_device-HasSession g trusted now instant s v (d, found, (x, has)) =
    insert_cases
      (λ o.
        (d : DeviceInfo) × (o ≡ some d)
        × ((x : SessionInfo) × (lookup v.session_id d.sessions ≡ some x)))
      g.fp v.fingerprint (seen_device g trusted now instant (known_device g trusted s)) s.devices
      (λ same.
        let known : known_device g trusted s ≡ d =
          ap (λ o. unwrap_or o (new_device g trusted))
            (ap (λ k. lookup k s.devices) same ∙ found) in
        (
          seen_device g trusted now instant (known_device g trusted s),
          refl,
          seen_device-session g trusted now instant (known_device g trusted s) v.session_id
              (inl (x, ap (λ k. lookup v.session_id k.sessions) known ∙ has)),
        ))
      (λ other. (d, found, (x, has)))

index_all-Pointed :
    (devices : Devices) (e : SessionIndexEntry) (keys : List String) (index : SessionIndex)
    → HasSession devices e
    → All (Pointed devices) index
    → All (Pointed devices) (index_all keys e index)
unfolding index_all
index_all-Pointed devices e [] index has h = h
index_all-Pointed devices e (key ∷ keys) index has h =
    index_all-Pointed devices e keys (insert key e index) has
      (All-insert (Pointed devices) key e index h has)

upsert-IsSound :
    (g : Sighting) (aliases : List String) (trusted : Bool) (now instant : ℕ) (s : Discovery)
    → IsSound s
    → IsSound (upsert g aliases trusted now instant s)
unfolding upsert
upsert-IsSound g aliases trusted now instant s h =
    let d = seen_device g trusted now instant (known_device g trusted s) in
    let devices = insert g.fp d s.devices in
    record {
      pointed =
          index_all-Pointed devices (record { fingerprint = g.fp; session_id = g.session_id })
            aliases s.session_index
            (
              d,
              lookup-insert_self g.fp d s.devices,
              seen_device-session g trusted now instant (known_device g trusted s) g.session_id
                  (inr refl),
            )
            (All-implied (Pointed s.devices) (Pointed devices)
              (λ x has. seen_device-HasSession g trusted now instant s x.1 has) s.session_index
              h.pointed);
      named = All-insert IsNamed g.fp d s.devices h.named (
          seen_device-fingerprint g trusted now instant (known_device g trusted s)
          ∙ known_device-IsNamed g trusted s h.named);
    }

abbrev pub SameTables : Discovery → Discovery → Type 0
SameTables s s' = (s'.devices ≡ s.devices) × (s'.session_index ≡ s.session_index)

resolve_mdns_same :
    (a : HostnameAnswer) (port : ℕ) (s : Discovery)
    → SameTables s (resolve_hostname_with_mdns a port s).0
unfolding resolve_hostname_with_mdns
resolve_mdns_same no_daemon port s = (refl, refl)
resolve_mdns_same start_failed port s = (refl, refl)
resolve_mdns_same (answered join_error found) port s = ground arith

resolve_addrs_same : (info : ServiceInfo) (s : Discovery) → SameTables s (resolve_addrs info s).0
unfolding resolve_addrs
resolve_addrs_same info s =
    ground
      (arith, resolve_mdns_same info.mdns_answer info.port (bump_event "resolved_empty_addr_set" s))

pub handle_resolved-IsSound :
    (own_fp : String) (peers : Peers) (now instant : ℕ) (info : ServiceInfo) (s : Discovery)
    → IsSound s
    → IsSound (handle_resolved own_fp peers now instant info s)
unfolding handle_resolved
handle_resolved-IsSound own_fp peers now instant info s h =
    let same = resolve_addrs_same info s in
    let h1 = same_tables s (resolve_addrs info s).0 same.0 same.1 h in
    elim (Bool-cases (is_none info.fp)) [
      | inl missing ↦ simp missing (same_tables s _ refl refl h)
      | inr given ↦ elim (Bool-cases (is_empty_str (unwrap_or info.fp ""))) [
        | inl empty ↦ simp (given, empty) (same_tables s _ refl refl h)
        | inr some_fp ↦ elim (Bool-cases (unwrap_or info.fp "" == own_fp)) [
          | inl own ↦ simp (given, some_fp, own) (same_tables s _ refl refl h)
          | inr other ↦
              simp (given, some_fp, other)
                (upsert-IsSound _ _ _ now instant (resolve_addrs info s).0 h1)
        ]
      ]
    ]

pub receive_beacon-IsSound :
    (session_of : String → String) (text_of : IpAddr → String) (own_fp : String) (peers : Peers)
    (now instant : ℕ) (packet : BeaconPacket) (src : IpAddr) (s : Discovery)
    → IsSound s
    → IsSound (receive_beacon session_of text_of own_fp peers now instant packet src s)
unfolding receive_beacon
receive_beacon-IsSound session_of text_of own_fp peers now instant packet src s h =
    elim (Bool-cases (packet.kind == "dashdrop_beacon_v1")) [
      | inl ours ↦ elim (Bool-cases (packet.fp == own_fp)) [
        | inl own ↦ simp (ours, own) (same_tables s _ refl refl h)
        | inr other ↦ elim (Bool-cases (is_usable_peer_addr (socket_addr packet.port src))) [
          | inl usable ↦
              simp (ours, other, usable)
                (upsert-IsSound _ _ _ now instant (bump_event "beacon_received" s)
                  (same_tables s _ refl refl h))
          | inr unusable ↦ simp (ours, other, unusable) (same_tables s _ refl refl h)
        ]
      ]
      | inr foreign ↦ simp foreign h
    ]
