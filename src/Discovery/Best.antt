-- ===== src/Discovery/Best.antt =====
-- The addresses that `DeviceInfo::best_addrs` of src-tauri/src/state.rs gives for a connection.
use dash_drop.Base.{
  String, Bool, true, List, [], ◌∷◌, ◌++◌, ◌≡◌, refl, ◌∙◌, ltb, ◌&&◌, ◌||◌, not, ◌==◌, nat_eq, any,
  is_empty, Distinct, contains, Bool-cases, inl, inr, arith, unwrap_or,
}
use dash_drop.Types.Device.{
  SocketAddr, addr_eq, SessionInfo, DeviceInfo, is_connectable_addr, prefer_connectable, dedupe,
  insert_session, newest_first, session_addrs, best_addrs,
}
use dash_drop.Discovery.Newest.{last_sighting, IsNewestFirst, connectable-IsNewestFirst}
use dash_drop.Discovery.Addresses.{
  dedupe-Distinct, any-dedupe, any_append, prefer_connectable-Distinct,
}

-- Whether some session of the device has such an address, and whether one has this one.
abbrev pub any_known : (SocketAddr → Bool) → DeviceInfo → Bool
any_known p d = any (λ e. any p e.1.addrs) d.sessions

abbrev pub is_known : DeviceInfo → SocketAddr → Bool
is_known d a = any_known (λ x. x == a) d

any-insert_session :
    (p : SocketAddr → Bool) (x : SessionInfo) (ys : List SessionInfo)
    → any p (session_addrs (insert_session x ys)) ≡ (any p x.addrs || any p (session_addrs ys))
unfolding insert_session session_addrs
any-insert_session p x [] = any_append p x.addrs []
any-insert_session p x (y ∷ ys) =
    let later = any_append p y.addrs (session_addrs (insert_session x ys)) in
    let first = any_append p x.addrs (y.addrs ++ session_addrs ys) in
    let rest = any_append p y.addrs (session_addrs ys) in
    elim (Bool-cases (ltb x.last_seen_unix y.last_seen_unix)) [
      | inl older ↦ rw older (later ∙ ground (arith, any-insert_session p x ys, rest))
      | inr newer ↦ rw newer first
    ]

any-newest_first :
    (p : SocketAddr → Bool) (sessions : List (String × SessionInfo))
    → any p (session_addrs (newest_first sessions)) ≡ any (λ e. any p e.1.addrs) sessions
unfolding newest_first session_addrs
any-newest_first p [] = refl
any-newest_first p ((key, x) ∷ sessions) =
    any-insert_session p x (newest_first sessions) ∙ ground (arith, any-newest_first p sessions)

abbrev known_addrs : DeviceInfo → List SocketAddr
known_addrs d = dedupe [] (session_addrs (newest_first d.sessions))

any-known_addrs : (p : SocketAddr → Bool) (d : DeviceInfo) → any p (known_addrs d) ≡ any_known p d
any-known_addrs p d =
    let all = session_addrs (newest_first d.sessions) in
    let same : any p (known_addrs d) ≡ any p all = ground (arith, any-dedupe p [] all) in
    same ∙ any-newest_first p d.sessions

empty_connectable : (ys : List SocketAddr) → is_empty ys ≡ true → [] ≡ prefer_connectable ys
unfolding prefer_connectable
empty_connectable [] h = refl
empty_connectable (y ∷ ys) h = absurd (cc)

best_addrs-parts :
    (d : DeviceInfo) → unwrap_or (best_addrs d) [] ≡ prefer_connectable (known_addrs d)
unfolding best_addrs prefer_connectable
best_addrs-parts d = elim (Bool-cases (is_empty (known_addrs d))) [
  | inl nothing ↦ rw nothing (empty_connectable (known_addrs d) nothing)
  | inr something ↦ rw something refl
]

-- The addresses for a connection are in the order of their last sighting, the newest first, where
-- an address was last seen when the newest session that has it was. No address stands twice, and
-- the addresses are those of some session that a connection can be tried with, or all of them if
-- there is no such one.
pub best_addrs-Distinct :
    (d : DeviceInfo)
    → IsNewestFirst (last_sighting d.sessions) (unwrap_or (best_addrs d) [])
      × Distinct (unwrap_or (best_addrs d) [])
      × ((a : SocketAddr)
          → contains (unwrap_or (best_addrs d) []) a
            ≡ (is_known d a && (is_connectable_addr a || not (any_known is_connectable_addr d))))
best_addrs-Distinct d =
    let addrs = known_addrs d in
    let kept =
      prefer_connectable-Distinct addrs
        (dedupe-Distinct [] (session_addrs (newest_first d.sessions))) in
    rw (best_addrs-parts d) (
      connectable-IsNewestFirst d.sessions,
      kept.0,
      λ a.
          kept.1 a
          ∙ ground (arith, any-known_addrs (λ x. x == a) d, any-known_addrs is_connectable_addr d),
    )
