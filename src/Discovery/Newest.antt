-- ===== src/Discovery/Newest.antt =====
-- The order of the addresses of `DeviceInfo::best_addrs` of src-tauri/src/state.rs.
use dash_drop.Base.{
  ℕ, String, Bool, true, false, List, [], ◌∷◌, ◌++◌, ◌≡◌, refl, ◌∙◌, sym, ◌≤◌, ltb, leb, nat_eq,
  if◌then◌else◌, filter, is_empty, contains, All, Bool-cases, inl, inr, arith, beq_refl,
}
use dash_drop.Types.Device.{
  SocketAddr, addr_eq, SessionInfo, is_connectable_addr, prefer_connectable, dedupe, insert_session,
  newest_first, session_addrs,
}
use dash_drop.Discovery.Addresses.{contains-dedupe}

abbrev pub later : ℕ → ℕ → ℕ
later m n = if leb m n then n else m

-- When a session with the address was last seen, of all those which have it.
abbrev newest : SocketAddr → List SessionInfo → ℕ
newest a [] = 0
newest a (x ∷ xs) = if contains x.addrs a then later x.last_seen_unix (newest a xs) else newest a xs

abbrev pub last_sighting : List (String × SessionInfo) → SocketAddr → ℕ
last_sighting [] a = 0
last_sighting ((key, x) ∷ sessions) a =
    if contains x.addrs a
    then later x.last_seen_unix (last_sighting sessions a)
    else last_sighting sessions a

-- Nothing in the list has a larger number than something before it.
abbrev pub IsNewestFirst : (SocketAddr → ℕ) → List SocketAddr → Type 0
IsNewestFirst f [] = Unit
IsNewestFirst f (x ∷ xs) = All (λ y. f y ≤ f x) xs × IsNewestFirst f xs

-- No session was seen later than one before it.
abbrev IsDescending : List SessionInfo → Type 0
IsDescending [] = Unit
IsDescending (x ∷ xs) = All (λ y. y.last_seen_unix ≤ x.last_seen_unix) xs × IsDescending xs

insert_session-All :
    (n : ℕ) (x : SessionInfo) (ys : List SessionInfo)
    → x.last_seen_unix ≤ n
    → All (λ y. y.last_seen_unix ≤ n) ys
    → All (λ y. y.last_seen_unix ≤ n) (insert_session x ys)
unfolding insert_session
insert_session-All n x [] le h = (le, tt)
insert_session-All n x (y ∷ ys) le h = elim (Bool-cases (ltb x.last_seen_unix y.last_seen_unix)) [
  | inl older ↦ rw older (h.0, insert_session-All n x ys le h.1)
  | inr newer ↦ rw newer (le, h)
]

All-le :
    (m n : ℕ) (ys : List SessionInfo)
    → m ≤ n
    → All (λ y. y.last_seen_unix ≤ m) ys
    → All (λ y. y.last_seen_unix ≤ n) ys
All-le m n [] le h = tt
All-le m n (y ∷ ys) le h = (omega (arith, h.0), All-le m n ys le h.1)

insert_session-IsDescending :
    (x : SessionInfo) (ys : List SessionInfo) → IsDescending ys → IsDescending (insert_session x ys)
unfolding insert_session
insert_session-IsDescending x [] h = (tt, tt)
insert_session-IsDescending x (y ∷ ys) h =
    elim (Bool-cases (ltb x.last_seen_unix y.last_seen_unix)) [
      | inl older ↦ rw older (
        insert_session-All y.last_seen_unix x ys (ground arith) h.0,
        insert_session-IsDescending x ys h.1,
      )
      | inr newer ↦
          let le : y.last_seen_unix ≤ x.last_seen_unix = ground arith in
          rw newer ((le, All-le y.last_seen_unix x.last_seen_unix ys le h.0), h)
    ]

newest_first-IsDescending :
    (sessions : List (String × SessionInfo)) → IsDescending (newest_first sessions)
unfolding newest_first
newest_first-IsDescending [] = tt
newest_first-IsDescending ((key, x) ∷ sessions) =
    insert_session-IsDescending x (newest_first sessions) (newest_first-IsDescending sessions)

later_swap : (m n k : ℕ) → later m (later n k) ≡ later n (later m k)
later_swap m n k = ground arith

newest-insert_session :
    (a : SocketAddr) (x : SessionInfo) (ys : List SessionInfo)
    → newest a (insert_session x ys) ≡ newest a (x ∷ ys)
unfolding insert_session
newest-insert_session a x [] = refl
newest-insert_session a x (y ∷ ys) = elim (Bool-cases (ltb x.last_seen_unix y.last_seen_unix)) [
  | inl older ↦
      rw (older, newest-insert_session a x ys)
        (ground (arith, later_swap y.last_seen_unix x.last_seen_unix (newest a ys)))
  | inr newer ↦ rw newer refl
]

newest-newest_first :
    (a : SocketAddr) (sessions : List (String × SessionInfo))
    → newest a (newest_first sessions) ≡ last_sighting sessions a
unfolding newest_first
newest-newest_first a [] = refl
newest-newest_first a ((key, x) ∷ sessions) =
    newest-insert_session a x (newest_first sessions) ∙ rw (newest-newest_first a sessions) refl

newest_le :
    (n : ℕ) (a : SocketAddr) (ys : List SessionInfo)
    → All (λ y. y.last_seen_unix ≤ n) ys
    → newest a ys ≤ n
newest_le n a [] h = omega arith
newest_le n a (y ∷ ys) h =
    let le = h.0 in let rest = newest_le n a ys h.1 in ground (arith, le, rest)

all_contained :
    (P : SocketAddr → Type 0) (xs : List SocketAddr)
    → ((a : SocketAddr) → contains xs a ≡ true → P a)
    → All P xs
all_contained P [] h = tt
all_contained P (x ∷ xs) h =
    (h x (ground (arith, beq_refl x)), all_contained P xs (λ a c. h a (ground (arith, c))))

-- The addresses of a session which are still to come, and then those of the older sessions.
newest_addrs :
    (f : SocketAddr → ℕ) (n : ℕ) (zs later_addrs seen : List SocketAddr) (older : SocketAddr → ℕ)
    → ((a : SocketAddr) → contains seen a ≡ false → contains zs a ≡ true → f a ≡ n)
    → ((a : SocketAddr) → contains seen a ≡ false → contains zs a ≡ false → f a ≡ older a)
    → ((a : SocketAddr) → older a ≤ n)
    → ((seen : List SocketAddr)
        → ((a : SocketAddr) → contains seen a ≡ false → f a ≡ older a)
        → IsNewestFirst f (dedupe seen later_addrs))
    → IsNewestFirst f (dedupe seen (zs ++ later_addrs))
unfolding dedupe
newest_addrs f n [] later_addrs seen older now before le then_rest =
    then_rest seen (λ a unseen. before a unseen refl)
newest_addrs f n (z ∷ zs) later_addrs seen older now before le then_rest =
    let rest =
      newest_addrs f n zs later_addrs (z ∷ seen) older
        (λ a unseen c. now a (ground (arith, unseen)) (ground (arith, c)))
        (λ a unseen c. before a (ground (arith, unseen)) (ground (arith, unseen, c))) le
        then_rest in
    elim (Bool-cases (contains seen z)) [
      | inl old ↦ rw old rest
      | inr new ↦
          let is_n : f z ≡ n = now z new (ground (arith, beq_refl z)) in
          rw new (
            all_contained (λ y. f y ≤ f z) (dedupe (z ∷ seen) (zs ++ later_addrs))
                (λ y c.
                  let unseen : contains seen y ≡ false =
                    ground (arith, c, contains-dedupe (z ∷ seen) (zs ++ later_addrs) y) in
                  let least = le y in
                  elim (Bool-cases (contains (z ∷ zs) y)) [
                    | inl here ↦ omega (arith, is_n, now y unseen here)
                    | inr after ↦ omega (arith, is_n, before y unseen after, least)
                  ]),
            rest,
          )
    ]

dedupe-IsNewestFirst :
    (f : SocketAddr → ℕ) (xs : List SessionInfo) (seen : List SocketAddr)
    → IsDescending xs
    → ((a : SocketAddr) → contains seen a ≡ false → f a ≡ newest a xs)
    → IsNewestFirst f (dedupe seen (session_addrs xs))
unfolding dedupe session_addrs
dedupe-IsNewestFirst f [] seen h same = tt
dedupe-IsNewestFirst f (x ∷ xs) seen h same =
    let n = x.last_seen_unix in
    newest_addrs f n x.addrs (session_addrs xs) seen (λ a. newest a xs)
      (λ a unseen c.
        let least = newest_le n a xs h.0 in same a unseen ∙ rw c (ground (arith, least)))
      (λ a unseen c. same a unseen ∙ rw c refl) (λ a. newest_le n a xs h.0)
      (λ seen' same'. dedupe-IsNewestFirst f xs seen' h.1 same')

all_filter :
    (P : SocketAddr → Type 0) (p : SocketAddr → Bool) (xs : List SocketAddr)
    → All P xs
    → All P (filter p xs)
all_filter P p [] h = tt
all_filter P p (x ∷ xs) h = elim (Bool-cases (p x)) [
  | inl keep ↦ rw keep (h.0, all_filter P p xs h.1)
  | inr drop ↦ rw drop (all_filter P p xs h.1)
]

filter-IsNewestFirst :
    (f : SocketAddr → ℕ) (p : SocketAddr → Bool) (xs : List SocketAddr)
    → IsNewestFirst f xs
    → IsNewestFirst f (filter p xs)
filter-IsNewestFirst f p [] h = tt
filter-IsNewestFirst f p (x ∷ xs) h = elim (Bool-cases (p x)) [
  | inl keep ↦ rw keep (all_filter (λ y. f y ≤ f x) p xs h.0, filter-IsNewestFirst f p xs h.1)
  | inr drop ↦ rw drop (filter-IsNewestFirst f p xs h.1)
]

-- The addresses which are kept stand in the order of their last sighting.
pub connectable-IsNewestFirst :
    (sessions : List (String × SessionInfo))
    → IsNewestFirst
        (last_sighting sessions)
        (prefer_connectable (dedupe [] (session_addrs (newest_first sessions))))
unfolding prefer_connectable
connectable-IsNewestFirst sessions =
    let addrs = dedupe [] (session_addrs (newest_first sessions)) in
    let sorted : IsNewestFirst (last_sighting sessions) addrs =
      dedupe-IsNewestFirst (last_sighting sessions) (newest_first sessions) []
        (newest_first-IsDescending sessions) (λ a unseen. sym (newest-newest_first a sessions)) in
    elim (Bool-cases (is_empty (filter is_connectable_addr addrs))) [
      | inl nothing ↦ rw nothing sorted
      | inr something ↦
          rw something
            (filter-IsNewestFirst (last_sighting sessions) is_connectable_addr addrs sorted)
    ]
