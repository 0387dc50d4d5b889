-- ===== src/Discovery/Addresses.antt =====
-- The order of the addresses that src-tauri/src/discovery/browser.rs probes.
use dash_drop.Base.{
  Bool, true, false, List, [], ◌∷◌, ◌++◌, ◌≡◌, refl, ◌∙◌, ap, ◌&&◌, ◌||◌, not, ◌==◌, filter, any,
  is_empty, Distinct, contains, Bool-cases, inl, inr, arith, beq_refl,
}
use dash_drop.Types.Device.{
  SocketAddr, addr_eq, addr_beq_iff, is_ipv4, is_connectable_addr, prefer_connectable, dedupe,
}
use dash_drop.Discovery.{sort_dedupe_addrs, select_probe_addrs}

-- No address of version 4 after one of version 6.
abbrev pub is_v4_first : List SocketAddr → Bool
is_v4_first [] = true
is_v4_first (x ∷ xs) = (is_ipv4 x || not (any is_ipv4 xs)) && is_v4_first xs

pub any_append :
    (p : SocketAddr → Bool) (xs ys : List SocketAddr) → any p (xs ++ ys) ≡ (any p xs || any p ys)
any_append p [] ys = refl
any_append p (x ∷ xs) ys = ground (arith, any_append p xs ys)

same_test : (p : SocketAddr → Bool) (x a : SocketAddr) → (x == a) ≡ true → p x ≡ p a
same_test p x a h = ap p ((addr_beq_iff x a).0 h)

pub contains-filter :
    (p : SocketAddr → Bool) (xs : List SocketAddr) (a : SocketAddr)
    → contains (filter p xs) a ≡ (contains xs a && p a)
contains-filter p [] a = refl
contains-filter p (x ∷ xs) a = elim (Bool-cases (x == a)) [
  | inl same ↦ ground (arith, same, same_test p x a same, contains-filter p xs a)
  | inr other ↦ ground (arith, other, contains-filter p xs a)
]

pub contains-dedupe :
    (seen xs : List SocketAddr) (a : SocketAddr)
    → contains (dedupe seen xs) a ≡ (contains xs a && not (contains seen a))
unfolding dedupe
contains-dedupe seen [] a = refl
contains-dedupe seen (x ∷ xs) a = elim (Bool-cases (x == a)) [
  | inl same ↦
      let at : contains seen x ≡ contains seen a = ap (contains seen) ((addr_beq_iff x a).0 same) in
      ground (arith, same, at, contains-dedupe seen xs a, contains-dedupe (x ∷ seen) xs a)
  | inr other ↦ ground (arith, other, contains-dedupe seen xs a, contains-dedupe (x ∷ seen) xs a)
]

pub dedupe-Distinct : (seen xs : List SocketAddr) → Distinct (dedupe seen xs)
unfolding dedupe
dedupe-Distinct seen [] = tt
dedupe-Distinct seen (x ∷ xs) = elim (Bool-cases (contains seen x)) [
  | inl old ↦ rw old (dedupe-Distinct (x ∷ seen) xs)
  | inr new ↦
      rw new (
        contains-dedupe (x ∷ seen) xs x ∙ ground (arith, beq_refl x),
        dedupe-Distinct (x ∷ seen) xs,
      )
]

pub filter-Distinct :
    (p : SocketAddr → Bool) (xs : List SocketAddr) → Distinct xs → Distinct (filter p xs)
filter-Distinct p [] h = tt
filter-Distinct p (x ∷ xs) h = elim (Bool-cases (p x)) [
  | inl keep ↦ rw keep (contains-filter p xs x ∙ ground (arith, h.0), filter-Distinct p xs h.1)
  | inr drop ↦ rw drop (filter-Distinct p xs h.1)
]

no_more-dedupe :
    (p : SocketAddr → Bool) (seen xs : List SocketAddr)
    → any p xs ≡ false
    → any p (dedupe seen xs) ≡ false
unfolding dedupe
no_more-dedupe p seen [] h = refl
no_more-dedupe p seen (x ∷ xs) h = ground (arith, h, no_more-dedupe p (x ∷ seen) xs)

dedupe_first :
    (seen xs : List SocketAddr) → is_v4_first xs ≡ true → is_v4_first (dedupe seen xs) ≡ true
unfolding dedupe
dedupe_first seen [] h = refl
dedupe_first seen (x ∷ xs) h =
    ground (arith, h, dedupe_first (x ∷ seen) xs, no_more-dedupe is_ipv4 (x ∷ seen) xs)

no_more_filter :
    (p q : SocketAddr → Bool) (xs : List SocketAddr)
    → any p xs ≡ false
    → any p (filter q xs) ≡ false
no_more_filter p q [] h = refl
no_more_filter p q (x ∷ xs) h = ground (arith, h, no_more_filter p q xs)

filter_first :
    (q : SocketAddr → Bool) (xs : List SocketAddr)
    → is_v4_first xs ≡ true
    → is_v4_first (filter q xs) ≡ true
filter_first q [] h = refl
filter_first q (x ∷ xs) h = ground (arith, h, filter_first q xs, no_more_filter is_ipv4 q xs)

no_v4 : (xs : List SocketAddr) → any is_ipv4 (filter (λ a. not (is_ipv4 a)) xs) ≡ false
no_v4 [] = refl
no_v4 (x ∷ xs) = ground (arith, no_v4 xs)

all_v6_first : (xs : List SocketAddr) → any is_ipv4 xs ≡ false → is_v4_first xs ≡ true
all_v6_first [] h = refl
all_v6_first (x ∷ xs) h = ground (arith, h, all_v6_first xs)

sorted_first :
    (xs ys : List SocketAddr) → is_v4_first ys ≡ true → is_v4_first (filter is_ipv4 xs ++ ys) ≡ true
sorted_first [] ys h = h
sorted_first (x ∷ xs) ys h = ground (arith, sorted_first xs ys h)

contains-sort_dedupe :
    (xs : List SocketAddr) (a : SocketAddr) → contains (sort_dedupe_addrs xs) a ≡ contains xs a
unfolding sort_dedupe_addrs
contains-sort_dedupe xs a =
    let v6 : SocketAddr → Bool = λ a. not (is_ipv4 a) in
    contains-dedupe [] (filter is_ipv4 xs ++ filter v6 xs) a
    ∙ ground (
      arith,
      any_append (λ x. x == a) (filter is_ipv4 xs) (filter v6 xs),
      contains-filter is_ipv4 xs a,
      contains-filter v6 xs a,
    )

sort_dedupe-Distinct : (xs : List SocketAddr) → Distinct (sort_dedupe_addrs xs)
unfolding sort_dedupe_addrs
sort_dedupe-Distinct xs = dedupe-Distinct [] (filter is_ipv4 xs ++ filter (λ a. not (is_ipv4 a)) xs)

sort_dedupe_first : (xs : List SocketAddr) → is_v4_first (sort_dedupe_addrs xs) ≡ true
unfolding sort_dedupe_addrs
sort_dedupe_first xs =
    let v6 : List SocketAddr = filter (λ a. not (is_ipv4 a)) xs in
    dedupe_first [] (filter is_ipv4 xs ++ v6) (sorted_first xs v6 (all_v6_first v6 (no_v4 xs)))

any_contained :
    (p : SocketAddr → Bool) (xs : List SocketAddr) (a : SocketAddr)
    → contains xs a ≡ true
    → p a ≡ true
    → any p xs ≡ true
any_contained p [] a h t = absurd (cc)
any_contained p (x ∷ xs) a h t = elim (Bool-cases (x == a)) [
  | inl same ↦ ground (arith, same_test p x a same, t)
  | inr other ↦ ground (arith, other, h, any_contained p xs a)
]

pub any-dedupe :
    (p : SocketAddr → Bool) (seen xs : List SocketAddr)
    → (any p (dedupe seen xs) || any p seen) ≡ (any p xs || any p seen)
unfolding dedupe
any-dedupe p seen [] = refl
any-dedupe p seen (x ∷ xs) = ground (arith, any-dedupe p (x ∷ seen) xs, any_contained p seen x)

any_split :
    (p q : SocketAddr → Bool) (xs : List SocketAddr)
    → (any p (filter q xs) || any p (filter (λ a. not (q a)) xs)) ≡ any p xs
any_split p q [] = refl
any_split p q (x ∷ xs) = ground (arith, any_split p q xs)

any-sort_dedupe :
    (p : SocketAddr → Bool) (xs : List SocketAddr) → any p (sort_dedupe_addrs xs) ≡ any p xs
unfolding sort_dedupe_addrs
any-sort_dedupe p xs =
    let ys : List SocketAddr = filter is_ipv4 xs ++ filter (λ a. not (is_ipv4 a)) xs in
    let seen_none : any p (dedupe [] ys) ≡ any p ys = ground (arith, any-dedupe p [] ys) in
    seen_none
    ∙ any_append p (filter is_ipv4 xs) (filter (λ a. not (is_ipv4 a)) xs)
    ∙ any_split p is_ipv4 xs

pub empty_filter :
    (p : SocketAddr → Bool) (xs : List SocketAddr) → is_empty (filter p xs) ≡ not (any p xs)
empty_filter p [] = refl
empty_filter p (x ∷ xs) = ground (arith, empty_filter p xs)

-- The addresses that are kept of some addresses of which none stands twice.
pub prefer_connectable-Distinct :
    (ys : List SocketAddr)
    → Distinct ys
    → Distinct (prefer_connectable ys)
      × ((a : SocketAddr)
          → contains (prefer_connectable ys) a
            ≡ (contains ys a && (is_connectable_addr a || not (any is_connectable_addr ys))))
unfolding prefer_connectable
prefer_connectable-Distinct ys distinct =
    let none_left = empty_filter is_connectable_addr ys in
    elim (Bool-cases (is_empty (filter is_connectable_addr ys))) [
      | inl nothing ↦ rw nothing (distinct, λ a. ground (arith, nothing, none_left))
      | inr something ↦ rw something (
        filter-Distinct is_connectable_addr ys distinct,
        λ a. contains-filter is_connectable_addr ys a ∙ ground (arith, something, none_left),
      )
    ]

connectable_first :
    (ys : List SocketAddr) → is_v4_first ys ≡ true → is_v4_first (prefer_connectable ys) ≡ true
unfolding prefer_connectable
connectable_first ys h = ground (arith, h, filter_first is_connectable_addr ys h)

-- The addresses to probe: no address stands twice, those of version 4 come first, and they are the
-- addresses given that a connection can be tried with, or all of them if there is no such one.
pub select_probe_addrs-Distinct :
    (xs : List SocketAddr)
    → Distinct (select_probe_addrs xs)
      × (is_v4_first (select_probe_addrs xs) ≡ true)
      × ((a : SocketAddr)
          → contains (select_probe_addrs xs) a
            ≡ (contains xs a && (is_connectable_addr a || not (any is_connectable_addr xs))))
unfolding select_probe_addrs
select_probe_addrs-Distinct xs =
    let kept = prefer_connectable-Distinct (sort_dedupe_addrs xs) (sort_dedupe-Distinct xs) in
    (
      kept.0,
      connectable_first (sort_dedupe_addrs xs) (sort_dedupe_first xs),
      λ a.
          kept.1 a
          ∙ ground (arith, contains-sort_dedupe xs a, any-sort_dedupe is_connectable_addr xs),
    )
