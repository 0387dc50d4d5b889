-- ===== src/Handshake/Versions.antt =====
-- The negotiation of the protocol version in handshake.rs, for any list of supported versions.
use mathlib.Core.List.{Memᴰ, reverse}
use dash_drop.Base.{
  ℕ, true, none, some, List, [], ◌∷◌, ◌≡◌, refl, sym, subst, inl, inr, arith, nat_eq, ◌==◌, any,
  find, Bool-cases, ◌↔◌,
}
use dash_drop.Handshake.{negotiate_version}

mem-any : (v : ℕ) (xs : List ℕ) → any (λ w. w == v) xs ≡ true → Memᴰ v xs
mem-any v [] h = absurd (cc)
mem-any v (x ∷ xs) h = elim (Bool-cases (x == v)) [
  | inl e ↦ Memᴰ.head (ground arith)
  | inr n ↦ Memᴰ.tail (mem-any v xs (rw n at h))
]

any-mem : (v : ℕ) (xs : List ℕ) → Memᴰ v xs → any (λ w. w == v) xs ≡ true
any-mem v [] m = elim m [ ]
any-mem v (x ∷ xs) (Memᴰ.head e) = ground arith
any-mem v (x ∷ xs) (Memᴰ.tail m) = ground (arith, any-mem v xs m)

-- In `xs`, `v` is the first number that also stands in `theirs`.
pub data FirstCommon (theirs : List ℕ) (v : ℕ) : List ℕ → Type 0 where
  here : {xs : List ℕ} → Memᴰ v theirs → FirstCommon theirs v (v ∷ xs)
  later :
      {x : ℕ} {xs : List ℕ}
      → ¬ Memᴰ x theirs
      → FirstCommon theirs v xs
      → FirstCommon theirs v (x ∷ xs)

-- Of our versions, read from the last, the one that is chosen is the first that the peer has.
pub negotiate-FirstCommon :
    (ours theirs : List ℕ) (v : ℕ)
    → (negotiate_version ours theirs ≡ some v) ↔ FirstCommon theirs v (reverse ours)
unfolding negotiate_version
negotiate-FirstCommon ours theirs v = (sound (reverse ours), complete (reverse ours))
  where
    sound :
        (xs : List ℕ) → find (λ x. any (λ w. w == x) theirs) xs ≡ some v → FirstCommon theirs v xs
    sound [] e = absurd (cc)
    sound (x ∷ xs) e = elim (Bool-cases (any (λ w. w == x) theirs)) [
      | inl both ↦
          let same : x ≡ v = ground arith in
          subst {A = ℕ} (λ y. FirstCommon theirs v (y ∷ xs)) (sym same)
            (here (subst {A = ℕ} (λ y. Memᴰ y theirs) same (mem-any x theirs both)))
      | inr not_both ↦ later (λ m. ground (arith, any-mem x theirs m)) (sound xs (rw not_both at e))
    ]

    complete :
        (xs : List ℕ) → FirstCommon theirs v xs → find (λ x. any (λ w. w == x) theirs) xs ≡ some v
    complete [] f = elim f [ ]
    complete (x ∷ xs) (here m) = rw (any-mem v theirs m) refl
    complete (x ∷ xs) (later n f) = elim (Bool-cases (any (λ w. w == x) theirs)) [
      | inl both ↦ absurd (n (mem-any x theirs both))
      | inr not_both ↦ rw not_both (complete xs f)
    ]

-- No version is chosen exactly when the two sides share none.
pub negotiate-none :
    (ours theirs : List ℕ)
    → negotiate_version ours theirs ≡ none
    → (v : ℕ) → Memᴰ v (reverse ours)
    → ¬ Memᴰ v theirs
unfolding negotiate_version
negotiate-none ours theirs e = go (reverse ours) e
  where
    go :
        (xs : List ℕ)
        → find (λ x. any (λ w. w == x) theirs) xs ≡ none
        → (v : ℕ) → Memᴰ v xs
        → ¬ Memᴰ v theirs
    go [] h v m t = elim m [ ]
    go (x ∷ xs) h v (Memᴰ.head p) t = ground (arith, any-mem v theirs t)
    go (x ∷ xs) h v (Memᴰ.tail m) t = elim (Bool-cases (any (λ w. w == x) theirs)) [
      | inl both ↦ absurd (ground arith)
      | inr not_both ↦ go xs (rw not_both at h) v m t
    ]
