-- ===== src/Sender/Chunks.antt =====
-- What `send_one_file` of sender.rs writes for a file that can be read.
use mathlib.Core.List.{append_assoc, append-nil}
use dash_drop.Base.{
  ℕ, zero, suc, String, true, false, some, List, [], ◌∷◌, ◌++◌, ◌≡◌, refl, sym, ◌∙◌, ap, subst, ◌+◌,
  ◌-◌, ◌≤◌, ◌<◌, length, arith, min, ok, Bool-cases, inl, inr, is_empty, ◌==◌, nat_eq,
}
use dash_drop.Types.Protocol.{DashMessage, chunk}
use dash_drop.Local.{Local, add_progress}
use dash_drop.Sender.{
  Source, Reading, split_at, read_some, advance, skip_loop, send_loop, chunk_size,
}

-- The messages carry the bytes in order from the offset on, in pieces of 1 to `chunk_size`.
pub data Chunks (file_id : ℕ) : ℕ → ℕ → List ℕ → List DashMessage → Type 0 where
  done : {offset chunk_id : ℕ} → Chunks file_id offset chunk_id [] []
  next :
      {offset chunk_id : ℕ} {bytes : List ℕ} {ms : List DashMessage} (part : List ℕ)
      → 0 < length part
      → length part ≤ chunk_size
      → Chunks file_id (offset + length part) (chunk_id + 1) bytes ms
      → Chunks file_id offset chunk_id (part ++ bytes) (
          chunk (record { file_id = file_id; chunk_id = chunk_id; offset = offset; bytes = part })
          ∷ ms)

abbrev pub front : ℕ → List ℕ → List ℕ
front n xs = (split_at n xs).0

abbrev pub back : ℕ → List ℕ → List ℕ
back n xs = (split_at n xs).1

pub split_at-append : (n : ℕ) (xs : List ℕ) → front n xs ++ back n xs ≡ xs
unfolding split_at
split_at-append zero xs = refl
split_at-append (suc n) [] = refl
split_at-append (suc n) (x ∷ xs) = ap (◌∷◌ x) (split_at-append n xs)

pub length-front : (n : ℕ) (xs : List ℕ) → length (front n xs) ≡ min n (length xs)
unfolding split_at
length-front zero xs = omega arith
length-front (suc n) [] = omega arith
length-front (suc n) (x ∷ xs) = omega (arith, length-front n xs)

pub length-back : (n : ℕ) (xs : List ℕ) → length (back n xs) ≡ length xs - n
unfolding split_at
length-back zero xs = omega arith
length-back (suc n) [] = omega arith
length-back (suc n) (x ∷ xs) = omega (arith, length-back n xs)

append-front_zero : (hashed xs : List ℕ) → hashed ≡ hashed ++ front 0 xs
unfolding split_at
append-front_zero hashed xs = sym (append-nil hashed)

pub back_zero : (xs : List ℕ) → xs ≡ back 0 xs
unfolding split_at
back_zero xs = refl

suc_not_zero : (t : ℕ) → (suc t == 0) ≡ false
suc_not_zero t = ground arith

zero_add : (m : ℕ) → 0 + m ≡ m
zero_add m = omega arith

suc_add : (n m : ℕ) → suc n + m ≡ suc (n + m)
suc_add n m = omega arith

-- Two splits in a row are one.
split_at-back : (n m : ℕ) (xs : List ℕ) → back m (back n xs) ≡ back (n + m) xs
unfolding split_at
split_at-back zero m xs = rw (zero_add m) refl
split_at-back (suc n) zero [] = rw (suc_add n 0) refl
split_at-back (suc n) (suc m) [] = rw (suc_add n (suc m)) refl
split_at-back (suc n) m (x ∷ xs) = rw (suc_add n m) (split_at-back n m xs)

split_at-front : (n m : ℕ) (xs : List ℕ) → front n xs ++ front m (back n xs) ≡ front (n + m) xs
unfolding split_at
split_at-front zero m xs = rw (zero_add m) refl
split_at-front (suc n) zero [] = rw (suc_add n 0) refl
split_at-front (suc n) (suc m) [] = rw (suc_add n (suc m)) refl
split_at-front (suc n) m (x ∷ xs) = rw (suc_add n m) (ap (◌∷◌ x) (split_at-front n m xs))

pub Chunks-subst :
    {file_id offset chunk_id : ℕ} {xs ys : List ℕ} {ms : List DashMessage}
    → xs ≡ ys
    → Chunks file_id offset chunk_id xs ms
    → Chunks file_id offset chunk_id ys ms
Chunks-subst {file_id} {offset} {chunk_id} {ms = ms} p c =
    subst (λ x. Chunks file_id offset chunk_id x ms) p c

-- A source of which every operation succeeds.
pub record IsReadable (s : Source) (bytes : List ℕ) : Type 0 where
  pub opens : s.opens_stream ≡ true
  pub content : s.bytes ≡ some bytes
  pub reads : (offset : ℕ) → s.read_fails offset ≡ false
  pub writes : (chunk_id : ℕ) → s.write_fails chunk_id ≡ false
  pub ends : s.finishes ≡ true

empty_is : (xs : List ℕ) → is_empty xs ≡ true → xs ≡ []
empty_is [] h = refl
empty_is (x ∷ xs) h = absurd (cc)

nonempty : (xs : List ℕ) → is_empty xs ≡ false → 0 < length xs
nonempty [] h = absurd (cc)
nonempty (x ∷ xs) h = omega arith

filled : (xs : List ℕ) → 0 < length xs → is_empty xs ≡ false
filled [] h = absurd (omega arith)
filled (x ∷ xs) h = refl

module _ (s : Source) (bytes : List ℕ) (readable : IsReadable s bytes) (transfer_id : String)
    (file_id : ℕ) where
  pub send_loop-Chunks :
      (fuel : ℕ) (r : Reading) (l : Local)
      → length r.rest < fuel
      → let out = send_loop s transfer_id file_id fuel r l in
        ((r' : Reading) × (out.result ≡ ok r') × (r'.hashed ≡ r.hashed ++ r.rest))
        × Chunks file_id r.offset r.chunk_id r.rest out.messages
  unfolding send_loop read_some
  send_loop-Chunks zero r l h = absurd (omega arith)
  send_loop-Chunks (suc fuel) r l h = elim (Bool-cases (is_empty r.rest)) [
    | inl ended ↦
        rw (readable.reads r.offset, ended)
          (
            (
              r,
              refl,
              sym (append-nil r.hashed) ∙ ap (λ x. r.hashed ++ x) (sym (empty_is r.rest ended)),
            ),
            Chunks-subst (sym (empty_is r.rest ended)) done,
          )
    | inr more ↦
        let n = suc (min (s.got r.offset) (chunk_size - 1)) in
        let some_left = nonempty r.rest more in
        let (rest, chunks) =
          send_loop-Chunks fuel (advance (front n r.rest) (back n r.rest) r)
            (add_progress transfer_id (length (front n r.rest)) l)
            (omega (arith, length-back n r.rest)) in
        rw (readable.reads r.offset, more, readable.writes r.chunk_id)
          (
            (
              rest.0,
              rest.1,
              rest.2
                  ∙ append_assoc r.hashed (front n r.rest) (back n r.rest)
                  ∙ ap (λ x. r.hashed ++ x) (split_at-append n r.rest),
            ),
            Chunks-subst (split_at-append n r.rest) (
                next (front n r.rest) (omega (arith, length-front n r.rest))
                  (omega (arith, length-front n r.rest)) chunks),
          )
  ]

  pub skip_loop-front :
      (fuel to_skip : ℕ) (r : Reading)
      → to_skip ≤ fuel
      → to_skip ≤ length r.rest
      → (r' : Reading) × (skip_loop s fuel to_skip r ≡ ok r')
        × (r'.hashed ≡ r.hashed ++ front to_skip r.rest)
        × (r'.rest ≡ back to_skip r.rest)
        × (r'.offset ≡ r.offset + to_skip)
  unfolding skip_loop read_some
  skip_loop-front zero zero r h k =
      (r, refl, append-front_zero r.hashed r.rest, back_zero r.rest, omega arith)
  skip_loop-front (suc fuel) zero r h k =
      (r, refl, append-front_zero r.hashed r.rest, back_zero r.rest, omega arith)
  skip_loop-front zero (suc t) r h k = absurd (omega arith)
  skip_loop-front (suc fuel) (suc t) r h k =
      let n = suc (min (s.got r.offset) (min (suc t) chunk_size - 1)) in
      let same : length (front n r.rest) ≡ n = omega (arith, length-front n r.rest) in
      let whole : n + (suc t - n) ≡ suc t = omega arith in
      let (r', found, hashed, rest, offset) =
        skip_loop-front fuel (suc t - length (front n r.rest))
          (advance (front n r.rest) (back n r.rest) r) (omega (arith, same))
          (omega (arith, same, length-back n r.rest)) in
      (
        r',
        rw (suc_not_zero t, filled r.rest (omega arith), readable.reads r.offset) found,
        hashed
            ∙ append_assoc r.hashed (front n r.rest) _
            ∙ ap (λ x. r.hashed ++ x)
                (ap (λ m. front n r.rest ++ front (suc t - m) (back n r.rest)) same
                  ∙ split_at-front n (suc t - n) r.rest
                  ∙ ap (λ m. front m r.rest) whole),
        rest
            ∙ ap (λ m. back (suc t - m) (back n r.rest)) same
            ∙ split_at-back n (suc t - n) r.rest
            ∙ ap (λ m. back m r.rest) whole,
        omega (arith, offset, same),
      )
