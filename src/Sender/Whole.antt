-- ===== src/Sender/Whole.antt =====
-- The stream that `send_one_file` of sender.rs writes, from its start to `Complete`.
use dash_drop.Base.{
  ℕ, suc, String, Done, List, [], ◌∷◌, ◌++◌, ◌≡◌, refl, sym, ◌∙◌, ap, subst, ◌≤◌, length, arith, ok,
  Bool-cases, inl, inr, ltb,
}
use dash_drop.Types.Protocol.{DashMessage, complete}
use dash_drop.Local.{Local}
use dash_drop.Sender.{
  Source, Reading, Sent, Sending, send_loop, skip_loop, close, send_from, send_one_file, ack_result,
  at_start, resume_progress,
}
use dash_drop.Sender.Chunks.{
  Chunks, Chunks-subst, IsReadable, front, back, split_at-append, back_zero, length-back,
  send_loop-Chunks, skip_loop-front,
}

module _ (hash : List ℕ → List ℕ) (s : Source) (bytes : List ℕ) (readable : IsReadable s bytes)
    (transfer_id : String) (file_id : ℕ) (waiters : List (ℕ × Done)) where
  -- The stream ends with the hash of the whole file, and the rest of it is `part`.
  abbrev pub Streams : ℕ → List ℕ → Sending → Type 0
  Streams offset part out =
      (ms : List DashMessage) × (chunk_id : ℕ) × (out.sent
        ≡ ms ++ (complete (record { file_id = file_id; file_hash = hash bytes }) ∷ []))
      × Chunks file_id offset chunk_id part ms
      × (out.result ≡ ok (ack_result file_id s.wait))

  close-Streams :
      (offset chunk_id : ℕ) (part : List ℕ) (out : Sent) (r : Reading)
      → out.result ≡ ok r
      → r.hashed ≡ bytes
      → Chunks file_id offset chunk_id part out.messages
      → Streams offset part (close hash s transfer_id file_id waiters out)
  unfolding close
  close-Streams offset chunk_id part out r found whole chunks =
      rw (found, close)
        (rw (readable.writes r.chunk_id, readable.ends)
          (rw whole (out.messages, chunk_id, refl, chunks, refl)))

  fresh :
      (l : Local)
      → Streams 0 bytes (
          close hash s transfer_id file_id waiters
            (send_loop s transfer_id file_id (suc (length bytes)) (at_start bytes) l))
  fresh l =
      let ((r, found, whole), chunks) =
        send_loop-Chunks s bytes readable transfer_id file_id (suc (length bytes)) (at_start bytes)
          l (omega arith) in
      close-Streams 0 0 bytes _ r found whole chunks

  fresh_at :
      (resume : ℕ) (l : Local)
      → resume ≡ 0
      → Streams resume (back resume bytes) (
          close hash s transfer_id file_id waiters
            (send_loop s transfer_id file_id (suc (length bytes)) (at_start bytes) l))
  fresh_at resume l none_yet =
      subst (λ n. Streams n (back n bytes) out) (sym none_yet)
        (subst (λ xs. Streams 0 xs out) (back_zero bytes) (fresh l))
    where
      out : Sending
      out =
          close hash s transfer_id file_id waiters
            (send_loop s transfer_id file_id (suc (length bytes)) (at_start bytes) l)

  abbrev resumed_from : Reading → Local → Sent
  resumed_from r l =
      send_loop s transfer_id file_id (suc (length bytes)) r
        (resume_progress transfer_id r.offset l)

  resumed :
      (resume : ℕ) (l : Local)
      → resume ≤ length bytes
      → (r : Reading) × (skip_loop s resume resume (at_start bytes) ≡ ok r)
        × Streams resume
            (back resume bytes)
            (close hash s transfer_id file_id waiters (resumed_from r l))
  resumed resume l h =
      let (r, skipped, hashed, rest, offset) =
        skip_loop-front s bytes readable transfer_id file_id resume resume (at_start bytes)
          (omega arith) h in
      let ((r', found, whole), chunks) =
        send_loop-Chunks s bytes readable transfer_id file_id (suc (length bytes)) r
          (resume_progress transfer_id r.offset l)
          (omega (arith, ap length rest, length-back resume bytes)) in
      let at : r.offset ≡ resume = omega (arith, offset) in
      let all : r'.hashed ≡ bytes =
        whole
        ∙ ap (λ x. x ++ r.rest) hashed
        ∙ ap (λ x. front resume bytes ++ x) rest
        ∙ split_at-append resume bytes in
      (
        r,
        skipped,
        close-Streams resume r.chunk_id (back resume bytes) (resumed_from r l) r' found all (
            subst (λ n. Chunks file_id n r.chunk_id (back resume bytes) (resumed_from r l).messages)
              at (Chunks-subst rest chunks)),
      )

  -- A file that can be read is written from the resume offset on, whatever the sizes of the reads:
  -- chunks of 1 to `chunk_size` bytes, in order and with their offsets, that together are the rest
  -- of the file, then `Complete` with the hash of the whole file; the result is the receiver's ack.
  pub send_one_file-Streams :
      (resume : ℕ) (l : Local)
      → resume ≤ length bytes
      → Streams resume
          (back resume bytes)
          (send_one_file hash s transfer_id file_id waiters resume l)
  unfolding send_one_file send_from
  send_one_file-Streams resume l h = rw readable.opens (
      rw (readable.content, send_one_file)
        (elim (Bool-cases (ltb 0 resume)) [
          | inl later ↦
              let (r, skipped, streams) = resumed resume l h in
              rw later (rw (skipped, send_from) streams)
          | inr start ↦
              let none_yet : resume ≡ 0 = ground arith in rw start (fresh_at resume l none_yet)
        ]))
