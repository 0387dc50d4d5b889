-- ===== src/Delivery.antt =====
-- The two ends of one file together: what `send_one_file` of src-tauri/src/transport/sender.rs writes
-- is what `receive_one_file` of src-tauri/src/transport/receiver.rs reads, from the path on.
mod Tests
use dash_drop.Base.{
  ℕ, String, Done, Bool, true, false, some, none, List, [], ◌∷◌, ◌++◌, map, ◌≡◌, refl, sym, ◌∙◌, ap,
  subst, ◌≢◌, ◌<◌, ◌≤◌, arith, lookup, length, lookup-insert_self, lookup-insert_ne,
  lookup-remove_self, ltb, if◌then◌else◌, ok,
}
use dash_drop.Types.Protocol.{
  FileItem, DashMessage, complete, CompletePayload, Read, message, AckResult, file_ok, file_failed,
  hash_mismatch,
}
use dash_drop.Paths.{PathBuf, push, parent_dir}
use dash_drop.Files.{
  FileConflictStrategy, path_eq, create_dir_all, write_file, remove_file, temp_path_for, Disk,
}
use dash_drop.Files.Names.{temp_path_for_other}
use dash_drop.Local.{Local}
use dash_drop.Sender.{Source, send_one_file}
use dash_drop.Sender.Chunks.{Chunks-subst, IsReadable, front, back, back_zero, length-front}
use dash_drop.Sender.Whole.{Streams, send_one_file-Streams}
use dash_drop.Receiver.{
  Faults, on_disk, Opened, opened, open_temp, resume_length, create_new, receive_loop, receive_into,
  finish,
}
use dash_drop.Receiver.Stored.{IsWorking, Wrote, receive_loop-Chunks}
use dash_drop.Receiver.Finish.{Delivered, finish-Delivered, finish_mismatch}

module _ (hash : List ℕ → List ℕ) (s : Source) (bytes : List ℕ) (readable : IsReadable s bytes)
    (faults : Faults) (works : IsWorking faults) (transfer_id : String) (item : FileItem)
    (waiters : List (ℕ × Done)) (strategy : FileConflictStrategy) (final : PathBuf) where
  -- What arrives when the sender starts from `resume`.
  abbrev pub stream : ℕ → Local → List Read
  stream resume l =
      map message (send_one_file hash s transfer_id item.file_id waiters resume l).sent

  abbrev temp : PathBuf
  temp = temp_path_for final

  open_fresh :
      (d : Disk)
      → lookup temp d.files ≡ none
      → open_temp faults temp item.size d ≡ opened (write_file temp [] d)
  unfolding open_temp resume_length create_new
  open_fresh d h = rw (h, resume_length) (rw (works.creates, create_new) refl)

  open_resumed :
      (d : Disk) (old : List ℕ)
      → lookup temp d.files ≡ some old
      → 0 < length old
      → length old ≤ item.size
      → open_temp faults temp item.size d ≡ opened d
  unfolding open_temp resume_length
  open_resumed d old h some_bytes fits =
      rw (h, resume_length)
        (rw (longer item.size (length old) fits)
          (rw (filled (length old) some_bytes, works.appending) refl))
    where
      longer : (n m : ℕ) → m ≤ n → ltb n m ≡ false
      longer n m p = ground arith

      filled : (m : ℕ) → 0 < m → ltb 0 m ≡ true
      filled m p = ground arith

  abbrev made : Local → Local
  made l = on_disk (create_dir_all (push final parent_dir)) l

  abbrev begun : Local → Local
  begun l = on_disk (write_file temp []) (made l)

  abbrev loop : ℕ → List ℕ → List Read → Local → Local × AckResult
  loop = receive_loop hash faults transfer_id item.file_id strategy temp final

  abbrev end : CompletePayload
  end = record { file_id = item.file_id; file_hash = hash bytes }

  loop-end :
      (n : ℕ) (hashed : List ℕ) (l : Local)
      → loop n hashed (map message (complete end ∷ [])) l
        ≡ finish hash faults transfer_id item.file_id strategy temp final hashed end l
  unfolding receive_loop
  loop-end n hashed l = refl

  -- The stream brings the loop to its end, with the rest of the file hashed and appended.
  looped :
      (resume : ℕ) (old : List ℕ) (sender l : Local)
      → resume ≤ length bytes
      → lookup temp l.disk.files ≡ some old
      → (l' : Local) × (loop 0 [] (stream resume sender) l
          ≡ finish hash faults transfer_id item.file_id strategy temp final
              (back resume bytes)
              end
              l')
        × Wrote temp (old ++ back resume bytes) l l'
  looped resume old sender l le h =
      let (ms, chunk_id, sent, chunks, result) =
        send_one_file-Streams hash s bytes readable transfer_id item.file_id waiters resume sender
          le in
      let (n, l', same, wrote) =
        receive_loop-Chunks hash faults works transfer_id item.file_id strategy temp final resume
          chunk_id 0 (back resume bytes) [] old ms (complete end ∷ []) l chunks h in
      (
        l',
        ap (λ x. loop 0 [] (map message x) l) sent ∙ same ∙ loop-end n (back resume bytes) l',
        wrote,
      )

  -- A file that can be read, sent from its start to a receiver on which no operation fails and that
  -- has no temporary file of it, arrives: the result is success, the file at the final path has
  -- exactly the bytes of the source whatever the sizes of the reads, the temporary file is gone,
  -- and no other file has changed.
  pub receive_into-send_one_file :
      (sender l : Local)
      → lookup (temp_path_for final) l.disk.files ≡ none
      → (l' : Local) × (receive_into hash faults strategy transfer_id item final (stream 0 sender) l
          ≡ (l', some (file_ok item.file_id)))
        × Delivered (temp_path_for final) final bytes l l'
  unfolding receive_into
  receive_into-send_one_file sender l h =
      let start = lookup-insert_self temp [] (made l).disk.files in
      let (l2, same, wrote) = looped 0 [] sender (begun l) (omega arith) start in
      let whole : back 0 bytes ≡ bytes = sym (back_zero bytes) in
      let (l3, finished, d) =
        finish-Delivered hash faults works transfer_id item.file_id strategy temp final
          (temp_path_for_other final) bytes bytes l2 (wrote.holds ∙ ap some whole) in
      (
        l3,
        rw (works.makes_directory, receive_into)
            (rw (open_fresh (made l).disk h, receive_into)
              (ap (λ (r : Local × AckResult). (r.0, some r.1))
                (same
                  ∙ ap
                      (λ x.
                        finish hash faults transfer_id item.file_id strategy temp final x end l2)
                      whole
                  ∙ finished))),
        record {
          holds = d.holds;
          gone = d.gone;
          others = λ q other_temp other_final.
              d.others q other_temp other_final
              ∙ wrote.others q other_temp
              ∙ lookup-insert_ne temp q [] (made l).disk.files other_temp;
        },
      )

  -- A resume never succeeds: a receiver that holds the first part of a file and is sent the rest
  -- hashes the rest only, while the sender's hash is of the whole file. Where the two hashes
  -- differ, the file is refused and the part that was there is removed.
  pub receive_into_resumed :
      (resume : ℕ) (sender l : Local)
      → 0 < resume
      → resume ≤ length bytes
      → item.size ≡ length bytes
      → lookup (temp_path_for final) l.disk.files ≡ some (front resume bytes)
      → hash (back resume bytes) ≢ hash bytes
      → (l' : Local) × (receive_into hash faults strategy transfer_id item final
            (stream resume sender)
            l
          ≡ (l', some (file_failed item.file_id hash_mismatch)))
        × (lookup (temp_path_for final) l'.disk.files ≡ none)
  unfolding receive_into
  receive_into_resumed resume sender l pos le size h differ =
      let held : length (front resume bytes) ≡ resume = omega (arith, length-front resume bytes) in
      let (l2, same, wrote) = looped resume (front resume bytes) sender (made l) le h in
      (
        on_disk (remove_file temp) l2,
        rw (works.makes_directory, receive_into)
            (rw
              (
                open_resumed (made l).disk (front resume bytes) h (omega (arith, held))
                    (omega (arith, held, size)),
                receive_into,
              )
              (ap (λ (r : Local × AckResult). (r.0, some r.1))
                (same
                  ∙ finish_mismatch hash faults works transfer_id item.file_id strategy temp final
                      (temp_path_for_other final) (back resume bytes) (hash bytes) l2 differ))),
        lookup-remove_self temp l2.disk.files,
      )
