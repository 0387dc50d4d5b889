-- ===== src/Receiver/Stored.antt =====
-- What `receive_one_file` of receiver.rs stores, for the stream of a file that could be read.
use dash_drop.Base.{
  ℕ, suc, String, true, none, some, List, ◌++◌, map, ◌≡◌, refl, sym, ◌∙◌, ap, ◌≢◌, ◌+◌, nat_eq,
  list_eq, beq_refl, lookup, length, lookup-insert_self, lookup-insert_ne,
}
use mathlib.Core.List.{append_assoc, append-nil}
use dash_drop.Types.Protocol.{DashMessage, Read, message, AckResult}
use dash_drop.Paths.{PathBuf}
use dash_drop.Files.{Disk, FileConflictStrategy, path_eq}
use dash_drop.Local.{Local, add_progress, add_progress-disk}
use dash_drop.Receiver.{Faults, on_disk, content, append_file, receive_loop}
use dash_drop.Sender.Chunks.{Chunks}

-- Operations of which none fails.
pub record IsWorking (f : Faults) : Type 0 where
  pub makes_directory : f.make_directory ≡ none
  pub creates : f.create ≡ none
  pub appending : f.appends ≡ true
  pub writes : (n : ℕ) → f.write n ≡ none
  pub flushes : f.flush ≡ none
  pub removes_final : f.remove_final ≡ none
  pub renames : f.rename ≡ none

-- From `l` to `l'` the file at `p` becomes `bytes`, and no other file changes.
pub record Wrote (p : PathBuf) (bytes : List ℕ) (l l' : Local) : Type 0 where
  pub holds : lookup p l'.disk.files ≡ some bytes
  pub others : (q : PathBuf) → p ≢ q → lookup q l'.disk.files ≡ lookup q l.disk.files

content_is :
    (p : PathBuf) (bytes : List ℕ) (d : Disk) → lookup p d.files ≡ some bytes → content p d ≡ bytes
content_is p bytes d h = rw h refl

module _ (hash : List ℕ → List ℕ) (faults : Faults) (works : IsWorking faults)
    (transfer_id : String) (file_id : ℕ) (strategy : FileConflictStrategy)
    (temp final : PathBuf) where
  abbrev loop : ℕ → List ℕ → List Read → Local → Local × AckResult
  loop = receive_loop hash faults transfer_id file_id strategy temp final

  abbrev appended : List ℕ → Local → Local
  appended part l = add_progress transfer_id (length part) (on_disk (append_file temp part) l)

  appended-Wrote :
      (part old : List ℕ) (l : Local)
      → lookup temp l.disk.files ≡ some old
      → Wrote temp (old ++ part) l (appended part l)
  appended-Wrote part old l h = record {
    holds =
        ap (λ (d : Disk). lookup temp d.files)
          (add_progress-disk transfer_id (length part) (on_disk (append_file temp part) l))
        ∙ lookup-insert_self temp (content temp l.disk ++ part) l.disk.files
        ∙ ap (λ x. some (x ++ part)) (content_is temp old l.disk h);
    others = λ q other.
        ap (λ (d : Disk). lookup q d.files)
          (add_progress-disk transfer_id (length part) (on_disk (append_file temp part) l))
        ∙ lookup-insert_ne temp q (content temp l.disk ++ part) l.disk.files other;
  }

  -- The chunks of a file are hashed and appended to the temporary file.
  pub receive_loop-Chunks :
      (offset chunk_id n : ℕ) (part hashed old : List ℕ) (ms tail : List DashMessage) (l : Local)
      → Chunks file_id offset chunk_id part ms
      → lookup temp l.disk.files ≡ some old
      → (n' : ℕ) × (l' : Local) × (receive_loop hash faults transfer_id file_id strategy temp final
            n hashed
            (map message (ms ++ tail))
            l
          ≡ receive_loop hash faults transfer_id file_id strategy temp final n'
              (hashed ++ part)
              (map message tail)
              l')
        × Wrote temp (old ++ part) l l'
  unfolding receive_loop
  receive_loop-Chunks offset chunk_id n part hashed old ms tail l Chunks.done h = (
    n,
    l,
    ap (λ x. loop n x (map message tail) l) (sym (append-nil hashed)),
    record { holds = h ∙ ap some (sym (append-nil old)); others = λ q other. refl },
  )
  receive_loop-Chunks offset chunk_id n part hashed old ms tail l
        (Chunks.next {bytes = bytes} {ms = rest} piece some_bytes small more) h =
      let wrote = appended-Wrote piece old l h in
      let (n', l', same, wrote') =
        receive_loop-Chunks (offset + length piece) (chunk_id + 1) (suc n) bytes (hashed ++ piece)
          (old ++ piece) rest tail (appended piece l) more wrote.holds in
      (
        n',
        l',
        rw (beq_refl file_id) (
            rw (works.writes n, receive_loop)
              (same ∙ ap (λ x. loop n' x (map message tail) l') (append_assoc hashed piece bytes))),
        record {
          holds = wrote'.holds ∙ ap some (append_assoc old piece bytes);
          others = λ q other. wrote'.others q other ∙ wrote.others q other;
        },
      )
