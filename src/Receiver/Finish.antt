-- ===== src/Receiver/Finish.antt =====
-- The end of a stream in `receive_one_file` of receiver.rs: the hash, and the move of the file.
use dash_drop.Base.{
  ℕ, String, false, some, none, List, ◌≡◌, refl, sym, ◌∙◌, ◌≢◌, ◌==◌, ◌&&◌, nat_eq, list_eq,
  beq_refl, lookup, remove, lookup-insert_self, lookup-insert_ne, lookup-remove_self,
  lookup-remove_ne, Bool-cases, inl, inr,
}
use dash_drop.Types.Protocol.{file_ok, file_failed, hash_mismatch}
use dash_drop.Paths.{PathBuf}
use dash_drop.Files.{FileConflictStrategy, path_eq, exists, remove_file}
use dash_drop.Local.{Local}
use dash_drop.Receiver.{
  Faults, on_disk, content, move_file, rename_temp, is_overwrite, replace_final, finish,
}
use dash_drop.Receiver.Stored.{IsWorking}

-- The file has its bytes under its own path, the temporary one is gone, the others are as before.
pub record Delivered (temp final : PathBuf) (bytes : List ℕ) (l l' : Local) : Type 0 where
  pub holds : lookup final l'.disk.files ≡ some bytes
  pub gone : lookup temp l'.disk.files ≡ none
  pub others : (q : PathBuf) → temp ≢ q → final ≢ q → lookup q l'.disk.files ≡ lookup q l.disk.files

module _ (hash : List ℕ → List ℕ) (faults : Faults) (works : IsWorking faults)
    (transfer_id : String) (file_id : ℕ) (strategy : FileConflictStrategy) (temp final : PathBuf)
    (apart : temp ≢ final) where
  move-Delivered :
      (bytes : List ℕ) (l : Local)
      → lookup temp l.disk.files ≡ some bytes
      → Delivered temp final bytes l (on_disk (move_file temp final) l)
  move-Delivered bytes l h = record {
    holds = lookup-insert_self final (content temp l.disk) (remove temp l.disk.files) ∙ rw h refl;
    gone =
        lookup-insert_ne final temp (content temp l.disk) (remove temp l.disk.files)
          (λ e. apart (sym e))
        ∙ lookup-remove_self temp l.disk.files;
    others = λ q a b.
        lookup-insert_ne final q (content temp l.disk) (remove temp l.disk.files) b
        ∙ lookup-remove_ne temp q l.disk.files a;
  }

  abbrev cleared : Local → Local
  cleared l = on_disk (remove_file final) l

  cleared-Delivered :
      (bytes : List ℕ) (l : Local)
      → lookup temp l.disk.files ≡ some bytes
      → Delivered temp final bytes l (on_disk (move_file temp final) (cleared l))
  cleared-Delivered bytes l h =
      let d =
        move-Delivered bytes (cleared l)
          (lookup-remove_ne final temp l.disk.files (λ e. apart (sym e)) ∙ h) in
      record {
        holds = d.holds;
        gone = d.gone;
        others = λ q a b. d.others q a b ∙ lookup-remove_ne final q l.disk.files b;
      }

  replace_final-Delivered :
      (bytes : List ℕ) (l : Local)
      → lookup temp l.disk.files ≡ some bytes
      → (l' : Local) × (replace_final hash faults transfer_id file_id strategy temp final l
          ≡ (l', file_ok file_id))
        × Delivered temp final bytes l l'
  unfolding replace_final rename_temp
  replace_final-Delivered bytes l h =
      elim (Bool-cases (
        is_overwrite hash faults transfer_id file_id strategy temp final strategy
        && exists final l.disk)) [
          | inl over ↦
              rw (over, works.removes_final)
                (
                  on_disk (move_file temp final) (cleared l),
                  rw works.renames refl,
                  cleared-Delivered bytes l h,
                )
          | inr free ↦
              rw free
                (on_disk (move_file temp final) l, rw works.renames refl, move-Delivered bytes l h)
        ]

  -- With the right hash the file is delivered.
  pub finish-Delivered :
      (hashed bytes : List ℕ) (l : Local)
      → lookup temp l.disk.files ≡ some bytes
      → (l' : Local) × (finish hash faults transfer_id file_id strategy temp final hashed
            (record { file_id = file_id; file_hash = hash hashed })
            l
          ≡ (l', file_ok file_id))
        × Delivered temp final bytes l l'
  unfolding finish
  finish-Delivered hashed bytes l h =
      rw (beq_refl file_id) (
        rw (works.flushes, finish)
          (rw (beq_refl (hash hashed)) (replace_final-Delivered bytes l h)))

  -- With a wrong one it is refused, and the temporary file removed.
  pub finish_mismatch :
      (hashed declared : List ℕ) (l : Local)
      → hash hashed ≢ declared
      → finish hash faults transfer_id file_id strategy temp final hashed
          (record { file_id = file_id; file_hash = declared })
          l
        ≡ (on_disk (remove_file temp) l, file_failed file_id hash_mismatch)
  unfolding finish
  finish_mismatch hashed declared l h =
      rw (beq_refl file_id)
        (rw (works.flushes, finish) (rw (unequal (hash hashed) declared h) refl))
    where
      unequal : (x y : List ℕ) → x ≢ y → (x == y) ≡ false
      unequal x y n = elim (Bool-cases (x == y)) [
        | inl same ↦ absurd (n ((list_eq.eqb_iff x y).0 same))
        | inr other ↦ other
      ]
