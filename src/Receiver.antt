-- ===== src/Receiver.antt =====
-- src-tauri/src/transport/receiver.rs: `receive_one_file`. A stream is the list of what its reads
-- yield; one that has ended fails to be read. BLAKE3 is a parameter, on all the bytes that the
-- hasher was given. The operating system's refusals are a record; the removal of a temporary file
-- succeeds. The test for a file of the right size only logs and is left out.

pub mod Stored
pub mod Finish
use dash_drop.Base.{
  ℕ, suc, String, Bool, true, false, Option, none, some, List, [], ◌∷◌, ◌++◌, ◌+◌, ◌&&◌, not, ◌==◌,
  nat_eq, list_eq, ltb, if◌then◌else◌, lookup, insert, remove, contains_key, unwrap_or, length,
  Result, ok, err,
}
use dash_drop.Types.Protocol.{
  FileType, directory, regular_file, FileItem, DashMessage, hello, offer, accept, reject, chunk,
  complete, ack, cancel, p2p_request, p2p_response, ErrorCode, hash_mismatch, cancelled,
  invalid_path, path_conflict, protocol, CompletePayload, ChunkPayload, Read, message, read_error,
  AckResult, file_ok, file_failed,
}
use dash_drop.Paths.{
  PathBuf, PathError, Component, push, parent_dir, normalize_path, validate_rel_path,
}
use dash_drop.Files.{
  Disk, IoError, FileConflictStrategy, overwrite, path_eq, exists, create_dir_all, remove_file,
  write_file, io_error_code, temp_path_for, resolve_conflict_path,
}
use dash_drop.Local.{Local, add_progress}

pub record Faults : Type 0 where
  pub make_directory : Option IoError
  pub create : Option IoError
  pub appends : Bool
  pub write : ℕ → Option IoError
  pub flush : Option IoError
  pub remove_final : Option IoError
  pub rename : Option IoError

abbrev pub on_disk : (Disk → Disk) → Local → Local
on_disk f l = record l { disk = f l.disk }

-- The length of a temporary file to go on with; one that is too long is removed.
unfoldable pub resume_length : PathBuf → ℕ → Disk → Disk × ℕ
resume_length temp size d = elim (lookup temp d.files) [
  | none ↦ (d, 0)
  | some bytes ↦ if ltb size (length bytes) then (remove_file temp d, 0) else (d, length bytes)
]

pub data Opened : Type 0 where
  opened : Disk → Opened
  open_failed : Disk → ErrorCode → Opened
  panicked : Opened

-- `File::create(..)`, and its use after the file could not be opened to append: `unwrap`.
unfoldable pub create_again : Faults → PathBuf → Disk → Opened
create_again faults temp d = elim faults.create [
  | none ↦ opened (write_file temp [] d)
  | some e ↦ panicked
]

unfoldable pub create_new : Faults → PathBuf → Disk → Opened
create_new faults temp d = elim faults.create [
  | none ↦ opened (write_file temp [] d)
  | some e ↦ open_failed d (io_error_code e)
]

unfoldable pub open_temp : Faults → PathBuf → ℕ → Disk → Opened
open_temp faults temp size d =
    let (d', offset) = resume_length temp size d in
    if ltb 0 offset
    then if faults.appends then opened d' else create_again faults temp (remove_file temp d')
    else create_new faults temp d'

abbrev pub content : PathBuf → Disk → List ℕ
content p d = unwrap_or (lookup p d.files) []

abbrev pub append_file : PathBuf → List ℕ → Disk → Disk
append_file p bytes d = write_file p (content p d ++ bytes) d

abbrev pub move_file : PathBuf → PathBuf → Disk → Disk
move_file from to d = write_file to (content from d) (remove_file from d)

module _ (hash : List ℕ → List ℕ) (faults : Faults) (transfer_id : String) (file_id : ℕ)
    (strategy : FileConflictStrategy) (temp final : PathBuf) where
  abbrev pub give_up : Local → ErrorCode → Local × AckResult
  give_up l e = (on_disk (remove_file temp) l, file_failed file_id e)

  unfoldable pub rename_temp : Local → Local × AckResult
  rename_temp l = elim faults.rename [
    | some e ↦ give_up l (io_error_code e)
    | none ↦ (on_disk (move_file temp final) l, file_ok file_id)
  ]

  abbrev pub is_overwrite : FileConflictStrategy → Bool
  is_overwrite overwrite = true
  is_overwrite _ = false

  unfoldable pub replace_final : Local → Local × AckResult
  unfolding rename_temp
  replace_final l =
      if is_overwrite strategy && exists final l.disk
      then elim faults.remove_final [
        | some e ↦ give_up l (io_error_code e)
        | none ↦ rename_temp (on_disk (remove_file final) l)
      ]
      else rename_temp l

  unfoldable pub finish : List ℕ → CompletePayload → Local → Local × AckResult
  finish hashed c l =
      if c.file_id == file_id
      then elim faults.flush [
        | some e ↦ give_up l (io_error_code e)
        | none ↦ if hash hashed == c.file_hash then replace_final l else give_up l hash_mismatch
      ]
      else (l, file_failed file_id (protocol "file_id mismatch in complete"))

  -- The loop over the messages; `n` counts the chunks, `hashed` is what the hasher was given.
  unfoldable pub receive_loop : ℕ → List ℕ → List Read → Local → Local × AckResult
  receive_loop n hashed [] l = give_up l (protocol "stream ended")
  receive_loop n hashed (read_error e ∷ rest) l = give_up l (protocol e)
  receive_loop n hashed (message (chunk c) ∷ rest) l =
      let more =
        receive_loop (suc n) (hashed ++ c.bytes) rest
          (add_progress transfer_id (length c.bytes) (on_disk (append_file temp c.bytes) l)) in
      if c.file_id == file_id
      then elim (faults.write n) [ none ↦ more | some e ↦ give_up l (io_error_code e) ]
      else (l, file_failed file_id (protocol "file_id mismatch"))
  receive_loop n hashed (message (complete c) ∷ rest) l = finish hashed c l
  receive_loop n hashed (message (cancel r) ∷ rest) l = give_up l cancelled
  receive_loop n hashed (message other ∷ rest) l = give_up l (protocol "unexpected message")

-- A directory: no chunk, and the hash of nothing.
unfoldable pub receive_directory :
    (List ℕ → List ℕ) → Faults → ℕ → PathBuf → DashMessage → Local → Local × AckResult
receive_directory hash faults file_id path (complete c) l =
    if c.file_id == file_id
    then if c.file_hash == hash []
      then elim faults.make_directory [
        | some e ↦ (l, file_failed file_id (io_error_code e))
        | none ↦ (on_disk (create_dir_all path) l, file_ok file_id)
      ]
      else (l, file_failed file_id hash_mismatch)
    else (l, file_failed file_id (protocol "file_id mismatch in complete"))
receive_directory hash faults file_id path (cancel r) l = (l, file_failed file_id cancelled)
receive_directory hash faults file_id path other l =
    (l, file_failed file_id (protocol "expected Complete for directory"))

-- The part of a file from its path on; `none` is a panic of the task.
unfoldable pub receive_into :
    (List ℕ → List ℕ)
    → Faults
    → FileConflictStrategy
    → String
    → FileItem
    → PathBuf
    → List Read
    → Local
    → Local × Option AckResult
receive_into hash faults strategy transfer_id item final reads l =
    let temp = temp_path_for final in
    elim faults.make_directory [
      | some e ↦ (l, some (file_failed item.file_id (io_error_code e)))
      | none ↦
          let l1 = on_disk (create_dir_all (push final parent_dir)) l in
          elim (open_temp faults temp item.size l1.disk) [
            | panicked ↦ (on_disk (remove_file temp) l1, none)
            | open_failed d e ↦ (record l1 { disk = d }, some (file_failed item.file_id e))
            | opened d ↦
                let (l2, result) =
                  receive_loop hash faults transfer_id item.file_id strategy temp final 0 [] reads
                    (record l1 { disk = d }) in
                (l2, some result)
          ]
    ]

unfoldable pub receive_regular :
    (List ℕ → List ℕ)
    → Faults
    → FileConflictStrategy
    → String
    → FileItem
    → PathBuf
    → List Read
    → Local
    → Local × Option AckResult
receive_regular hash faults strategy transfer_id item path reads l =
    elim (resolve_conflict_path path strategy l.disk) [
      | err e ↦ (l, some (file_failed item.file_id (protocol e)))
      | ok found ↦ elim found [
        | none ↦ (l, some (file_failed item.file_id path_conflict))
        | some final ↦ receive_into hash faults strategy transfer_id item final reads l
      ]
    ]

unfoldable pub receive_one_file :
    (String → String)
    → (List ℕ → List ℕ)
    → Faults
    → FileConflictStrategy
    → String
    → List Component
    → FileItem
    → DashMessage
    → List Read
    → Local
    → Local × Option AckResult
receive_one_file to_uppercase hash faults strategy transfer_id save_root item first_msg reads l =
    elim (validate_rel_path to_uppercase item.rel_path save_root) [
      | err e ↦ (l, some (file_failed item.file_id invalid_path))
      | ok path ↦ elim item.file_type [
        | directory ↦
            let (l', result) = receive_directory hash faults item.file_id path first_msg l in
            (l', some result)
        | regular_file ↦
            receive_regular hash faults strategy transfer_id item path (message first_msg ∷ reads) l
      ]
    ]
