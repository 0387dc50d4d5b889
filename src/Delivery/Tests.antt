-- ===== src/Delivery/Tests.antt =====
-- A file of three bytes that is read one byte at a time. The hash is the identity.
use dash_drop.Base.{
  ℕ, Done, true, false, some, none, List, [], ◌∷◌, ◌≡◌, refl, ◌≢◌, ◌⊎◌, lookup, arith, contains_key,
}
use dash_drop.Types.Protocol.{FileItem, regular_file, file_ok, file_failed, hash_mismatch}
use dash_drop.Paths.{PathBuf, push, path_starts_with}
use dash_drop.Files.{
  overwrite, rename_file, path_eq, temp_path_for, with_file_name, exists, resolve_conflict_path,
  free_candidate, renamed, split_file_name, stem_and_extension, split_last_dot, decimal,
}
use dash_drop.Files.Names.{resolve_conflict_path_free}
use dash_drop.Local.{Local}
use dash_drop.Sender.{Source, acked, send_one_file, split_at}
use dash_drop.Sender.Chunks.{IsReadable, back}
use dash_drop.Sender.Whole.{Streams, send_one_file-Streams}
use dash_drop.Receiver.{Faults, receive_into}
use dash_drop.Receiver.Stored.{IsWorking}
use dash_drop.Receiver.Finish.{Delivered}
use dash_drop.Delivery.{stream, receive_into-send_one_file, receive_into_resumed}

abbrev same_bytes : List ℕ → List ℕ
same_bytes xs = xs

abbrev bytes : List ℕ
bytes = 7 ∷ 8 ∷ 9 ∷ []

abbrev source : Source
source = record {
  opens_stream = true;
  bytes = some bytes;
  got = λ offset. 0;
  read_fails = λ offset. false;
  write_fails = λ chunk_id. false;
  finishes = true;
  wait = acked true none;
}

abbrev readable : IsReadable source bytes
readable = record {
  opens = refl;
  content = refl;
  reads = λ offset. refl;
  writes = λ chunk_id. refl;
  ends = refl;
}

abbrev faults : Faults
faults = record {
  make_directory = none;
  create = none;
  appends = true;
  write = λ n. none;
  flush = none;
  remove_final = none;
  rename = none;
}

abbrev works : IsWorking faults
works = record {
  makes_directory = refl;
  creates = refl;
  appending = refl;
  writes = λ n. refl;
  flushes = refl;
  removes_final = refl;
  renames = refl;
}

abbrev item : FileItem
item = record {
  file_id = 4;
  name = "a.txt";
  rel_path = "a.txt";
  size = 3;
  file_type = regular_file;
  modified = 0;
  risk_class = none;
  source_snapshot = none;
}

abbrev final : PathBuf
final = record { absolute = true; names = "t1" ∷ "a.txt" ∷ [] }

abbrev part : PathBuf
part = record { absolute = true; names = "t1" ∷ "a.txt.dashdrop.part" ∷ [] }

abbrev waiters : List (ℕ × Done)
waiters = []

abbrev idle : List (PathBuf × List ℕ) → Local
idle files = record {
  disk = record { files = files; directories = [] };
  transfers = [];
  scheduled = [];
  progress = [];
}

abbrev held : Local
held = idle ((part, 7 ∷ []) ∷ [])

receive_into-send_one_file_example :
    (l' : Local) × (receive_into same_bytes faults overwrite "t1" item final
        (stream same_bytes source bytes readable faults works "t1" item waiters overwrite final 0
          (idle []))
        (idle [])
      ≡ (l', some (file_ok 4)))
    × Delivered (temp_path_for final) final bytes (idle []) l'
unfolding lookup
receive_into-send_one_file_example =
    receive_into-send_one_file same_bytes source bytes readable faults works "t1" item waiters
      overwrite final (idle []) (idle []) refl

differ : 8 ∷ 9 ∷ [] ≢ bytes
differ h = ground arith

receive_into_resumed_example :
    (l' : Local) × (receive_into same_bytes faults overwrite "t1" item final
        (stream same_bytes source bytes readable faults works "t1" item waiters overwrite final 1
          (idle []))
        held
      ≡ (l', some (file_failed 4 hash_mismatch)))
    × (lookup (temp_path_for final) l'.disk.files ≡ none)
unfolding lookup split_at temp_path_for with_file_name push
receive_into_resumed_example =
    receive_into_resumed same_bytes source bytes readable faults works "t1" item waiters overwrite
      final 1 (idle []) held (omega arith) (omega arith) refl refl differ

send_one_file-Streams_example :
    Streams same_bytes source bytes readable "t1" 4 waiters 1
      (back 1 bytes)
      (send_one_file same_bytes source "t1" 4 waiters 1 (idle []))
send_one_file-Streams_example =
    send_one_file-Streams same_bytes source bytes readable "t1" 4 waiters 1 (idle []) (omega arith)

abbrev renamed_once : PathBuf
renamed_once = record { absolute = true; names = "t1" ∷ "a (1).txt" ∷ [] }

resolve_conflict_path_free_example :
    (exists renamed_once (record { files = (final, bytes) ∷ []; directories = [] }) ≡ false)
    ⊎ ((rename_file ≡ overwrite) × (renamed_once ≡ final))
unfolding resolve_conflict_path exists contains_key lookup free_candidate renamed split_file_name
    stem_and_extension split_last_dot decimal with_file_name push path_starts_with
resolve_conflict_path_free_example =
    resolve_conflict_path_free final renamed_once rename_file
      (record { files = (final, bytes) ∷ []; directories = [] }) refl
