-- ===== src/Files.antt =====
-- The disk as src-tauri/src/transport/receiver.rs uses it, with its helpers on paths. A path is a
-- normal one of path_validation.rs. A file is its bytes; a directory exists as soon as it, or one
-- below it, was made. What the operating system refuses is an `IoError` of the caller.

pub mod Names
use Prim.Native.Char.{Char, code}
use Prim.Native.String.{◌++◌}
use mathlib.Core.List.{◌++◌ as append}
use dash_drop.Base.{
  ℕ, zero, suc, String, Bool, true, false, Option, none, some, List, [], ◌∷◌, ◌+◌, ◌/◌, ◌%◌, ◌&&◌,
  ◌||◌, ◌≡◌, ◌↔◌, refl, arith, not, ◌==◌, Eq, nat_eq, string_eq, list_eq, list_beq_iff,
  if◌then◌else◌, any, lookup, insert, remove, contains_key, is_empty_str, Result, ok, err,
  Bool-cases, inl, inr,
}
use dash_drop.Types.Protocol.{ErrorCode, disk_full, protocol}
use dash_drop.Paths.{PathBuf, push, normal, parent_dir, pop_name, bool_eq, path_starts_with}

pub path_eq_iff :
    (p q : PathBuf) → ((bool_eq p.absolute q.absolute && p.names == q.names) ≡ true) ↔ (p ≡ q)
path_eq_iff p q = ground (arith, list_beq_iff p.names q.names)

instance abbrev pub path_eq : Eq PathBuf
path_eq = record {
  eqb = λ p q. bool_eq p.absolute q.absolute && p.names == q.names;
  eqb_iff = path_eq_iff;
}

pub record Disk : Type 0 where
  pub files : List (PathBuf × List ℕ)
  pub directories : List PathBuf

-- `fs::metadata(path).await.is_ok()`.
unfoldable pub exists : PathBuf → Disk → Bool
exists p d = contains_key p d.files || any (λ made. path_starts_with made p) d.directories

abbrev pub create_dir_all : PathBuf → Disk → Disk
create_dir_all p d = record d { directories = p ∷ d.directories }

abbrev pub remove_file : PathBuf → Disk → Disk
remove_file p d = record d { files = remove p d.files }

abbrev pub write_file : PathBuf → List ℕ → Disk → Disk
write_file p bytes d = record d { files = insert p bytes d.files }

pub record IoError : Type 0 where
  pub raw_os_error : Option ℕ
  pub is_storage_full : Bool
  pub text : String

abbrev pub is_enospc : Option ℕ → Bool
is_enospc none = false
is_enospc (some n) = n == 28

unfoldable pub io_error_code : IoError → ErrorCode
io_error_code e =
    if is_enospc e.raw_os_error || e.is_storage_full then disk_full else protocol e.text

abbrev pub last_name : List String → Option String
last_name [] = none
last_name (x ∷ []) = some x
last_name (x ∷ y ∷ xs) = last_name (y ∷ xs)

-- `with_file_name`.
unfoldable pub with_file_name : PathBuf → String → PathBuf
unfolding push
with_file_name p name = push (push p parent_dir) (normal name)

unfoldable pub temp_path_for : PathBuf → PathBuf
temp_path_for p = elim (last_name p.names) [
  | none ↦ with_file_name p "file.dashdrop.part"
  | some name ↦ with_file_name p (name ++ ".dashdrop.part")
]

-- The text before and after the last dot.
unfoldable pub split_last_dot : String → Option (String × String)
split_last_dot String.[] = none
split_last_dot (String.◌∷◌ c s) =
    let rest = split_last_dot s in
    elim rest [
      | none ↦ if code c == 46 then some (String.[], s) else none
      | some (before, after) ↦ some (String.◌∷◌ c before, after)
    ]

-- `file_stem` and `extension` of a name; a dot in front belongs to the stem.
unfoldable pub stem_and_extension : String → String × String
stem_and_extension name = elim (split_last_dot name) [
  | none ↦ (name, "")
  | some (before, after) ↦ if is_empty_str before then (name, "") else (before, "." ++ after)
]

unfoldable pub split_file_name : PathBuf → String × String
split_file_name p = elim (last_name p.names) [
  | none ↦ ("file", "")
  | some name ↦ stem_and_extension name
]

abbrev digit : ℕ → String
digit n =
    if n == 0
    then "0"
    else if n == 1
    then "1"
    else if n == 2
    then "2"
    else if n == 3
    then "3"
    else if n == 4
    then "4"
    else if n == 5
    then "5"
    else if n == 6
    then "6"
    else if n == 7
    then "7"
    else if n == 8
    then "8"
    else "9"

-- A number in decimal, from its last digit; `fuel` bounds the number of digits.
unfoldable pub decimal : ℕ → ℕ → String
decimal zero n = ""
decimal (suc fuel) n =
    let front = decimal fuel (n / 10) in if n / 10 == 0 then digit n else front ++ digit (n % 10)

unfoldable pub join_names : List String → String
join_names [] = ""
join_names (x ∷ xs) = let rest = join_names xs in if rest == "" then x else x ++ "/" ++ rest

unfoldable pub display : PathBuf → String
unfolding join_names
display p = if p.absolute then "/" ++ join_names p.names else join_names p.names

pub data FileConflictStrategy : Type 0 where
  rename_file overwrite skip : FileConflictStrategy

unfoldable pub renamed : PathBuf → ℕ → PathBuf
unfolding with_file_name
renamed p idx =
    let (stem, ext) = split_file_name p in
    with_file_name p (stem ++ " (" ++ decimal 5 idx ++ ")" ++ ext)

-- The loop over `1..=9999`, from `idx` on, for `fuel` candidates.
unfoldable pub free_candidate : ℕ → ℕ → PathBuf → Disk → Option PathBuf
free_candidate zero idx p d = none
free_candidate (suc fuel) idx p d =
    let rest = free_candidate fuel (idx + 1) p d in
    if exists (renamed p idx) d then rest else some (renamed p idx)

unfoldable pub resolve_conflict_path :
    PathBuf → FileConflictStrategy → Disk → Result (Option PathBuf) String
unfolding display
resolve_conflict_path p overwrite d = ok (some p)
resolve_conflict_path p skip d = if exists p d then ok none else ok (some p)
resolve_conflict_path p rename_file d =
    if exists p d
    then elim (free_candidate 9999 1 p d) [
      | none ↦ err ("unable to allocate renamed conflict path for " ++ display p)
      | some candidate ↦ ok (some candidate)
    ]
    else ok (some p)
