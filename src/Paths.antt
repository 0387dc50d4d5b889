-- ===== src/Paths.antt =====
-- src-tauri/src/transport/path_validation.rs: the check of a path that a peer sends. Paths are
-- those of Unix: a path is what `Path::components` yields of it, and a normal path is whether it
-- starts at the root, with its names. The table of Unicode behind `to_uppercase` is a parameter.

pub mod Confinement
mod Tests
use Prim.Native.Char.{Char, code}
use dash_drop.Base.{
  ℕ, String, Bool, true, false, Option, none, some, List, [], ◌∷◌, ◌++◌, ◌&&◌, ◌||◌, not, ◌==◌,
  nat_eq, string_eq, if◌then◌else◌, any, ltb, is_empty_str, Result, ok, err, Done, ◌>>=◌, unwrap_or,
  first,
}

pub data PathError : Type 0 where
  absolute_path path_traversal empty_segment windows_reserved : PathError

pub data Component : Type 0 where
  root_dir cur_dir parent_dir : Component
  normal : String → Component

pub record PathBuf : Type 0 where
  pub absolute : Bool
  pub names : List String

abbrev pub reserved_names : List String
reserved_names =
    "CON" ∷ "PRN" ∷ "AUX" ∷ "NUL" ∷ "COM1" ∷ "COM2" ∷ "COM3" ∷ "COM4" ∷ "COM5" ∷ "COM6" ∷ "COM7"
    ∷ "COM8" ∷ "COM9" ∷ "LPT1" ∷ "LPT2" ∷ "LPT3" ∷ "LPT4" ∷ "LPT5" ∷ "LPT6" ∷ "LPT7" ∷ "LPT8"
    ∷ "LPT9" ∷ []

abbrev pub slash : ℕ
slash = 47

abbrev pub backslash : ℕ
backslash = 92

abbrev pub is_separator : ℕ → Bool
is_separator c = c == slash || c == backslash

-- `starts_with('/') || starts_with('\\')`, and the same at the end.
unfoldable pub starts_with_separator : String → Bool
starts_with_separator String.[] = false
starts_with_separator (String.◌∷◌ c s) = is_separator (code c)

unfoldable pub ends_with_separator : String → Bool
ends_with_separator String.[] = false
ends_with_separator (String.◌∷◌ c s) =
    let rest = ends_with_separator s in if is_empty_str s then is_separator (code c) else rest

-- One of `//`, `\\`, `/\`, `\/` stands in the text.
unfoldable pub contains_double_separator : String → Bool
contains_double_separator String.[] = false
contains_double_separator (String.◌∷◌ c s) =
    let rest = contains_double_separator s in
    if is_separator (code c) && starts_with_separator s then true else rest

-- The second byte is a colon and the third a separator: then the first character has one byte.
abbrev pub after_colon : String → Bool
after_colon String.[] = false
after_colon (String.◌∷◌ c s) = code c == 58 && starts_with_separator s

unfoldable pub is_drive_path : String → Bool
is_drive_path String.[] = false
is_drive_path (String.◌∷◌ c s) = ltb (code c) 128 && after_colon s

-- `replace('\\', "/")` and `split`, in one: the segments between separators.
abbrev pub push_front : Char → List String → List String
push_front c [] = String.◌∷◌ c String.[] ∷ []
push_front c (x ∷ xs) = String.◌∷◌ c x ∷ xs

unfoldable pub split_where : (ℕ → Bool) → String → List String
split_where p String.[] = String.[] ∷ []
split_where p (String.◌∷◌ c s) =
    let rest = split_where p s in if p (code c) then String.[] ∷ rest else push_front c rest

unfoldable pub segments : String → List String
segments rel_path = split_where is_separator rel_path

-- `Path::components` of a relative path, from its segments.
unfoldable pub components : List String → List Component
components [] = []
components (x ∷ xs) =
    let rest = components xs in
    if is_empty_str x || x == "."
    then rest
    else if x == ".."
    then parent_dir ∷ rest
    else normal x ∷ rest

abbrev pub pop_name : List String → List String
pop_name [] = []
pop_name (x ∷ []) = []
pop_name (x ∷ y ∷ xs) = x ∷ pop_name (y ∷ xs)

unfoldable pub push : PathBuf → Component → PathBuf
push p root_dir = record { absolute = true; names = [] }
push p cur_dir = p
push p parent_dir = record p { names = pop_name p.names }
push p (normal c) = record p { names = p.names ++ (c ∷ []) }

unfoldable pub normalize_from : PathBuf → List Component → PathBuf
normalize_from p [] = p
normalize_from p (c ∷ cs) = normalize_from (push p c) cs

unfoldable pub normalize_path : List Component → PathBuf
normalize_path cs = normalize_from (record { absolute = false; names = [] }) cs

abbrev pub is_prefix : List String → List String → Bool
is_prefix [] ys = true
is_prefix (x ∷ xs) [] = false
is_prefix (x ∷ xs) (y ∷ ys) = x == y && is_prefix xs ys

abbrev pub bool_eq : Bool → Bool → Bool
bool_eq true b = b
bool_eq false b = not b

-- `Path::starts_with`: a relative path that is empty is a prefix of each.
unfoldable pub path_starts_with : PathBuf → PathBuf → Bool
path_starts_with p base =
    (bool_eq p.absolute base.absolute || (not base.absolute && is_prefix base.names []))
    && is_prefix base.names p.names

unfoldable pub check_prefix : PathBuf → PathBuf → Result PathBuf PathError
check_prefix candidate root =
    if path_starts_with candidate root then ok candidate else err path_traversal

module _ (to_uppercase : String → String) where
  unfoldable pub is_reserved : String → Bool
  unfolding split_where
  is_reserved segment =
      let upper = to_uppercase segment in
      let base = unwrap_or (first (split_where (λ c. c == 46) upper)) upper in
      any (λ name. name == base) reserved_names

  unfoldable pub validate_segment : String → Result Done PathError
  validate_segment segment =
      if segment == ".."
      then err path_traversal
      else if is_empty_str segment
      then err empty_segment
      else if is_reserved segment
      then err windows_reserved
      else ok tt

  unfoldable pub validate_segments : List String → Result Done PathError
  validate_segments [] = ok tt
  validate_segments (x ∷ xs) = validate_segment x >>= (λ u. validate_segments xs)

  unfoldable pub validate_rel_path : String → List Component → Result PathBuf PathError
  validate_rel_path rel_path save_root =
      if starts_with_separator rel_path || is_drive_path rel_path
      then err absolute_path
      else if starts_with_separator rel_path
          || ends_with_separator rel_path
          || contains_double_separator rel_path
      then err empty_segment
      else validate_segments (segments rel_path) >>= (λ u.
        check_prefix (normalize_path (save_root ++ components (segments rel_path)))
          (normalize_path save_root))
