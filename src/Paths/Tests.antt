-- ===== src/Paths/Tests.antt =====
-- Paths under one save root. The conversion to capitals is that of ASCII.
use dash_drop.Base.{String, true, List, [], ◌∷◌, ◌++◌, ◌≡◌, refl, ◌↔◌, ok, err, All}
use dash_drop.Paths.{
  PathBuf, Component, root_dir, normal, path_traversal, normalize_path, normalize_from, push,
  segments, split_where, components, is_reserved, validate_segment, validate_segments, check_prefix,
  path_starts_with, validate_rel_path, starts_with_separator, ends_with_separator,
  contains_double_separator, is_drive_path,
}
use dash_drop.Paths.Confinement.{
  Acceptable, Inside, named, validate_rel_path_iff, validate_rel_path-Inside,
}

abbrev unchanged : String → String
unchanged s = s

abbrev root : List Component
root = root_dir ∷ normal "home" ∷ normal "t1" ∷ []

abbrev saved : PathBuf
saved = record { absolute = true; names = "home" ∷ "t1" ∷ "a" ∷ "b.txt" ∷ [] }

accepted : validate_rel_path unchanged "a/./b.txt" root ≡ ok saved
unfolding validate_rel_path starts_with_separator is_drive_path ends_with_separator
    contains_double_separator segments split_where validate_segments validate_segment is_reserved
    check_prefix path_starts_with normalize_path normalize_from push components
accepted = refl

escaping : validate_rel_path unchanged "a/../../b" root ≡ err path_traversal
unfolding validate_rel_path starts_with_separator is_drive_path ends_with_separator
    contains_double_separator segments split_where validate_segments validate_segment is_reserved
    check_prefix path_starts_with normalize_path normalize_from push components
escaping = refl

validate_rel_path_iff_example : (validate_rel_path unchanged "a/./b.txt" root ≡ ok saved) ↔ (
    Acceptable unchanged "a/./b.txt"
    × (saved ≡ (
        let r = normalize_path root in
        record r { names = r.names ++ named (segments "a/./b.txt") })))
validate_rel_path_iff_example = validate_rel_path_iff unchanged "a/./b.txt" root saved

validate_rel_path-Inside_example :
    let r = normalize_path root in
    (true ≡ r.absolute) × ((tail : List String) × (saved.names ≡ r.names ++ tail) × All Inside tail)
validate_rel_path-Inside_example =
    validate_rel_path-Inside unchanged "a/./b.txt" root saved accepted
