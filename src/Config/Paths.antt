-- ===== src/Config/Paths.antt =====
-- `std::path::Path` on Unix, as far as src/config_ui.rs calls it: `parent`, `join`, `is_absolute`.
use smartdns_plus_ui.Base.{
  Bool, false, ◌&&◌, ◌||◌, List, [], ◌∷◌, ◌++◌, Option, none, some, if◌then◌else◌, ◌==◌, is_empty,
  unwrap_or, Text, codes, text_eq, split_from, ends_with_char, join,
}
use smartdns_plus_ui.Http.Path.{drop_last, last_name}

-- pieces between slashes that are no components, at the end of a path
unfoldable pub strip_end : List Text → List Text
unfolding text_eq
strip_end [] = []
strip_end (piece ∷ pieces) =
    let rest = strip_end pieces in
    if is_empty rest && (is_empty piece || text_eq piece (codes ".")) then [] else piece ∷ rest

abbrev slash : Text
slash = b'/' ∷ []

-- the parent of a relative path, whose first piece is always a component
unfoldable pub relative_parent : List Text → Option Text
unfolding strip_end drop_last join
relative_parent [] = none
relative_parent (piece ∷ pieces) =
    let rest = strip_end pieces in
    if is_empty rest then some [] else some (join slash (piece ∷ strip_end (drop_last rest)))

unfoldable pub parent : Text → Option Text
unfolding relative_parent split_from
parent [] = none
parent (c ∷ s) =
    let pieces = strip_end (split_from [] b'/' s) in
    if c == b'/'
    then (if is_empty pieces then none else some (b'/' ∷ join slash (strip_end (drop_last pieces))))
    else relative_parent (split_from [] b'/' (c ∷ s))

abbrev pub is_absolute : Text → Bool
is_absolute [] = false
is_absolute (c ∷ s) = c == b'/'

unfoldable pub path_join : Text → Text → Text
unfolding ends_with_char
path_join dir file_name =
    if is_absolute file_name || is_empty dir
    then file_name
    else if ends_with_char dir b'/'
    then dir ++ file_name
    else dir ++ (b'/' ∷ file_name)

unfoldable pub managed_conf_dir : Text → Text
unfolding parent path_join
managed_conf_dir rules_dir = path_join (unwrap_or (parent rules_dir) rules_dir) (codes "conf.d")

unfoldable pub resolve_include_path : Text → Text → Text
unfolding parent path_join
resolve_include_path base_file include_value =
    if is_absolute include_value
    then include_value
    else path_join (unwrap_or (parent base_file) (codes ".")) include_value

-- `Path::file_name`: the last component, where it is a name
unfoldable pub file_name : Text → Option Text
unfolding strip_end last_name split_from text_eq
file_name path = elim (last_name (strip_end (split_from [] b'/' path))) [
  | none ↦ none
  | some name ↦ if text_eq name (codes "..") then none else some name
]

unfoldable pub backup_path : Text → Text
unfolding parent file_name path_join
backup_path path =
    path_join (unwrap_or (parent path) (codes "."))
      (unwrap_or (file_name path) (codes "smartdns.conf") ++ codes ".backup")
