-- ===== src/Http/Path.antt =====
-- From the path of a request to the file that is served: `normalize_path` and the first half of
-- `server_handle_http_request` (src/http_server.rs). Paths are those of Unix.
pub mod Safe
use smartdns_plus_ui.Base.{
  ℕ, Bool, true, false, not, ◌&&◌, ◌||◌, List, [], ◌∷◌, ◌++◌, Option, none, some, if◌then◌else◌,
  ◌==◌, is_empty, filter_map, any, Text, codes, text_eq, split_from, ends_with_char,
}

-- `std::path::Component`; there are no prefixes on Unix
pub data Component : Type 0 where
  root_dir cur_dir parent_dir : Component
  normal : Text → Component

-- a piece between slashes that is not at the start of a path
abbrev pub component_of : Text → Option Component
component_of piece =
    if is_empty piece || text_eq piece (codes ".")
    then none
    else some (if text_eq piece (codes "..") then parent_dir else normal piece)

-- the first piece of a relative path: only here a `.` is a component
abbrev pub first_component : Text → List Component
first_component piece =
    if text_eq piece (codes ".")
    then cur_dir ∷ []
    else elim (component_of piece) [ none ↦ [] | some c ↦ c ∷ [] ]

abbrev pub relative_components : List Text → List Component
relative_components [] = []
relative_components (piece ∷ pieces) = first_component piece ++ filter_map component_of pieces

-- `Path::components`
unfoldable pub components : Text → List Component
unfolding text_eq split_from
components [] = []
components (c ∷ s) =
    if c == b'/'
    then root_dir ∷ filter_map component_of (split_from [] b'/' s)
    else relative_components (split_from [] b'/' (c ∷ s))

-- a `PathBuf`, by the names in it
pub record PathBuf : Type 0 where
  pub is_absolute : Bool
  pub names : List Text

-- `PathBuf::pop`: the root has no parent
unfoldable pub drop_last : List Text → List Text
drop_last [] = []
drop_last (x ∷ xs) = if is_empty xs then [] else x ∷ drop_last xs

-- one turn of the loop of `normalize_path`; what is absolute replaces the path it is pushed to
unfoldable pub normalize_step : PathBuf → Component → PathBuf
unfolding drop_last
normalize_step ret root_dir = record { is_absolute = true; names = [] }
normalize_step ret cur_dir = ret
normalize_step ret parent_dir = record ret { names = drop_last ret.names }
normalize_step ret (normal c) = record ret { names = ret.names ++ c ∷ [] }

unfoldable pub normalize_loop : PathBuf → List Component → PathBuf
unfolding normalize_step
normalize_loop ret [] = ret
normalize_loop ret (c ∷ cs) = normalize_loop (normalize_step ret c) cs

unfoldable pub normalize_path : Text → PathBuf
unfolding normalize_loop components
normalize_path path = normalize_loop (record { is_absolute = false; names = [] }) (components path)

-- `file_name` of a path, and `extension`: what stands behind the last dot, where the name does not
-- start with that dot
unfoldable pub last_name : List Text → Option Text
last_name [] = none
last_name (x ∷ xs) = if is_empty xs then some x else last_name xs

unfoldable pub has_dot_behind : Text → Bool
has_dot_behind [] = false
has_dot_behind (c ∷ s) = any (λ d. d == b'.') s

abbrev pub has_extension : List Text → Bool
has_extension names = elim (last_name names) [ none ↦ false | some name ↦ has_dot_behind name ]

-- `with_extension("html")` of a path without an extension
unfoldable pub with_html : List Text → List Text
with_html [] = []
with_html (x ∷ xs) = if is_empty xs then (x ++ codes ".html") ∷ [] else x ∷ with_html xs

-- `file_path.exists()` and `is_dir()`, by the names of an absolute path
pub record Files : Type 0 where
  pub exists : List Text → Bool
  pub is_dir : List Text → Bool

-- the file that is read, and whether the answer is 404
pub record Served : Type 0 where
  pub filepath : List Text
  pub is_404 : Bool

abbrev pub index_html : List Text
index_html = codes "index.html" ∷ []

abbrev pub not_found_html : List Text
not_found_html = codes "404.html" ∷ []

-- the page without its extension, where there is one
unfoldable pub html_page : Files → Bool → List Text → List Text
unfolding with_html last_name has_dot_behind
html_page files ends_slash filepath =
    if not (has_extension filepath) && not ends_slash && files.exists (with_html filepath)
    then with_html filepath
    else filepath

unfoldable pub index_page : Files → List Text → List Text
index_page files filepath = if files.is_dir filepath then filepath ++ index_html else filepath

unfoldable pub not_found_page : Files → List Text → List Text → Served
not_found_page files www_root filepath =
    if files.exists filepath
    then record { filepath = filepath; is_404 = false }
    else if files.exists (www_root ++ not_found_html)
    then record { filepath = www_root ++ not_found_html; is_404 = true }
    else record { filepath = www_root ++ index_html; is_404 = false }

-- `uri_path` as it came, and the root of the pages, an absolute path
unfoldable pub served_file : Files → List Text → Text → Served
unfolding normalize_path html_page index_page not_found_page ends_with_char
served_file files www_root uri_path =
    let filepath = www_root ++ (normalize_path uri_path).names in
    if not (files.exists filepath) || files.is_dir filepath
    then not_found_page files www_root
        (index_page files (html_page files (ends_with_char uri_path b'/') filepath))
    else record { filepath = filepath; is_404 = false }

-- `path.starts_with("api/")` behind the root
unfoldable pub is_api_request : Text → Bool
unfolding normalize_path text_eq
is_api_request uri_path = elim (normalize_path uri_path).names [
  | [] ↦ false
  | first ∷ rest ↦ text_eq first (codes "api")
]
