-- ===== src/Http/Path/Safe.antt =====
-- No request reaches a file outside the pages (src/http_server.rs).
use smartdns_plus_ui.Base.{
  ℕ, Bool, true, false, not, ◌&&◌, ◌||◌, List, [], ◌∷◌, ◌++◌, ◌≡◌, refl, arith, ◌==◌, is_empty,
  filter_map, all, &&-eq-true, Bool-cases, inl, inr, ap, ◌∙◌, append_assoc, ends_with_char, Text,
  codes, text_eq, split_from,
}
use smartdns_plus_ui.Http.Path.{
  Component, root_dir, cur_dir, parent_dir, normal, component_of, relative_components, components,
  PathBuf, drop_last, normalize_step, normalize_loop, normalize_path, Files, html_page, index_page,
  not_found_page, served_file, with_html, has_extension,
}

-- no slash, and none of the names with a meaning
abbrev pub is_plain : Text → Bool
is_plain = all (λ c. not (c == b'/'))

abbrev pub is_file_name : Text → Bool
is_file_name name =
    is_plain name
    && not (is_empty name)
    && not (text_eq name (codes "."))
    && not (text_eq name (codes ".."))

abbrev is_safe : Component → Bool
is_safe (normal name) = is_file_name name
is_safe _ = true

is_plain_snoc :
    (acc : Text) (c : ℕ)
    → is_plain acc ≡ true
    → (c == b'/') ≡ false
    → is_plain (acc ++ c ∷ []) ≡ true
is_plain_snoc [] c h e = ground arith
is_plain_snoc (d ∷ acc) c h e = ground (arith, is_plain_snoc acc c)

split_from_plain :
    (acc s : Text) → is_plain acc ≡ true → all is_plain (split_from acc b'/' s) ≡ true
unfolding split_from
split_from_plain acc [] h = ground arith
split_from_plain acc (c ∷ s) h =
    ground (arith, split_from_plain [] s, split_from_plain (acc ++ c ∷ []) s, is_plain_snoc acc c)

component_of_safe :
    (pieces : List Text)
    → all is_plain pieces ≡ true
    → all is_safe (filter_map component_of pieces) ≡ true
component_of_safe [] h = refl
component_of_safe (p ∷ pieces) h = ground (arith, component_of_safe pieces)

relative_components_safe :
    (pieces : List Text)
    → all is_plain pieces ≡ true
    → all is_safe (relative_components pieces) ≡ true
relative_components_safe [] h = refl
relative_components_safe (p ∷ pieces) h = ground (arith, component_of_safe pieces)

components_safe : (path : Text) → all is_safe (components path) ≡ true
unfolding components
components_safe [] = refl
components_safe (c ∷ s) = ground (
  arith,
  component_of_safe (split_from [] b'/' s) (split_from_plain [] s refl),
  relative_components_safe (split_from [] b'/' (c ∷ s)) (split_from_plain [] (c ∷ s) refl),
)

all-drop_last :
    (p : Text → Bool) (names : List Text) → all p names ≡ true → all p (drop_last names) ≡ true
unfolding drop_last
all-drop_last p [] h = refl
all-drop_last p (x ∷ names) h = ground (arith, all-drop_last p names)

all_snoc :
    (p : Text → Bool) (names : List Text) (name : Text)
    → all p names ≡ true
    → p name ≡ true
    → all p (names ++ name ∷ []) ≡ true
all_snoc p [] name h k = ground arith
all_snoc p (x ∷ names) name h k = ground (arith, all_snoc p names name)

normalize_step_safe :
    (ret : PathBuf) (c : Component)
    → all is_file_name ret.names ≡ true
    → is_safe c ≡ true
    → all is_file_name (normalize_step ret c).names ≡ true
unfolding normalize_step
normalize_step_safe ret root_dir h k = refl
normalize_step_safe ret cur_dir h k = h
normalize_step_safe ret parent_dir h k = all-drop_last is_file_name ret.names h
normalize_step_safe ret (normal c) h k = all_snoc is_file_name ret.names c h k

normalize_loop_safe :
    (ret : PathBuf) (cs : List Component)
    → all is_file_name ret.names ≡ true
    → all is_safe cs ≡ true
    → all is_file_name (normalize_loop ret cs).names ≡ true
unfolding normalize_loop
normalize_loop_safe ret [] h k = h
normalize_loop_safe ret (c ∷ cs) h k =
    let (one, rest) = &&-eq-true (is_safe c) (all is_safe cs) k in
    normalize_loop_safe (normalize_step ret c) cs (normalize_step_safe ret c h one) rest

-- Every name in a normalised path is a name of a file: it is not empty, not `.` and not `..`, and
-- holds no slash, whatever the path of the request is.
pub normalize_path_safe : (path : Text) → all is_file_name (normalize_path path).names ≡ true
unfolding normalize_path
normalize_path_safe path =
    normalize_loop_safe (record { is_absolute = false; names = [] }) (components path) refl
      (components_safe path)

with_html-append :
    (root : List Text) (x : Text) (xs : List Text)
    → with_html (root ++ x ∷ xs) ≡ root ++ with_html (x ∷ xs)
unfolding with_html
with_html-append [] x xs = refl
with_html-append (r ∷ []) x xs = refl
with_html-append (r ∷ s ∷ root) x xs = ap (λ l. r ∷ l) (with_html-append (s ∷ root) x xs)

is_plain-append : (a b : Text) → is_plain a ≡ true → is_plain b ≡ true → is_plain (a ++ b) ≡ true
is_plain-append [] b h k = k
is_plain-append (c ∷ a) b h k = ground (arith, is_plain-append a b)

is_file_name_html :
    (name : Text) → is_file_name name ≡ true → is_file_name (name ++ codes ".html") ≡ true
unfolding text_eq
is_file_name_html [] h = cc
is_file_name_html (c ∷ []) h = ground arith
is_file_name_html (c ∷ d ∷ []) h = ground arith
is_file_name_html (c ∷ d ∷ e ∷ name) h =
    ground (arith, is_plain-append (c ∷ d ∷ e ∷ name) (codes ".html"))

with_html_safe :
    (names : List Text) → all is_file_name names ≡ true → all is_file_name (with_html names) ≡ true
unfolding with_html
with_html_safe [] h = refl
with_html_safe (x ∷ []) h = ground (arith, is_file_name_html x)
with_html_safe (x ∷ y ∷ names) h = ground (arith, with_html_safe (y ∷ names))

-- a path below the pages
abbrev pub IsInside : List Text → List Text → Type 0
IsInside root filepath =
    (rest : List Text) × (filepath ≡ root ++ rest) × (all is_file_name rest ≡ true)

html_page-IsInside :
    (files : Files) (ends_slash : Bool) (root names : List Text)
    → all is_file_name names ≡ true
    → not (is_empty names) || ends_slash ≡ true
    → IsInside root (html_page files ends_slash (root ++ names))
unfolding html_page
html_page-IsInside files true root names h k = (names, ground arith, h)
html_page-IsInside files false root [] h k = cc
html_page-IsInside files false root (x ∷ xs) h k =
    elim (Bool-cases (
      not (has_extension (root ++ x ∷ xs))
      && not false
      && files.exists (with_html (root ++ x ∷ xs)))) [
        | inl page ↦
            (with_html (x ∷ xs), rw page (with_html-append root x xs), with_html_safe (x ∷ xs) h)
        | inr plain ↦ (x ∷ xs, rw plain refl, h)
      ]

index_page-IsInside :
    (files : Files) (root filepath : List Text)
    → IsInside root filepath
    → IsInside root (index_page files filepath)
unfolding index_page
index_page-IsInside files root filepath (rest, e, h) = elim (Bool-cases (files.is_dir filepath)) [
  | inl dir ↦ (
    rest ++ codes "index.html" ∷ [],
    rw dir (
        ap (λ l. l ++ codes "index.html" ∷ []) e
        ∙ append_assoc root rest (codes "index.html" ∷ [])),
    all_snoc is_file_name rest (codes "index.html") h (unfold text_eq in refl),
  )
  | inr file ↦ (rest, rw file e, h)
]

not_found_page-IsInside :
    (files : Files) (root filepath : List Text)
    → IsInside root filepath
    → IsInside root (not_found_page files root filepath).filepath
unfolding not_found_page text_eq
not_found_page-IsInside files root filepath (rest, e, h) =
    elim (Bool-cases (files.exists filepath)) [
      | inl there ↦ (rest, rw there e, h)
      | inr missing ↦ elim (Bool-cases (files.exists (root ++ codes "404.html" ∷ []))) [
        | inl page ↦ (codes "404.html" ∷ [], rw (missing, page) refl, refl)
        | inr none_there ↦ (codes "index.html" ∷ [], rw (missing, none_there) refl, refl)
      ]
    ]

-- The file that is served lies below the pages: its path is that of the pages followed by names
-- of files, none of them `..`, for every request that names something below the root or ends in
-- a slash.
pub served_file-IsInside :
    (files : Files) (root : List Text) (uri_path : Text)
    → not (is_empty (normalize_path uri_path).names) || ends_with_char uri_path b'/' ≡ true
    → IsInside root (served_file files root uri_path).filepath
unfolding served_file
served_file-IsInside files root uri_path k =
    let names = (normalize_path uri_path).names in
    let safe = normalize_path_safe uri_path in
    elim (Bool-cases (not (files.exists (root ++ names)) || files.is_dir (root ++ names))) [
      | inl other ↦ rw other (
          not_found_page-IsInside files root _ (
            index_page-IsInside files root _
              (html_page-IsInside files (ends_with_char uri_path b'/') root names safe k)))
      | inr found ↦ rw found (names, refl, safe)
    ]
