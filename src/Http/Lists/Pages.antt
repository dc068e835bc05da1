-- ===== src/Http/Lists/Pages.antt =====
-- Reading a list page by page (src/http_server_api.rs, src/db.rs).
use smartdns_plus_ui.Base.Word.{u64_mod, to_string}
use smartdns_plus_ui.Base.Word.Decimal.{parse_unsigned-to_string}
use smartdns_plus_ui.Base.{
  ℕ, zero, suc, ◌+◌, ◌-◌, ◌*◌, ◌%◌, ◌≤◌, ◌<◌, ◌≡◌, refl, ap, sym, ◌∙◌, arith, false, List, [], ◌∷◌,
  ◌++◌, Option, none, some, if◌then◌else◌, Option-cases, inl, inr, length, take, drop, drop-eq-nil,
  drop-drop, take-append-drop, drop-eq-nil, drop-drop, take-append-drop, Text, codes, text_eq,
}
use native.Mathlib.Nat.{zero-add}
use smartdns_plus_ui.Db.Tables.{DomainData}
use smartdns_plus_ui.Db.Param.{DomainListGetParam}
use smartdns_plus_ui.Db.Where.{ok, domain_columns, domain_bounds, get_domain_sql_where}
use smartdns_plus_ui.Db.Listing.{limit_clause, domain_columns_text, get_domain_list, listed}
use smartdns_plus_ui.Http.Lists.{
  Params, find_param, params_get_value, params_get_value_default, read_page, domain_param_of,
  domain_list_param, ListAnswer, page, total_pages, api_domain_get_list,
}

-- the rows of `left` pages of a size, from a place
abbrev pub pages_from {ℓ} : {A : Type ℓ} → List A → ℕ → ℕ → ℕ → List A
pages_from all size first zero = []
pages_from all size first (suc left) =
    take size (drop (first * size) all) ++ pages_from all size (first + 1) left

pages_from_lem {ℓ} :
    {A : Type ℓ} (all : List A) (size first left : ℕ)
    → length all ≤ (first + left) * size
    → pages_from all size first left ≡ drop (first * size) all
pages_from_lem all size first zero h = sym (drop-eq-nil (first * size) all (grind arith))
pages_from_lem all size first (suc left) h =
    let next : (first + 1) * size ≡ first * size + size = grind arith in
    let rest = pages_from_lem all size (first + 1) left (grind arith) in
    rw (rest, next, ← drop-drop size (first * size) all)
      (take-append-drop size (drop (first * size) all))

total_pages_enough :
    (count size : ℕ)
    → 0 < size
    → (count ≤ total_pages count size * size) × (total_pages count size * size < count + size)
unfolding total_pages
total_pages_enough count size h = grind arith

find_param_last :
    (key k v : Text) (params : Params)
    → find_param key (params ++ (k, v) ∷ [])
      ≡ (if text_eq k key then some v else find_param key params)
unfolding find_param
find_param_last key k v [] = ground arith
find_param_last key k v ((j, w) ∷ params) = ground (arith, find_param_last key k v params)

-- the parameters of a request for another page
abbrev pub with_page : ℕ → Params → Params
with_page k params = params ++ (codes "page_num", to_string k) ∷ []

params_get_value_last {ℓ} :
    {A : Type ℓ} (read : Text → Option A) (key k v : Text) (params : Params)
    → params_get_value read (params ++ (k, v) ∷ []) key
      ≡ (if text_eq k key then read v else params_get_value read params key)
unfolding params_get_value
params_get_value_last read key k v params = ground (arith, find_param_last key k v params)

domain_param_of-with_page :
    (k n size : ℕ) (params : Params)
    → domain_param_of (with_page k params) (k, size)
      ≡ record (domain_param_of params (n, size)) { page_num = k }
unfolding domain_param_of text_eq
domain_param_of-with_page k n size params = simp (params_get_value_last, find_param_last)

read_page-with_page :
    (k n size : ℕ) (params : Params)
    → read_page params ≡ some (n, size)
    → 0 < k
    → k < u64_mod
    → read_page (with_page k params) ≡ some (k, size)
unfolding read_page params_get_value_default text_eq
read_page-with_page k n size params e pos fits = ground (
  arith,
  find_param_last (codes "page_num") (codes "page_num") (to_string k) params,
  find_param_last (codes "page_size") (codes "page_num") (to_string k) params,
  parse_unsigned-to_string u64_mod k fits,
)

domain_list_param-with_page :
    (k : ℕ) (params : Params) (p : DomainListGetParam)
    → domain_list_param params ≡ some p
    → 0 < k
    → k < u64_mod
    → domain_list_param (with_page k params) ≡ some (record p { page_num = k })
unfolding domain_list_param
domain_list_param-with_page k params p e pos fits = elim (Option-cases (read_page params)) [
  | inl refused_page ↦ absurd (ground arith)
  | inr ((n, size), r) ↦
      let same : domain_param_of params (n, size) ≡ p = ground arith in
      ground (
        arith,
        read_page-with_page k n size params r pos fits,
        domain_param_of-with_page k n size params,
      )
]

get_domain_sql_where-page_num :
    (p : DomainListGetParam) (k : ℕ)
    → get_domain_sql_where (some (record p { page_num = k })) ≡ get_domain_sql_where (some p)
unfolding get_domain_sql_where domain_columns domain_bounds
get_domain_sql_where-page_num p k = refl

offset_of_page :
    (k size : ℕ)
    → k * size < u64_mod
    → 0 < size
    → (k + 1 + u64_mod - 1) % u64_mod * size % u64_mod ≡ k * size
offset_of_page k size h pos =
    let small : k < u64_mod = grind arith in
    let back : (k + 1 + u64_mod - 1) % u64_mod ≡ k = omega arith in rw back (omega arith)

abbrev pub append_page {ℓ} : {A : Type ℓ} → ListAnswer A → Option (List A) → Option (List A)
append_page (page list pages count) (some more) = some (list ++ more)
append_page answer more = none

-- 2^63 - 1: SQLite reads a limit and an offset that are bound as texts as integers of 64 bits, and
-- refuses those from here on.
abbrev pub sqlite_limit : ℕ
sqlite_limit = 9223372036854775807

module _ (rows : Text → List Text → Option (List DomainData))
    (counts : Text → List Text → Option ℕ) where
  -- the requests for some pages, one after the other
  unfoldable pub read_pages : Params → ℕ → ℕ → Option (List DomainData)
  unfolding api_domain_get_list
  read_pages params first zero = some []
  read_pages params first (suc left) =
      append_page (api_domain_get_list rows counts (with_page (first + 1) params))
        (read_pages params (first + 1) left)

  -- the database has these rows for the parameters, and answers a limit and an offset by a part of
  -- them, and a count by their number
  pub record HasRows (p : DomainListGetParam) (all : List DomainData) : Type 0 where
    pub sql_where : Text
    pub sql_order : Text
    pub sql_param : List Text
    pub built : get_domain_sql_where (some p) ≡ ok (sql_where, sql_order, sql_param)
    pub limits :
        (size offset : ℕ)
        → size < sqlite_limit
        → offset < sqlite_limit
        → rows
            (domain_columns_text ++ (sql_where ++ (sql_order ++ codes " LIMIT ? OFFSET ?")))
            (sql_param ++ to_string size ∷ to_string offset ∷ [])
          ≡ some (take size (drop offset all))
    pub counted :
        counts (codes "SELECT COUNT(*) FROM domain" ++ (sql_where ++ sql_order)) sql_param
        ≡ some (length all)

  module _ (params : Params) (p : DomainListGetParam) (all : List DomainData)
      (read : domain_list_param params ≡ some p) (no_cursor : p.cursor ≡ none)
      (pos : 0 < p.page_size) (has : HasRows p all) where
    get_domain_list-page :
        (k : ℕ)
        → p.page_size < sqlite_limit
        → k * p.page_size < sqlite_limit
        → get_domain_list rows counts (record p { page_num = k + 1 })
          ≡ listed (record {
            list = take p.page_size (drop (k * p.page_size) all);
            total_count = length all;
            step_by_cursor = false;
          })
    unfolding get_domain_list limit_clause
    get_domain_list-page k small fits =
        let same = get_domain_sql_where-page_num p (k + 1) ∙ has.built in
        let offset = offset_of_page k p.page_size (omega arith) pos in
        rw (same, get_domain_list, no_cursor)
          (ground (arith, offset, has.limits p.page_size (k * p.page_size) small fits, has.counted))

    page_answer :
        (k : ℕ)
        → p.page_size < sqlite_limit
        → k * p.page_size < sqlite_limit
        → k + 1 < u64_mod
        → api_domain_get_list rows counts (with_page (k + 1) params)
          ≡ page
              (take p.page_size (drop (k * p.page_size) all))
              (total_pages (length all) p.page_size)
              (length all)
    unfolding api_domain_get_list
    page_answer k small fits fits' =
        let asked = domain_list_param-with_page (k + 1) params p read (omega arith) fits' in
        rw (asked, api_domain_get_list) (rw (get_domain_list-page k small fits) refl)

    read_pages_lem :
        (first left : ℕ)
        → p.page_size < sqlite_limit
        → (first + left) * p.page_size < sqlite_limit
        → read_pages params first left ≡ some (pages_from all p.page_size first left)
    unfolding read_pages
    read_pages_lem first zero small fits = refl
    read_pages_lem first (suc left) small fits =
        let one : (first + 1) * p.page_size < sqlite_limit = grind arith in
        let all_of : (first + 1 + left) * p.page_size < sqlite_limit = grind arith in
        rw
          (
            page_answer first small (grind arith) (grind arith),
            read_pages_lem (first + 1) left small all_of,
          )
          refl

    -- A client that asks for the first page of a domain list and then for as many pages as it is
    -- told that there are has all the rows that the database has for the parameters, each once and
    -- in order, where their number and the size of a page are together less than 2^63 - 1, from
    -- where on SQLite refuses a limit or an offset.
    pub api_pages :
        length all + p.page_size < sqlite_limit
        → (api_domain_get_list rows counts (with_page 1 params)
            ≡ page (take p.page_size all) (total_pages (length all) p.page_size) (length all))
          × (read_pages params 0 (total_pages (length all) p.page_size) ≡ some all)
    api_pages fits =
        let (enough, few) = total_pages_enough (length all) p.page_size pos in
        let total = total_pages (length all) p.page_size in
        let start : 0 * p.page_size ≡ 0 = omega arith in
        let whole : drop (0 * p.page_size) all ≡ all = ap (λ (j : ℕ). drop j all) start in
        let bounds : (0 + total) * p.page_size < sqlite_limit = rw zero-add (omega arith) in
        let covers : length all ≤ (0 + total) * p.page_size = rw zero-add enough in
        (
          page_answer 0 (omega arith) (omega arith) (omega arith)
              ∙ ap (λ (rest : List DomainData). page (take p.page_size rest) total (length all))
                  whole,
          read_pages_lem 0 total (omega arith) bounds
              ∙ ap (λ (l : List DomainData). some l)
                  (pages_from_lem all p.page_size 0 total covers ∙ whole),
        )
