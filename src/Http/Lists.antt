-- ===== src/Http/Lists.antt =====
-- The lists of the API: the parameters of a request and the page that is answered, as in
-- `params_get_value`, `api_domain_get_list` and `api_client_get_list` (src/http_server_api.rs).
pub mod Pages
pub mod Deletion
use smartdns_plus_ui.Base.Word.{u16_mod, u32_mod, u64_mod, parse_unsigned}
use smartdns_plus_ui.Base.{
  ℕ, ◌+◌, ◌/◌, ◌%◌, Bool, true, false, not, ◌||◌, List, [], ◌∷◌, Option, none, some, if◌then◌else◌,
  ◌==◌, is_empty, is_some, unwrap_or, Text, codes, text_eq,
}
use smartdns_plus_ui.Db.Param.{
  DomainListGetParam, ClientListGetParam, new_domain_param, new_client_param,
}
use smartdns_plus_ui.Db.Tables.{
  DomainData, ClientData, Tables, delete_domain_by_id, delete_domain_before_timestamp,
  delete_client_by_id,
}
use smartdns_plus_ui.Db.Listing.{
  QueryListResult, Listed, listed, refused, query_failed, get_domain_list, get_client_list,
}

-- `get_params`: the pairs of the query of a request, decoded
abbrev pub Params : Type 0
Params = List (Text × Text)

-- `params.get`: of the pairs with a key, the last one is kept in the map
unfoldable pub find_param : Text → Params → Option Text
unfolding text_eq
find_param key [] = none
find_param key ((k, v) ∷ params) = elim (find_param key params) [
  | none ↦ if text_eq k key then some v else none
  | some w ↦ some w
]

-- `params_get_value`, with the reader of the type
unfoldable pub params_get_value {ℓ} : {A : Type ℓ} → (Text → Option A) → Params → Text → Option A
unfolding find_param
params_get_value read params key = elim (find_param key params) [ none ↦ none | some v ↦ read v ]

-- `params_get_value_default`; `none` is the error `Invalid parameter`
unfoldable pub params_get_value_default {ℓ} :
    {A : Type ℓ} → (Text → Option A) → Params → Text → A → Option A
unfolding find_param
params_get_value_default read params key default = elim (find_param key params) [
  | none ↦ some default
  | some v ↦ read v
]

abbrev pub read_u64 : Text → Option ℕ
read_u64 = parse_unsigned u64_mod

abbrev pub read_u32 : Text → Option ℕ
read_u32 = parse_unsigned u32_mod

abbrev pub read_u16 : Text → Option ℕ
read_u16 = parse_unsigned u16_mod

abbrev pub read_text : Text → Option Text
read_text v = some v

unfoldable pub read_bool : Text → Option Bool
unfolding text_eq
read_bool v =
    if text_eq v (codes "true")
    then some true
    else if text_eq v (codes "false")
    then some false
    else none

abbrev pub default_direction : Text
default_direction = codes "next"

-- a cursor stands for the parameters where there is its id or its count
abbrev pub has_cursor : Params → Bool
has_cursor params =
    is_some (params_get_value read_u64 params (codes "cursor"))
    || is_some (params_get_value read_u64 params (codes "total_count"))

-- the page that is asked for; `none` where it is refused
unfoldable pub read_page : Params → Option (ℕ × ℕ)
unfolding params_get_value_default
read_page params = elim (params_get_value_default read_u64 params (codes "page_num") 1) [
  | none ↦ none
  | some page_num ↦ elim (params_get_value_default read_u64 params (codes "page_size") 10) [
    | none ↦ none
    | some page_size ↦ if page_num == 0 || page_size == 0 then none else some (page_num, page_size)
  ]
]

-- the direction is a text, which is never refused
abbrev pub read_cursor_direction : Params → Text
read_cursor_direction params =
    unwrap_or (find_param (codes "cursor_direction") params) default_direction

-- the parameters that are read for a page
unfoldable pub domain_param_of : Params → ℕ × ℕ → DomainListGetParam
unfolding params_get_value find_param read_bool
domain_param_of params (page_num, page_size) = record new_domain_param {
  id = params_get_value read_u64 params (codes "id");
  page_num = page_num;
  page_size = page_size;
  domain = params_get_value read_text params (codes "domain");
  domain_filter_mode = params_get_value read_text params (codes "domain_filter_mode");
  domain_type = params_get_value read_u32 params (codes "domain_type");
  domain_group = params_get_value read_text params (codes "domain_group");
  client = params_get_value read_text params (codes "client");
  reply_code = params_get_value read_u16 params (codes "reply_code");
  order = params_get_value read_text params (codes "order");
  is_blocked = params_get_value read_bool params (codes "is_blocked");
  timestamp_after = params_get_value read_u64 params (codes "timestamp_after");
  timestamp_before = params_get_value read_u64 params (codes "timestamp_before");
  cursor =
      if has_cursor params
      then some (record {
        id = params_get_value read_u64 params (codes "cursor");
        total_count = unwrap_or (params_get_value read_u64 params (codes "total_count")) 0;
        direction = read_cursor_direction params;
      })
      else none;
}

-- the parameters of a domain list; `none` is the answer BAD_REQUEST
unfoldable pub domain_list_param : Params → Option DomainListGetParam
unfolding read_page domain_param_of
domain_list_param params = elim (read_page params) [
  | none ↦ none
  | some page ↦ some (domain_param_of params page)
]

unfoldable pub client_param_of : Params → ℕ × ℕ → ClientListGetParam
unfolding params_get_value find_param
client_param_of params (page_num, page_size) = record new_client_param {
  id = params_get_value read_u64 params (codes "id");
  page_num = page_num;
  page_size = page_size;
  client_ip = params_get_value read_text params (codes "client_ip");
  hostname = params_get_value read_text params (codes "hostname");
  mac = params_get_value read_text params (codes "mac");
  order = params_get_value read_text params (codes "order");
  timestamp_after = params_get_value read_u64 params (codes "timestamp_after");
  timestamp_before = params_get_value read_u64 params (codes "timestamp_before");
  cursor =
      if has_cursor params
      then some (record {
        id = params_get_value read_u64 params (codes "cursor");
        total_count = unwrap_or (params_get_value read_u64 params (codes "total_count")) 0;
        direction = read_cursor_direction params;
      })
      else none;
}

-- the parameters of a client list; `none` is the answer BAD_REQUEST
unfoldable pub client_list_param : Params → Option ClientListGetParam
unfolding read_page client_param_of
client_list_param params = elim (read_page params) [
  | none ↦ none
  | some page ↦ some (client_param_of params page)
]

-- the answers: BAD_REQUEST, INTERNAL_SERVER_ERROR, or a page with the counts of pages and of rows
pub data ListAnswer {ℓ} (A : Type ℓ) : Type ℓ where
  bad_request internal_error : ListAnswer A
  page : List A → ℕ → ℕ → ListAnswer A

unfoldable pub total_pages : ℕ → ℕ → ℕ
total_pages count page_size =
    if not (count % page_size == 0) then count / page_size + 1 else count / page_size

unfoldable pub answer_list {ℓ} : {A : Type ℓ} → ℕ → Listed A → ListAnswer A
unfolding total_pages
answer_list page_size (listed r) = page r.list (total_pages r.total_count page_size) r.total_count
answer_list page_size (refused e) = internal_error
answer_list page_size query_failed = internal_error

unfoldable pub api_domain_get_list :
    (Text → List Text → Option (List DomainData))
    → (Text → List Text → Option ℕ)
    → Params
    → ListAnswer DomainData
unfolding domain_list_param answer_list get_domain_list
api_domain_get_list rows counts params = elim (domain_list_param params) [
  | none ↦ bad_request
  | some p ↦ answer_list p.page_size (get_domain_list rows counts p)
]

unfoldable pub api_client_get_list :
    (Text → List Text → Option (List ClientData))
    → (Text → List Text → Option ℕ)
    → Params
    → ListAnswer ClientData
unfolding client_list_param answer_list get_client_list
api_client_get_list rows counts params = elim (client_list_param params) [
  | none ↦ bad_request
  | some p ↦ answer_list p.page_size (get_client_list rows counts p)
]

-- the answers to a deletion, with the count for that of a list
pub data DeleteAnswer : Type 0 where
  invalid_parameter not_deleted not_found no_content : DeleteAnswer
  deleted : ℕ → DeleteAnswer

abbrev pub answer_deletion : (ℕ → DeleteAnswer) → Tables × Option ℕ → Tables × DeleteAnswer
answer_deletion answer (t, none) = (t, not_deleted)
answer_deletion answer (t, some count) = (t, if count == 0 then not_found else answer count)

-- `params_parser_value` of the id in the path
unfoldable pub api_domain_delete_by_id : Bool → Option Text → Tables → Tables × DeleteAnswer
unfolding delete_domain_by_id
api_domain_delete_by_id succeeds param t = elim param [
  | none ↦ (t, invalid_parameter)
  | some text ↦ elim (read_u64 text) [
    | none ↦ (t, invalid_parameter)
    | some id ↦ answer_deletion (λ count. no_content) (delete_domain_by_id succeeds id t)
  ]
]

unfoldable pub api_client_delete_by_id : Bool → Option Text → Tables → Tables × DeleteAnswer
unfolding delete_client_by_id
api_client_delete_by_id succeeds param t = elim param [
  | none ↦ (t, invalid_parameter)
  | some text ↦ elim (read_u64 text) [
    | none ↦ (t, invalid_parameter)
    | some id ↦ answer_deletion (λ count. no_content) (delete_client_by_id succeeds id t)
  ]
]

unfoldable pub api_domain_delete_list : Bool → Bool → Params → Tables → Tables × DeleteAnswer
unfolding params_get_value delete_domain_before_timestamp
api_domain_delete_list succeeds vacuum_succeeds params t =
    elim (params_get_value read_u64 params (codes "timestamp_before")) [
      | none ↦ (t, invalid_parameter)
      | some timestamp ↦
          answer_deletion deleted
            (delete_domain_before_timestamp succeeds vacuum_succeeds timestamp t)
    ]
