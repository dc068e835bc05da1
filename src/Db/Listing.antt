-- ===== src/Db/Listing.antt =====
-- Reading a page: `get_domain_list` and `get_client_list` (src/db.rs). What SQLite answers to a
-- statement, and what it counts, are parameters.
pub mod Statement
use smartdns_plus_ui.Base.Word.{u64_mod, to_string}
use smartdns_plus_ui.Base.{
  ℕ, ◌+◌, ◌-◌, ◌*◌, ◌%◌, Bool, true, false, not, List, [], ◌∷◌, ◌++◌, Option, none, some,
  if◌then◌else◌, is_some, unwrap_or, reverse, Text, codes, eq_ignore_ascii_case,
}
use smartdns_plus_ui.Db.Param.{DomainListGetParam, ClientListGetParam}
use smartdns_plus_ui.Db.Tables.{DomainData, ClientData}
use smartdns_plus_ui.Db.Where.{
  SqlError, Result, ok, err, cursor_id, cursor_direction, client_cursor_id, client_cursor_direction,
  get_domain_sql_where, get_client_sql_where,
}

-- what is read of the parameters of either list: the id of the cursor, its direction and total
-- count where there is one, and the page
pub record PageParam : Type 0 where
  pub cursor_id : Option ℕ
  pub cursor : Option (Text × ℕ)
  pub page_num : ℕ
  pub page_size : ℕ

-- `LIMIT` with the values it binds. The offset is computed in u64, in the wrapping arithmetic of a
-- release build.
unfoldable pub limit_clause : PageParam → Text × List Text
unfolding to_string
limit_clause p =
    let size = to_string p.page_size in
    if is_some p.cursor_id then (codes " LIMIT ?", size ∷ []) else (
      codes " LIMIT ? OFFSET ?",
      size ∷ to_string ((p.page_num + u64_mod - 1) % u64_mod * p.page_size % u64_mod) ∷ [],
    )

-- the whole statement, behind the columns that are selected
unfoldable pub list_statement : Text → Text × Text × List Text → Option PageParam → Text × List Text
list_statement select (sql_where, sql_order, sql_param) none =
    (select ++ (sql_where ++ sql_order), sql_param)
list_statement select (sql_where, sql_order, sql_param) (some p) =
    let limit = limit_clause p in
    (select ++ (sql_where ++ (sql_order ++ limit.0)), sql_param ++ limit.1)

unfoldable pub is_prev : Option (Text × ℕ) → Bool
unfolding eq_ignore_ascii_case
is_prev none = false
is_prev (some (direction, total)) = eq_ignore_ascii_case direction (codes "prev")

pub record QueryListResult {ℓ} (A : Type ℓ) : Type ℓ where
  pub list : List A
  pub total_count : ℕ
  pub step_by_cursor : Bool

-- the page, or the error: of the parameters, or of the database
pub data Listed {ℓ} (A : Type ℓ) : Type ℓ where
  listed : QueryListResult A → Listed A
  refused : SqlError → Listed A
  query_failed : Listed A

-- `get_domain_list_count` and `get_client_list_count`, with the first column that is selected; where
-- the parameters are wrong all rows are counted. `counts` is `none` where there is no answer.
unfoldable pub list_count :
    (Text → List Text → Option ℕ) → Text → Result (Text × Text × List Text) → ℕ
list_count counts select (ok (sql_where, sql_order, sql_param)) =
    unwrap_or (counts (select ++ (sql_where ++ sql_order)) sql_param) 0
list_count counts select (err e) = unwrap_or (counts select []) 0

-- `rows` is `none` where the database is not open or refuses the statement, `count` is the count for
-- the same parameters.
module _ {ℓ} {A : Type ℓ} (rows : Text → List Text → Option (List A)) (count : ℕ) where
  unfoldable pub counted_list : List A → Option PageParam → QueryListResult A
  unfolding is_prev
  counted_list list none = record { list = list; total_count = 0; step_by_cursor = false }
  counted_list list (some p) = elim p.cursor [
    | none ↦ record { list = list; total_count = count; step_by_cursor = false }
    | some (direction, total) ↦ record {
      list = if is_prev (some (direction, total)) then reverse list else list;
      total_count = total;
      step_by_cursor = true;
    }
  ]

  unfoldable pub get_list : Text → Result (Text × Text × List Text) → Option PageParam → Listed A
  unfolding list_statement counted_list
  get_list select built p = elim built [
    | err e ↦ refused e
    | ok parts ↦
        let statement = list_statement select parts p in
        elim (rows statement.0 statement.1) [
          | none ↦ query_failed
          | some list ↦ listed (counted_list list p)
        ]
  ]

abbrev pub domain_columns_text : Text
domain_columns_text =
    codes
      "SELECT id, timestamp, domain, domain_type, client, domain_group, reply_code, query_time, ping_time, is_blocked, is_cached FROM domain"

abbrev pub client_columns_text : Text
client_columns_text = codes "SELECT id, client_ip, mac, hostname, last_query_timestamp FROM client"

abbrev pub domain_page_param : DomainListGetParam → PageParam
domain_page_param p = record {
  cursor_id = cursor_id p.cursor;
  cursor = elim p.cursor [ none ↦ none | some c ↦ some (c.direction, c.total_count) ];
  page_num = p.page_num;
  page_size = p.page_size;
}

abbrev pub client_page_param : ClientListGetParam → PageParam
client_page_param p = record {
  cursor_id = client_cursor_id p.cursor;
  cursor = elim p.cursor [ none ↦ none | some c ↦ some (c.direction, c.total_count) ];
  page_num = p.page_num;
  page_size = p.page_size;
}

unfoldable pub get_domain_list_count : (Text → List Text → Option ℕ) → Option DomainListGetParam → ℕ
unfolding list_count
get_domain_list_count counts p =
    list_count counts (codes "SELECT COUNT(*) FROM domain") (get_domain_sql_where p)

unfoldable pub get_client_list_count : (Text → List Text → Option ℕ) → Option ClientListGetParam → ℕ
unfolding list_count
get_client_list_count counts p =
    list_count counts (codes "SELECT COUNT(*) FROM client") (get_client_sql_where p)

unfoldable pub get_domain_list :
    (Text → List Text → Option (List DomainData))
    → (Text → List Text → Option ℕ)
    → DomainListGetParam
    → Listed DomainData
unfolding get_list get_domain_list_count
get_domain_list rows counts p =
    get_list rows (get_domain_list_count counts (some p)) domain_columns_text
      (get_domain_sql_where (some p)) (some (domain_page_param p))

unfoldable pub get_client_list :
    (Text → List Text → Option (List ClientData))
    → (Text → List Text → Option ℕ)
    → ClientListGetParam
    → Listed ClientData
unfolding get_list get_client_list_count
get_client_list rows counts p =
    get_list rows (get_client_list_count counts (some p)) client_columns_text
      (get_client_sql_where (some p)) (some (client_page_param p))
