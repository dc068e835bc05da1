-- ===== src/Db/Where.antt =====
-- `get_domain_sql_where` and `get_client_sql_where` of src/db.rs: the WHERE and ORDER BY clauses
-- of a list, and the values that are bound to the placeholders of the WHERE clause.
pub mod Binding
pub mod Order
use smartdns_plus_ui.Base.Word.{to_string}
use smartdns_plus_ui.Base.{
  ℕ, Bool, true, false, not, ◌&&◌, ◌||◌, List, [], ◌∷◌, ◌++◌, map, Option, none, some,
  if◌then◌else◌, is_empty, Text, codes, text_eq, join, eq_ignore_ascii_case, to_ascii_lowercase,
}
use smartdns_plus_ui.Db.Param.{
  DomainListGetParamCursor, ClientListGetParamCursor, DomainListGetParam, ClientListGetParam,
}

pub data SqlError : Type 0 where
  order_param_error : SqlError
  cursor_direction_param_error : SqlError
  domain_filter_mode_param_error : SqlError

pub data Result {ℓ} (A : Type ℓ) : Type ℓ where
  ok : A → Result A
  err : SqlError → Result A

infixl 5 ◌>>=◌
abbrev pub ◌>>=◌ {ℓ κ} : {A : Type ℓ} {B : Type κ} → Result A → (A → Result B) → Result B
ok a >>= f = f a
err e >>= f = err e

-- `sql_where` and `sql_param`, with the flags that the builder keeps
pub record Builder : Type 0 where
  pub sql_where : List Text
  pub sql_param : List Text
  pub order_timestamp_first : Bool
  pub cusor_with_timestamp : Bool

-- a condition with a value bound to its placeholder
abbrev pub bind : Text → Text → Builder → Builder
bind clause value b = record b {
  sql_where = b.sql_where ++ clause ∷ [];
  sql_param = b.sql_param ++ value ∷ [];
}

-- a condition with no placeholder
abbrev pub state : Text → Builder → Builder
state clause b = record b { sql_where = b.sql_where ++ clause ∷ [] }

abbrev pub id_first : Builder → Builder
id_first b = record b { order_timestamp_first = false }

-- an optional equality
unfoldable pub equals : Text → Option Text → Builder → Builder
equals clause none b = b
equals clause (some v) b = bind clause v b

unfoldable pub equals_id_first : Text → Option Text → Builder → Builder
equals_id_first clause none b = b
equals_id_first clause (some v) b = id_first (bind clause v b)

abbrev pub number : Option ℕ → Option Text
number none = none
number (some n) = some (to_string n)

-- `is_cursor_prev`, from `order`
unfoldable pub read_order : Option Text → Result Bool
read_order none = ok false
read_order (some v) =
    if eq_ignore_ascii_case v (codes "asc")
    then ok true
    else if eq_ignore_ascii_case v (codes "desc")
    then ok false
    else err order_param_error

-- `is_desc_order`, from the direction of the cursor
unfoldable pub read_direction : Option Text → Result Bool
read_direction none = ok true
read_direction (some v) =
    if eq_ignore_ascii_case v (codes "prev")
    then ok false
    else if eq_ignore_ascii_case v (codes "next")
    then ok true
    else err cursor_direction_param_error

-- `domain`, with `domain_filter_mode`; `to_lowercase` meets only ASCII words here
unfoldable pub domain_filter : Option Text → Option Text → Builder → Result Builder
domain_filter none mode b = ok b
domain_filter (some v) none b = ok (id_first (bind (codes "domain = ?") v b))
domain_filter (some v) (some m) b =
    let mode = map to_ascii_lowercase m in
    if text_eq mode (codes "endswith")
    then ok (bind (codes "domain LIKE ?") (v ++ codes "%") b)
    else if text_eq mode (codes "startswith")
    then ok (bind (codes "domain LIKE ?") (codes "%" ++ v) b)
    else if text_eq mode (codes "contains")
    then ok (bind (codes "domain LIKE ?") (codes "%" ++ (v ++ codes "%")) b)
    else if text_eq mode (codes "equals")
    then ok (bind (codes "domain = ?") v b)
    else if text_eq mode (codes "notempty")
    then ok (state (codes "domain IS NOT NULL AND domain <> ''") b)
    else err domain_filter_mode_param_error

-- A bound on the timestamp: where the cursor of the page lies on that side (`towards`) and has an
-- id, the id takes the place of the timestamp.
unfoldable pub time_bound : Text → Text → Bool → Option ℕ → Option ℕ → Builder → Builder
time_bound by_id by_time towards cursor_id none b = b
time_bound by_id by_time towards none (some t) b = bind by_time (to_string t) b
time_bound by_id by_time towards (some i) (some t) b =
    if towards
    then record (id_first (bind by_id (to_string i) b)) { cusor_with_timestamp = true }
    else bind by_time (to_string t) b

-- the id of the cursor, where no timestamp bound has used it
unfoldable pub cursor_bound : Bool → Bool → Option ℕ → Builder → Builder
cursor_bound is_cursor_prev is_desc_order none b = b
cursor_bound is_cursor_prev is_desc_order (some i) b =
    if b.cusor_with_timestamp
    then b
    else if is_cursor_prev
    then (if is_desc_order
        then id_first (bind (codes "id > ?") (to_string i) b)
        else id_first (bind (codes "id < ?") (to_string i) b))
    else if is_desc_order
    then id_first (bind (codes "id < ?") (to_string i) b)
    else id_first (bind (codes "id > ?") (to_string i) b)

unfoldable pub flag : Text → Text → Option Bool → Builder → Builder
flag on off none b = b
flag on off (some v) b = id_first (state (if v then on else off) b)

unfoldable pub where_clause : List Text → Text
unfolding join
where_clause clauses =
    if is_empty clauses then [] else codes " WHERE " ++ join (codes " AND ") clauses

abbrev pub no_conditions : Bool → Builder
no_conditions timestamp_first = record {
  sql_where = [];
  sql_param = [];
  order_timestamp_first = timestamp_first;
  cusor_with_timestamp = false;
}

-- the conditions between the domain and the bounds on the timestamp
unfoldable pub domain_columns : DomainListGetParam → Builder → Builder
unfolding equals_id_first
domain_columns param b = equals_id_first (codes "reply_code = ?") (number param.reply_code) (
    equals_id_first (codes "domain_group = ?") param.domain_group (
      equals_id_first (codes "client = ?") param.client
        (equals_id_first (codes "domain_type = ?") (number param.domain_type) b)))

abbrev pub cursor_id : Option DomainListGetParamCursor → Option ℕ
cursor_id none = none
cursor_id (some c) = c.id

abbrev pub cursor_direction : Option DomainListGetParamCursor → Option Text
cursor_direction none = none
cursor_direction (some c) = some c.direction

-- the bounds: on the timestamp, by the cursor, and the two flags
unfoldable pub domain_bounds : DomainListGetParam → Bool → Bool → Builder → Builder
unfolding time_bound cursor_bound flag
domain_bounds param is_cursor_prev is_desc_order b =
    let id = cursor_id param.cursor in
    flag (codes "is_cached = 1") (codes "is_cached = 0") param.is_cached (
      flag (codes "is_blocked = 1") (codes "is_blocked = 0") param.is_blocked (
        cursor_bound is_cursor_prev is_desc_order id (
          time_bound (codes "id > ?") (codes "timestamp >= ?") (not is_desc_order || is_cursor_prev)
            id param.timestamp_after
            (time_bound (codes "id < ?") (codes "timestamp <= ?") (is_desc_order || is_cursor_prev)
              id param.timestamp_before b))))

abbrev pub domain_order : Bool → Bool → Text
domain_order is_desc_order timestamp_first =
    if is_desc_order
    then (if timestamp_first
        then codes " ORDER BY timestamp DESC, id DESC"
        else codes " ORDER BY id DESC, timestamp DESC")
    else if timestamp_first
    then codes " ORDER BY timestamp ASC, id ASC"
    else codes " ORDER BY id ASC, timestamp ASC"

-- the conditions of a domain list, and the direction that its order starts from
unfoldable pub domain_builder : DomainListGetParam → Result (Builder × Bool × Bool)
domain_builder param = do
  is_cursor_prev ← read_order param.order
  is_desc_order ← read_direction (cursor_direction param.cursor)
  b ←
      domain_filter param.domain param.domain_filter_mode
        (equals_id_first (codes "id = ?") (number param.id) (no_conditions true))
  ok (
    domain_bounds param is_cursor_prev is_desc_order (domain_columns param b),
    is_cursor_prev,
    is_desc_order,
  )

unfoldable pub get_domain_sql_where : Option DomainListGetParam → Result (Text × Text × List Text)
unfolding domain_builder where_clause
get_domain_sql_where none = ok ([], [], [])
get_domain_sql_where (some param) = do
  built ← domain_builder param
  let is_desc_order = if built.1 then not built.2 else built.2
  ok (
    where_clause built.0.sql_where,
    domain_order is_desc_order built.0.order_timestamp_first,
    built.0.sql_param,
  )

abbrev pub client_cursor_id : Option ClientListGetParamCursor → Option ℕ
client_cursor_id none = none
client_cursor_id (some c) = c.id

abbrev pub client_cursor_direction : Option ClientListGetParamCursor → Option Text
client_cursor_direction none = none
client_cursor_direction (some c) = some c.direction

-- only `id` comes with the order flag, which starts as false here
unfoldable pub client_conditions : ClientListGetParam → Bool → Bool → Builder
unfolding equals equals_id_first time_bound cursor_bound
client_conditions param is_cursor_prev is_desc_order =
    let id = client_cursor_id param.cursor in
    cursor_bound is_cursor_prev is_desc_order id (
      time_bound (codes "id > ?") (codes "last_query_timestamp >= ?")
        (not is_desc_order || is_cursor_prev) id param.timestamp_after
        (time_bound (codes "id < ?") (codes "last_query_timestamp <= ?")
          (is_desc_order || is_cursor_prev) id param.timestamp_before
          (equals (codes "hostname = ?") param.hostname (
            equals (codes "mac = ?") param.mac (
              equals (codes "client_ip = ?") param.client_ip
                (equals_id_first (codes "id = ?") (number param.id) (no_conditions false)))))))

abbrev pub client_order : Bool → Bool → Text
client_order is_desc_order timestamp_first =
    if is_desc_order
    then (if timestamp_first
        then codes " ORDER BY last_query_timestamp DESC, id DESC"
        else codes " ORDER BY id DESC, last_query_timestamp DESC")
    else if timestamp_first
    then codes " ORDER BY last_query_timestamp ASC, id ASC"
    else codes " ORDER BY id ASC, last_query_timestamp ASC"

unfoldable pub get_client_sql_where : Option ClientListGetParam → Result (Text × Text × List Text)
unfolding client_conditions where_clause
get_client_sql_where none = ok ([], [], [])
get_client_sql_where (some param) = do
  is_cursor_prev ← read_order param.order
  is_desc_order ← read_direction (client_cursor_direction param.cursor)
  let b = client_conditions param is_cursor_prev is_desc_order
  ok (where_clause b.sql_where, client_order is_desc_order b.order_timestamp_first, b.sql_param)
