-- ===== src/Db/Where/Order.antt =====
-- On which side of the cursor a page lies, and in which order it is read (src/db.rs).
use smartdns_plus_ui.Base.{
  ℕ, Bool, true, false, not, List, [], ◌∷◌, ◌≡◌, arith, Option, none, some, if◌then◌else◌, Text,
  codes, eq_ignore_ascii_case,
}
use smartdns_plus_ui.Base.Word.{to_string}
use smartdns_plus_ui.Db.Param.{new_domain_param, new_client_param}
use smartdns_plus_ui.Db.Where.{
  Result, ok, err, order_param_error, cursor_direction_param_error, client_conditions,
  get_domain_sql_where, get_client_sql_where, domain_bounds, domain_columns, domain_filter,
  read_order, read_direction,
}

-- the words that are known, in any case of their letters, with what they mean
abbrev pub meaning : List (Text × Bool) → Text → Option Bool
meaning [] word = none
meaning ((known, is_on) ∷ words) word =
    let others = meaning words word in
    if eq_ignore_ascii_case word known then some is_on else others

-- whether an order is ascending; without an order it is not
abbrev pub ascending : Option Text → Option Bool
ascending none = some false
ascending (some word) = meaning ((codes "asc", true) ∷ (codes "desc", false) ∷ []) word

-- whether a step goes back to the page before
abbrev pub backwards : Text → Option Bool
backwards word = meaning ((codes "prev", true) ∷ (codes "next", false) ∷ []) word

-- the rows with lesser ids than the cursor, or with greater ones
abbrev pub page_clause : Bool → Text
page_clause is_lesser = if is_lesser then codes " WHERE id < ?" else codes " WHERE id > ?"

-- a page by what its two words mean: `lesser` and `descending` say which rows and which sorting
abbrev pub page_by :
    (lesser : Bool → Bool → Bool)
    → (sorting : Bool → Bool → Text) → ℕ
    → Option Bool
    → Option Bool
    → Result (Text × Text × List Text)
page_by lesser sorting i none back = err order_param_error
page_by lesser sorting i (some asc) none = err cursor_direction_param_error
page_by lesser sorting i (some asc) (some prev) =
    ok (page_clause (lesser asc prev), sorting asc prev, to_string i ∷ [])

-- lesser ids for a step forward in a descending list, and for one back in an ascending list
abbrev pub is_lesser : Bool → Bool → Bool
is_lesser asc prev = if asc then prev else not prev

-- sorted as the page lies: what is next to the cursor comes first
abbrev pub domain_sorting : Bool → Bool → Text
domain_sorting asc prev =
    if is_lesser asc prev
    then codes " ORDER BY id DESC, timestamp DESC"
    else codes " ORDER BY id ASC, timestamp ASC"

-- sorted by the step alone
abbrev pub client_sorting : Bool → Bool → Text
client_sorting asc prev =
    if prev
    then codes " ORDER BY id ASC, last_query_timestamp ASC"
    else codes " ORDER BY id DESC, last_query_timestamp DESC"

module _ (order : Option Text) (direction : Text) (i total : ℕ) where
  -- A domain list that has only an order, or none, and a cursor with an id. `asc` and `prev` in any
  -- case of letters: just one of them gives the rows with greater ids, ascending, and none or both
  -- give those with lesser ids, descending; so what is next to the cursor always comes first. An
  -- order other than `asc` and `desc` is refused, and then a step other than `prev` and `next`.
  pub domain_page :
      get_domain_sql_where (
        some (record new_domain_param {
          order = order;
          cursor = some (record { id = some i; total_count = total; direction = direction });
        }))
      ≡ page_by is_lesser domain_sorting i (ascending order) (backwards direction)
  unfolding get_domain_sql_where domain_bounds domain_columns domain_filter read_order
      read_direction
  domain_page = ground arith

  -- A client list that has only an order, or none, and a cursor with an id. `asc` and `prev` choose
  -- the rows as in the domain list, but the sorting is by `prev` alone: ascending with it,
  -- descending without, so with `asc` the two disagree. Other words are refused.
  pub client_page :
      get_client_sql_where (
        some (record new_client_param {
          order = order;
          cursor = some (record { id = some i; total_count = total; direction = direction });
        }))
      ≡ page_by is_lesser client_sorting i (ascending order) (backwards direction)
  unfolding get_client_sql_where client_conditions read_order read_direction
  client_page = ground arith
