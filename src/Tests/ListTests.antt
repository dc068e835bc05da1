-- ===== src/Tests/ListTests.antt =====
-- Reading and deleting over the API of src/http_server_api.rs on small inputs.
use smartdns_plus_ui.Base.Word.{u64_mod, parse_unsigned}
use smartdns_plus_ui.Base.Word.Decimal.{parse_unsigned-to_string}
use smartdns_plus_ui.Base.{
  ℕ, ◌+◌, ◌≡◌, refl, arith, true, false, List, [], ◌∷◌, Option, none, some, length, take, drop,
  unwrap_or, Text, codes,
}
use smartdns_plus_ui.Db.Param.{DomainListGetParam, new_domain_param}
use smartdns_plus_ui.Db.Where.{
  domain_columns, domain_bounds, read_order, read_direction, domain_filter, get_domain_sql_where,
}
use smartdns_plus_ui.Db.Tables.{DomainData, Tables}
use smartdns_plus_ui.Http.Lists.{
  Params, page, total_pages, domain_list_param, api_domain_get_list, api_domain_delete_by_id,
}
use smartdns_plus_ui.Http.Lists.Pages.{with_page, read_pages, HasRows, api_pages}
use smartdns_plus_ui.Http.Lists.Deletion.{IsDoneOrNothing, api_domain_delete_by_id_lem}

abbrev a_row : ℕ → DomainData
a_row id = record {
  id = id;
  timestamp = 1700000000000 + id;
  domain = codes "a.example";
  domain_type = 1;
  client = codes "10.0.0.2";
  domain_group = [];
  reply_code = 0;
  query_time = 3;
  ping_time = 0;
  is_blocked = false;
  is_cached = false;
}

abbrev five_rows : List DomainData
five_rows = a_row 5 ∷ a_row 4 ∷ a_row 3 ∷ a_row 2 ∷ a_row 1 ∷ []

abbrev two_a_page : Params
two_a_page = (codes "page_size", codes "2") ∷ []

abbrev two_a_page_param : DomainListGetParam
two_a_page_param = record new_domain_param { page_size = 2 }

two_a_page_read : domain_list_param two_a_page ≡ some two_a_page_param
unfolding domain_list_param parse_unsigned
two_a_page_read = refl

-- a database that reads the values of the limit and the offset
abbrev some_rows : Text → List Text → Option (List DomainData)
some_rows sql [] = none
some_rows sql (size ∷ []) = none
some_rows sql (size ∷ offset ∷ more) = some (
    take (unwrap_or (parse_unsigned u64_mod size) 0)
      (drop (unwrap_or (parse_unsigned u64_mod offset) 0) five_rows))

abbrev some_counts : Text → List Text → Option ℕ
some_counts sql params = some 5

five_rows_are_there : HasRows some_rows some_counts two_a_page_param five_rows
unfolding get_domain_sql_where domain_columns domain_bounds read_order read_direction domain_filter
five_rows_are_there = record {
  sql_where = [];
  sql_order = codes " ORDER BY timestamp DESC, id DESC";
  sql_param = [];
  built = refl;
  limits = λ size offset s o.
      rw
        (
          parse_unsigned-to_string u64_mod size (omega arith),
          parse_unsigned-to_string u64_mod offset (omega arith),
        )
        refl;
  counted = refl;
}

api_pages_example :
    (api_domain_get_list some_rows some_counts (with_page 1 two_a_page)
      ≡ page (take 2 five_rows) (total_pages (length five_rows) 2) (length five_rows))
    × (read_pages some_rows some_counts two_a_page 0 (total_pages (length five_rows) 2)
        ≡ some five_rows)
api_pages_example =
    api_pages some_rows some_counts two_a_page two_a_page_param five_rows two_a_page_read refl
      (omega arith) five_rows_are_there (omega arith)

abbrev five_tables : Tables
five_tables = record {
  next_id = 6;
  domain = five_rows;
  domain_hourly_count = [];
  domain_daily_count = [];
  client = [];
}

api_domain_delete_by_id_lem_example :
    IsDoneOrNothing true
      (some 3)
      five_tables
      (api_domain_delete_by_id true (some (codes "3")) five_tables)
unfolding parse_unsigned
api_domain_delete_by_id_lem_example =
    api_domain_delete_by_id_lem true (some (codes "3")) five_tables

abbrev until_two : Params
until_two = (codes "timestamp_before", codes "1700000000002") ∷ []
