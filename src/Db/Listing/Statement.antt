-- ===== src/Db/Listing/Statement.antt =====
-- The statements of the lists, with their limits (src/db.rs).
use smartdns_plus_ui.Base.{◌≡◌, refl, arith, some, List, ◌++◌, Text, length, length-append}
use smartdns_plus_ui.Db.Param.{DomainListGetParam, ClientListGetParam}
use smartdns_plus_ui.Db.Where.{ok, get_domain_sql_where, get_client_sql_where}
use smartdns_plus_ui.Db.Where.Binding.{
  placeholders, placeholders-append, get_domain_sql_where-binds, get_client_sql_where-binds,
  get_domain_sql_where_order, get_client_sql_where_order,
}
use smartdns_plus_ui.Db.Listing.{
  PageParam, limit_clause, list_statement, domain_columns_text, client_columns_text,
  domain_page_param, client_page_param,
}

limit_clause-binds : (p : PageParam) → placeholders (limit_clause p).0 ≡ length (limit_clause p).1
unfolding limit_clause
limit_clause-binds p = ground arith

list_statement-binds :
    (select : Text) (sql : Text × Text × List Text) (p : PageParam)
    → placeholders select ≡ 0
    → placeholders sql.0 ≡ length sql.2
    → placeholders sql.1 ≡ 0
    → placeholders (list_statement select sql (some p)).0
      ≡ length (list_statement select sql (some p)).1
unfolding list_statement
list_statement-binds select (sql_where, sql_order, sql_param) p s w o = omega (
  arith,
  placeholders-append select (sql_where ++ (sql_order ++ (limit_clause p).0)),
  placeholders-append sql_where (sql_order ++ (limit_clause p).0),
  placeholders-append sql_order (limit_clause p).0,
  limit_clause-binds p,
  length-append sql_param (limit_clause p).1,
)

-- Whatever the parameters of a domain list, with or without a cursor, the whole statement that is
-- prepared for it has exactly as many placeholders as values are bound to it.
pub get_domain_list-binds :
    (param : DomainListGetParam) {sql : Text × Text × List Text}
    → get_domain_sql_where (some param) ≡ ok sql
    → (let statement = list_statement domain_columns_text sql (some (domain_page_param param)) in
        placeholders statement.0 ≡ length statement.1)
get_domain_list-binds param {sql} h =
    list_statement-binds domain_columns_text sql (domain_page_param param) refl
      (get_domain_sql_where-binds (some param) h) (get_domain_sql_where_order (some param) h)

-- Whatever the parameters of a client list, with or without a cursor, the whole statement that is
-- prepared for it has exactly as many placeholders as values are bound to it.
pub get_client_list-binds :
    (param : ClientListGetParam) {sql : Text × Text × List Text}
    → get_client_sql_where (some param) ≡ ok sql
    → (let statement = list_statement client_columns_text sql (some (client_page_param param)) in
        placeholders statement.0 ≡ length statement.1)
get_client_list-binds param {sql} h =
    list_statement-binds client_columns_text sql (client_page_param param) refl
      (get_client_sql_where-binds (some param) h) (get_client_sql_where_order (some param) h)
