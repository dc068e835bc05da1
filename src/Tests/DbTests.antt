-- ===== src/Tests/DbTests.antt =====
-- The queries and the tables of src/db.rs on small inputs.
use smartdns_plus_ui.Base.{
  eq_ignore_ascii_case, ℕ, ◌+◌, ◌≡◌, refl, arith, true, false, List, [], ◌∷◌, some, codes, Text,
  length, ◌≤◌, ◌<◌, ◌-◌, ◌*◌, ◌%◌, if◌then◌else◌, text_eq, eq_ignore_ascii_case,
}
use smartdns_plus_ui.Base.Word.{u64_mod, to_string}
use smartdns_plus_ui.Db.Param.{
  DomainListGetParam, ClientListGetParam, new_domain_param, new_client_param,
}
use smartdns_plus_ui.Db.Where.{
  ok, read_order, read_direction, get_domain_sql_where, get_client_sql_where, domain_columns,
  domain_bounds, domain_filter, client_conditions,
}
use smartdns_plus_ui.Db.Where.Binding.{placeholders}
use smartdns_plus_ui.Db.Listing.{
  list_statement, domain_columns_text, client_columns_text, domain_page_param, client_page_param,
}
use smartdns_plus_ui.Db.Listing.Statement.{get_domain_list-binds, get_client_list-binds}
use smartdns_plus_ui.Db.Where.Order.{domain_page, client_page}
use smartdns_plus_ui.Db.Tables.{
  DomainData, ClientData, Tables, insert_domain, insert_rows, insert_client, bucket_timestamp,
  hour_ms, day_ms,
}
use smartdns_plus_ui.Db.Tables.Counts.{total, insert_domain_lem, bucket_east, bucket_west}
use smartdns_plus_ui.Db.Tables.Clients.{is_unique, insert_client_unique}

abbrev blocked_yesterday : DomainListGetParam
blocked_yesterday = record new_domain_param {
  domain = some (codes "ads.example");
  domain_filter_mode = some (codes "contains");
  is_blocked = some true;
  timestamp_before = some 1700000000000;
  cursor = some (record { id = some 41; total_count = 100; direction = codes "next" });
}

blocked_query :
    get_domain_sql_where (some blocked_yesterday)
    ≡ ok (
      codes " WHERE domain LIKE ? AND id < ? AND is_blocked = 1",
      codes " ORDER BY id DESC, timestamp DESC",
      codes "%ads.example%" ∷ codes "41" ∷ [],
    )
unfolding get_domain_sql_where domain_bounds domain_columns domain_filter to_string text_eq
    read_order read_direction eq_ignore_ascii_case
blocked_query = refl

abbrev known_mac : ClientListGetParam
known_mac = record new_client_param { mac = some (codes "aa:bb"); timestamp_after = some 5 }

mac_query :
    get_client_sql_where (some known_mac)
    ≡ ok (
      codes " WHERE mac = ? AND last_query_timestamp >= ?",
      codes " ORDER BY id DESC, last_query_timestamp DESC",
      codes "aa:bb" ∷ codes "5" ∷ [],
    )
unfolding get_client_sql_where client_conditions to_string read_order read_direction
    eq_ignore_ascii_case
mac_query = refl

abbrev blocked_sql : Text × Text × List Text
blocked_sql = (
  codes " WHERE domain LIKE ? AND id < ? AND is_blocked = 1",
  codes " ORDER BY id DESC, timestamp DESC",
  codes "%ads.example%" ∷ codes "41" ∷ [],
)

get_domain_list-binds_example :
    (let statement =
        list_statement domain_columns_text blocked_sql
          (some (domain_page_param blocked_yesterday)) in
      placeholders statement.0 ≡ length statement.1)
get_domain_list-binds_example = get_domain_list-binds blocked_yesterday blocked_query

abbrev mac_sql : Text × Text × List Text
mac_sql = (
  codes " WHERE mac = ? AND last_query_timestamp >= ?",
  codes " ORDER BY id DESC, last_query_timestamp DESC",
  codes "aa:bb" ∷ codes "5" ∷ [],
)

get_client_list-binds_example :
    (let statement =
        list_statement client_columns_text mac_sql (some (client_page_param known_mac)) in
      placeholders statement.0 ≡ length statement.1)
get_client_list-binds_example = get_client_list-binds known_mac mac_query

abbrev two_rows : List DomainData
two_rows =
    record {
      id = 0;
      timestamp = 1700000000000;
      domain = codes "a";
      domain_type = 1;
      client = codes "c";
      domain_group = [];
      reply_code = 0;
      query_time = 9;
      ping_time = 0;
      is_blocked = false;
      is_cached = false;
    }
    ∷ record {
      id = 0;
      timestamp = 1700003600000;
      domain = codes "b";
      domain_type = 28;
      client = codes "c";
      domain_group = [];
      reply_code = 3;
      query_time = 9;
      ping_time = 0;
      is_blocked = true;
      is_cached = false;
    }
    ∷ []

abbrev one_client : ClientData
one_client = record {
  id = 1;
  hostname = [];
  client_ip = codes "10.0.0.2";
  mac = codes "aa:bb";
  last_query_timestamp = 7;
}

abbrev sample_tables : Tables
sample_tables = record {
  next_id = 5;
  domain = [];
  domain_hourly_count = (3600000, 2) ∷ [];
  domain_daily_count = [];
  client = one_client ∷ [];
}

insert_domain_lem_example :
    (let (t', done) = insert_domain (λ d. d.is_blocked) true 28800 two_rows sample_tables in
      let rows : ℕ = if done then 2 else 0 in
      (length t'.domain ≡ 0 + rows)
      × (total t'.domain_hourly_count ≡ 2 + rows)
      × (total t'.domain_daily_count ≡ 0 + rows)
      × (t'.client ≡ one_client ∷ []))
insert_domain_lem_example = insert_domain_lem (λ d. d.is_blocked) true 28800 two_rows sample_tables

refused : (insert_domain (λ d. d.is_blocked) true 28800 two_rows sample_tables).1 ≡ false
unfolding insert_domain insert_rows
refused = refl

bucket_east_example :
    (let start = bucket_timestamp day_ms 28800 1700000000000 in
      (start ≤ 1700000000000)
      × (1700000000000 < start + day_ms)
      × ((start + 28800 * 1000) % day_ms ≡ 0))
bucket_east_example =
    bucket_east day_ms 28800 1700000000000 (omega arith) (omega arith) (omega arith) (omega arith)

bucket_west_example :
    (let start = bucket_timestamp hour_ms (u64_mod - 12600) 1700000000000 in
      (start ≤ 1700000000000)
      × (1700000000000 < start + hour_ms)
      × ((start - 12600 * 1000) % hour_ms ≡ 0))
bucket_west_example =
    bucket_west hour_ms 12600 1700000000000 (omega arith) (omega arith) (omega arith) (omega arith)
      (omega arith)

insert_client_unique_example :
    (let t' = (insert_client (λ c. false) true (one_client ∷ one_client ∷ []) sample_tables).0 in
      (is_unique t'.client ≡ true)
      × (t'.domain ≡ [])
      × (t'.domain_hourly_count ≡ (3600000, 2) ∷ [])
      × (t'.domain_daily_count ≡ []))
insert_client_unique_example =
    insert_client_unique (λ c. false) true (one_client ∷ one_client ∷ []) sample_tables refl

domain_page_example :
    get_domain_sql_where (
      some (record new_domain_param {
        order = some (codes "ASC");
        cursor = some (record { id = some 9; total_count = 50; direction = codes "next" });
      }))
    ≡ ok (codes " WHERE id > ?", codes " ORDER BY id ASC, timestamp ASC", to_string 9 ∷ [])
unfolding eq_ignore_ascii_case
domain_page_example = domain_page (some (codes "ASC")) (codes "next") 9 50

client_page_example :
    get_client_sql_where (
      some (record new_client_param {
        order = some (codes "ASC");
        cursor = some (record { id = some 9; total_count = 50; direction = codes "next" });
      }))
    ≡ ok (
      codes " WHERE id > ?",
      codes " ORDER BY id DESC, last_query_timestamp DESC",
      to_string 9 ∷ [],
    )
unfolding eq_ignore_ascii_case
client_page_example = client_page (some (codes "ASC")) (codes "next") 9 50
