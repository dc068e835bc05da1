-- ===== src/Db/Tables.antt =====
-- The tables of src/db.rs as lists of rows, and the statements of the program on them. A
-- transaction that fails is rolled back: `fails` tells at which row SQLite reports an error, and
-- `commits` whether the database is open and the statements around the rows and the commit succeed.
pub mod Counts
pub mod Clients
use smartdns_plus_ui.Base.Word.{u64_mod}
use smartdns_plus_ui.Base.{
  ℕ, zero, suc, ◌+◌, ◌-◌, ◌*◌, ◌%◌, Bool, true, false, not, ◌&&◌, List, [], ◌∷◌, ◌++◌, map, Option,
  none, some, if◌then◌else◌, ◌==◌, ltb, leb, length, filter, any, Text, text_eq,
}

-- `query_time`, an i32, and `ping_time`, an f64, are carried by their bits
pub record DomainData : Type 0 where
  pub id : ℕ
  pub timestamp : ℕ
  pub domain : Text
  pub domain_type : ℕ
  pub client : Text
  pub domain_group : Text
  pub reply_code : ℕ
  pub query_time : ℕ
  pub ping_time : ℕ
  pub is_blocked : Bool
  pub is_cached : Bool

pub record ClientData : Type 0 where
  pub id : ℕ
  pub hostname : Text
  pub client_ip : Text
  pub mac : Text
  pub last_query_timestamp : ℕ

-- `timestamp` to `count`: the tables and the maps of hourly and daily counts
abbrev pub Counts : Type 0
Counts = List (ℕ × ℕ)

pub record Tables : Type 0 where
  pub next_id : ℕ
  pub domain : List DomainData
  pub domain_hourly_count : Counts
  pub domain_daily_count : Counts
  pub client : List ClientData

-- `entry(k).and_modify(|v| *v += n).or_insert(n)`, and
-- `INSERT … ON CONFLICT(timestamp) DO UPDATE SET count = count + ?2`: the counts of one batch, which are u32, and a table's
-- are taken to stay in range
unfoldable pub add_count : ℕ → ℕ → Counts → Counts
add_count k n [] = (k, n) ∷ []
add_count k n ((j, m) ∷ counts) =
    let rest = add_count k n counts in if j == k then (j, m + n) ∷ counts else (j, m) ∷ rest

-- `update_domain_hourly_count` and `update_domain_daily_count`
unfoldable pub update_counts : Counts → Counts → Counts
unfolding add_count
update_counts [] table = table
update_counts ((k, n) ∷ counts) table = update_counts counts (add_count k n table)

-- `local_offset as u64 * 1000`, in the wrapping arithmetic of a release build: the offset is given
-- by its bits as a u64, 2^64 - s for s seconds west
abbrev pub offset_ms : ℕ → ℕ
offset_ms offset = offset * 1000 % u64_mod

-- the start of the bucket of `width` milliseconds that holds the timestamp, in local time
unfoldable pub bucket_timestamp : ℕ → ℕ → ℕ → ℕ
bucket_timestamp width offset timestamp =
    let local = (timestamp + offset_ms offset) % u64_mod in
    (local - local % width + u64_mod - offset_ms offset) % u64_mod

abbrev pub hour_ms : ℕ
hour_ms = 3600000

abbrev pub day_ms : ℕ
day_ms = 86400000

-- the loop of `insert_domain`: the rows with their new ids, and the two maps; `none` where a row
-- is refused
pub record Insert : Type 0 where
  pub tables : Tables
  pub hourly_count : Counts
  pub daily_count : Counts

unfoldable pub insert_row : ℕ → DomainData → Insert → Insert
unfolding add_count bucket_timestamp
insert_row offset d s = record {
  tables = record s.tables {
    next_id = s.tables.next_id + 1;
    domain = s.tables.domain ++ record d { id = s.tables.next_id } ∷ [];
  };
  hourly_count = add_count (bucket_timestamp hour_ms offset d.timestamp) 1 s.hourly_count;
  daily_count = add_count (bucket_timestamp day_ms offset d.timestamp) 1 s.daily_count;
}

unfoldable pub insert_rows : (DomainData → Bool) → ℕ → List DomainData → Insert → Option Insert
insert_rows fails offset [] s = some s
insert_rows fails offset (d ∷ ds) s =
    let rest = insert_rows fails offset ds (insert_row offset d s) in if fails d then none else rest

-- The new tables, and whether the call returned `Ok`.
unfoldable pub insert_domain :
    (DomainData → Bool) → Bool → ℕ → List DomainData → Tables → Tables × Bool
unfolding insert_rows update_counts
insert_domain fails commits offset ds t =
    elim (insert_rows fails offset ds
      (record { tables = t; hourly_count = []; daily_count = [] })) [
        | none ↦ (t, false)
        | some s ↦
            if commits
            then (
              record s.tables {
                domain_hourly_count = update_counts s.hourly_count t.domain_hourly_count;
                domain_daily_count = update_counts s.daily_count t.domain_daily_count;
              },
              true,
            )
            else (t, false)
      ]

-- A deletion returns the number of rows, or an error where the database is not open or refuses it.
-- `DELETE FROM domain WHERE id = ?`
unfoldable pub delete_domain_by_id : Bool → ℕ → Tables → Tables × Option ℕ
delete_domain_by_id succeeds id t =
    if succeeds
    then (
      record t { domain = filter (λ d. not (d.id == id)) t.domain },
      some (length (filter (λ d. d.id == id) t.domain)),
    )
    else (t, none)

-- `DELETE FROM domain WHERE timestamp <= ?`, and then `run_vacuum`, whose error leaves the rows
-- deleted
unfoldable pub delete_domain_before_timestamp : Bool → Bool → ℕ → Tables → Tables × Option ℕ
delete_domain_before_timestamp succeeds vacuum_succeeds timestamp t =
    if succeeds
    then (
      record t { domain = filter (λ d. ltb timestamp d.timestamp) t.domain },
      (if vacuum_succeeds
          then some (length (filter (λ d. leb d.timestamp timestamp) t.domain))
          else none),
    )
    else (t, none)

-- `DELETE FROM domain_hourly_count WHERE timestamp <= ?`, and the daily table
unfoldable pub delete_hourly_query_count_before_timestamp : Bool → ℕ → Tables → Tables × Option ℕ
delete_hourly_query_count_before_timestamp succeeds timestamp t =
    if succeeds
    then (
      record t { domain_hourly_count = filter (λ c. ltb timestamp c.0) t.domain_hourly_count },
      some (length (filter (λ c. leb c.0 timestamp) t.domain_hourly_count)),
    )
    else (t, none)

unfoldable pub delete_daily_query_count_before_timestamp : Bool → ℕ → Tables → Tables × Option ℕ
delete_daily_query_count_before_timestamp succeeds timestamp t =
    if succeeds
    then (
      record t { domain_daily_count = filter (λ c. ltb timestamp c.0) t.domain_daily_count },
      some (length (filter (λ c. leb c.0 timestamp) t.domain_daily_count)),
    )
    else (t, none)

abbrev pub same_client : ClientData → ClientData → Bool
same_client a b = text_eq a.client_ip b.client_ip && text_eq a.mac b.mac

-- `SELECT MAX(rowid) FROM client`, 0 where the table is empty
unfoldable pub max_id : List ClientData → ℕ
max_id [] = 0
max_id (c ∷ cs) = let rest = max_id cs in if ltb rest c.id then c.id else rest

-- the row of the pair of address and MAC gets the new time
unfoldable pub touch_client : ClientData → List ClientData → List ClientData
touch_client d [] = []
touch_client d (c ∷ cs) =
    let rest = touch_client d cs in
    if same_client c d
    then record c { last_query_timestamp = d.last_query_timestamp } ∷ rest
    else c ∷ rest

-- one execution of the upsert of `insert_client`
unfoldable pub upsert_client : ClientData → List ClientData → List ClientData
unfolding max_id touch_client text_eq
upsert_client d cs =
    if any (λ c. same_client c d) cs
    then touch_client d cs
    else cs ++ record d { id = max_id cs + 1 } ∷ []

unfoldable pub insert_clients :
    (ClientData → Bool) → List ClientData → List ClientData → Option (List ClientData)
unfolding upsert_client
insert_clients fails [] cs = some cs
insert_clients fails (d ∷ ds) cs =
    let rest = insert_clients fails ds (upsert_client d cs) in if fails d then none else rest

unfoldable pub insert_client : (ClientData → Bool) → Bool → List ClientData → Tables → Tables × Bool
unfolding insert_clients
insert_client fails commits ds t = elim (insert_clients fails ds t.client) [
  | none ↦ (t, false)
  | some cs ↦ if commits then (record t { client = cs }, true) else (t, false)
]

-- `DELETE FROM client WHERE id = ?`
unfoldable pub delete_client_by_id : Bool → ℕ → Tables → Tables × Option ℕ
delete_client_by_id succeeds id t =
    if succeeds
    then (
      record t { client = filter (λ c. not (c.id == id)) t.client },
      some (length (filter (λ c. c.id == id) t.client)),
    )
    else (t, none)
