-- ===== src/Stats.antt =====
-- The counters of src/data_stats.rs on a target with 64-bit atomics, their saving and loading,
-- and the worker.
pub mod Dropped
pub mod Qps
pub mod Saved
use smartdns_plus_ui.Base.Word.{u32_mod, u64_mod, to_string, parse_unsigned}
use Prim.Native.Nat.{bit_and}
use smartdns_plus_ui.Base.{
  ℕ, ◌+◌, ◌%◌, Bool, true, false, not, ◌&&◌, List, [], ◌∷◌, Option, none, some, if◌then◌else◌, ◌==◌,
  Text, codes, text_eq,
}

pub record DataStatsItem : Type 0 where
  pub total_request : ℕ
  pub total_blocked_request : ℕ
  pub total_failed_request : ℕ
  pub qps : ℕ
  pub qps_count : ℕ
  pub request_dropped : ℕ

-- `DataStatsItem::new()`
abbrev pub new_item : DataStatsItem
new_item = record {
  total_request = 0;
  total_blocked_request = 0;
  total_failed_request = 0;
  qps = 0;
  qps_count = 0;
  request_dropped = 0;
}

-- `fetch_add` wraps around
unfoldable pub add_qps_count : ℕ → DataStatsItem → DataStatsItem
add_qps_count count s = record s { qps_count = (s.qps_count + count) % u32_mod }

unfoldable pub update_qps : DataStatsItem → DataStatsItem
update_qps s = record s { qps = s.qps_count; qps_count = bit_and s.qps_count 0 }

-- the body is `fetch_and`
unfoldable pub add_request_drop : ℕ → DataStatsItem → DataStatsItem
add_request_drop count s = record s { request_dropped = bit_and s.request_dropped count }

unfoldable pub add_total_request : ℕ → DataStatsItem → DataStatsItem
add_total_request total s = record s { total_request = (s.total_request + total) % u64_mod }

unfoldable pub add_total_blocked_request : ℕ → DataStatsItem → DataStatsItem
add_total_blocked_request total s = record s {
  total_blocked_request = (s.total_blocked_request + total) % u64_mod;
}

unfoldable pub add_total_failed_request : ℕ → DataStatsItem → DataStatsItem
add_total_failed_request total s = record s {
  total_failed_request = (s.total_failed_request + total) % u64_mod;
}

-- the table `status_data`: a key at most once
abbrev pub StatusData : Type 0
StatusData = List (Text × Text)

unfoldable pub get_status : Text → StatusData → Option Text
get_status k [] = none
get_status k ((j, v) ∷ m) = if text_eq j k then some v else get_status k m

-- `INSERT OR REPLACE INTO status_data`
unfoldable pub replace_status : Text → Text → StatusData → StatusData
replace_status k v [] = (k, v) ∷ []
replace_status k v ((j, w) ∷ m) =
    let rest = replace_status k v m in if text_eq j k then (k, v) ∷ m else (j, w) ∷ rest

-- an error where the database is not open, or the statement fails
unfoldable pub set_status_data : Bool → Text → Text → StatusData → StatusData × Bool
unfolding replace_status
set_status_data succeeds k v m = if succeeds then (replace_status k v m, true) else (m, false)

-- a counter that was saved, and 0 where it was not or is no number
unfoldable pub load_count : Text → StatusData → ℕ
load_count k m = elim (get_status k m) [
  | none ↦ 0
  | some v ↦ elim (parse_unsigned u64_mod v) [ none ↦ 0 | some n ↦ n ]
]

abbrev pub or_else_count : ℕ → ℕ → ℕ
or_else_count n count = if n == 0 then count else n

-- `domains` and `blocked` are what `get_domain_list_count` returns, of all and of the blocked rows.
unfoldable pub load_status_data : StatusData → ℕ → ℕ → DataStatsItem → DataStatsItem
unfolding add_total_request add_total_blocked_request add_request_drop add_total_failed_request
load_status_data m domains blocked s =
    let total_count = or_else_count (load_count (codes "total_request") m) domains in
    let total_blocked_count =
      or_else_count (load_count (codes "total_blocked_request") m) blocked in
    let request_drop = load_count (codes "request_drop") m in
    let total_failed_count = load_count (codes "total_failed_request") m in
    add_total_failed_request total_failed_count (
      add_request_drop request_drop
        (add_total_blocked_request total_blocked_count (add_total_request total_count s)))

-- The first error ends it; what was written before it stays. `succeeds` says whether a key can be
-- written.
unfoldable pub save_status_data : (Text → Bool) → DataStatsItem → StatusData → StatusData × Bool
unfolding set_status_data
save_status_data succeeds s m =
    let save =
      λ (key : Text) (n : ℕ) (m : StatusData). set_status_data (succeeds key) key (to_string n) m in
    let first = save (codes "total_request") s.total_request m in
    let second = save (codes "total_blocked_request") s.total_blocked_request first.0 in
    let third = save (codes "total_failed_request") s.total_failed_request second.0 in
    if not first.1
    then first
    else if not second.1
    then second
    else if not third.1
    then third
    else save (codes "request_drop") s.request_dropped third.0

-- What is done to the counters, by the query path and by the worker.
pub data Event : Type 0 where
  qps_count request_drop total_request total_blocked_request total_failed_request : ℕ → Event
  second_tick : Event

unfoldable pub apply : Event → DataStatsItem → DataStatsItem
unfolding add_qps_count add_request_drop add_total_request add_total_blocked_request
    add_total_failed_request update_qps
apply (qps_count n) s = add_qps_count n s
apply (request_drop n) s = add_request_drop n s
apply (total_request n) s = add_total_request n s
apply (total_blocked_request n) s = add_total_blocked_request n s
apply (total_failed_request n) s = add_total_failed_request n s
apply second_tick s = update_qps s

unfoldable pub run : List Event → DataStatsItem → DataStatsItem
run [] s = s
run (e ∷ es) s = run es (apply e s)
