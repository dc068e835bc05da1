-- ===== src/Stats/Saved.antt =====
-- The counters across a restart: `save_status_data`, then `load_status_data` (src/data_stats.rs).
use smartdns_plus_ui.Base.Word.{u64_mod, to_string}
use smartdns_plus_ui.Base.Word.Decimal.{parse_unsigned-to_string}
use smartdns_plus_ui.Base.{
  ℕ, ◌+◌, ◌%◌, ◌<◌, ◌≡◌, refl, ◌∙◌, ap, arith, Bool, true, false, [], ◌∷◌, some, inl, inr,
  Bool-cases, if◌then◌else◌, ◌==◌, Text, codes, text_eq, text_eq_iff, text_eq_refl,
}
use smartdns_plus_ui.Stats.{
  DataStatsItem, new_item, StatusData, get_status, replace_status, set_status_data, load_count,
  or_else_count, load_status_data, save_status_data,
}

get_status-replace_self :
    (k v : Text) (m : StatusData) → get_status k (replace_status k v m) ≡ some v
unfolding get_status replace_status
get_status-replace_self k v [] = rw (text_eq_refl k)
get_status-replace_self k v ((j, w) ∷ m) = elim (Bool-cases (text_eq j k)) [
  | inl same ↦ rw (same, replace_status, text_eq_refl k)
  | inr other ↦ rw (other, replace_status, other) (get_status-replace_self k v m)
]

get_status-replace_ne :
    (k j v : Text) (m : StatusData)
    → text_eq k j ≡ false
    → get_status j (replace_status k v m) ≡ get_status j m
unfolding get_status replace_status
get_status-replace_ne k j v [] h = rw h
get_status-replace_ne k j v ((i, w) ∷ m) h = elim (Bool-cases (text_eq i k)) [
  | inl same ↦
      let old : text_eq i j ≡ false = rw ((text_eq_iff i k).0 same) h in
      rw (same, replace_status, h, old) refl
  | inr other ↦
      rw (other, replace_status)
        (ap (λ r. if text_eq i j then some w else r) (get_status-replace_ne k j v m h))
]

load_count-replace_self :
    (k : Text) (n : ℕ) (m : StatusData)
    → n < u64_mod
    → load_count k (replace_status k (to_string n) m) ≡ n
unfolding load_count
load_count-replace_self k n m h =
    rw (get_status-replace_self k (to_string n) m, load_count, parse_unsigned-to_string u64_mod n h)
      refl

load_count-replace_ne :
    (k j v : Text) (m : StatusData)
    → text_eq k j ≡ false
    → load_count j (replace_status k v m) ≡ load_count j m
unfolding load_count
load_count-replace_ne k j v m h = rw (get_status-replace_ne k j v m h, load_count) refl

module _ (s : DataStatsItem) (m : StatusData) (total : s.total_request < u64_mod)
    (blocked : s.total_blocked_request < u64_mod) (failed : s.total_failed_request < u64_mod) where
  abbrev saved : StatusData
  saved = replace_status (codes "request_drop") (to_string s.request_dropped) (
      replace_status (codes "total_failed_request") (to_string s.total_failed_request) (
        replace_status (codes "total_blocked_request") (to_string s.total_blocked_request)
          (replace_status (codes "total_request") (to_string s.total_request) m)))

  -- where no error is returned, all keys are written
  save_status_data_done :
      (succeeds : Text → Bool)
      → (save_status_data succeeds s m).1 ≡ true
      → (save_status_data succeeds s m).0 ≡ saved
  unfolding save_status_data set_status_data
  save_status_data_done succeeds h = ground arith

  loaded_failed : load_count (codes "total_failed_request") saved ≡ s.total_failed_request
  unfolding text_eq
  loaded_failed =
      load_count-replace_ne (codes "request_drop") (codes "total_failed_request") _ _ refl
      ∙ load_count-replace_self (codes "total_failed_request") s.total_failed_request _ failed

  loaded_blocked : load_count (codes "total_blocked_request") saved ≡ s.total_blocked_request
  unfolding text_eq
  loaded_blocked =
      load_count-replace_ne (codes "request_drop") (codes "total_blocked_request") _ _ refl
      ∙ load_count-replace_ne (codes "total_failed_request") (codes "total_blocked_request") _ _
          refl
      ∙ load_count-replace_self (codes "total_blocked_request") s.total_blocked_request _ blocked

  loaded_total : load_count (codes "total_request") saved ≡ s.total_request
  unfolding text_eq
  loaded_total =
      load_count-replace_ne (codes "request_drop") (codes "total_request") _ _ refl
      ∙ load_count-replace_ne (codes "total_failed_request") (codes "total_request") _ _ refl
      ∙ load_count-replace_ne (codes "total_blocked_request") (codes "total_request") _ _ refl
      ∙ load_count-replace_self (codes "total_request") s.total_request m total

  -- Where `save_status_data` returns no error, the totals of requests, of blocked and of failed
  -- requests survive a restart, through their decimal texts in the database; where the total of
  -- requests or of blocked ones is 0, the rows of the database are counted in its place.
  pub load-save :
      (succeeds : Text → Bool) (domains blocked_rows : ℕ)
      → (save_status_data succeeds s m).1 ≡ true
      → domains < u64_mod
      → blocked_rows < u64_mod
      → (let loaded =
            load_status_data (save_status_data succeeds s m).0 domains blocked_rows new_item in
          (loaded.total_request ≡ (if s.total_request == 0 then domains else s.total_request))
          × (loaded.total_blocked_request
              ≡ (if s.total_blocked_request == 0 then blocked_rows else s.total_blocked_request))
          × (loaded.total_failed_request ≡ s.total_failed_request))
  unfolding load_status_data
  load-save succeeds domains blocked_rows done d b = rw (save_status_data_done succeeds done) (
    ap (λ n. (0 + or_else_count n domains) % u64_mod) loaded_total ∙ ground arith,
    ap (λ n. (0 + or_else_count n blocked_rows) % u64_mod) loaded_blocked ∙ ground arith,
    ap (λ n. (0 + n) % u64_mod) loaded_failed ∙ omega arith,
  )
