-- ===== src/Config/RuleSet.antt =====
-- The items of a rule-set file: reading, normalising, updating, deduplicating, writing, and the
-- page of a detail request (src/config_ui.rs).
pub mod Dedupe
pub mod File
use smartdns_plus_ui.Base.Word.{u64_mod}
use smartdns_plus_ui.Base.{
  ℕ, ◌+◌, ◌-◌, Bool, true, false, not, ◌&&◌, ◌||◌, List, [], ◌∷◌, ◌++◌, map, if◌then◌else◌, ltb,
  length, take, drop, filter, any, is_empty, Text, codes, text_eq, trim, drop_while, drop_end,
  starts_with, lines, lines_from, join, contains_text,
}

abbrev pub is_item : Text → Bool
is_item line = not (is_empty line) && not (starts_with line (b'#' ∷ []))

unfoldable pub read_rule_set_items : Text → List Text
unfolding lines_from drop_while drop_end starts_with
read_rule_set_items text = filter is_item (map trim (lines text))

unfoldable pub normalize_rule_set_items : List Text → List Text
unfolding drop_while drop_end starts_with
normalize_rule_set_items items = filter is_item (map trim items)

abbrev pub contains_item : List Text → Text → Bool
contains_item items item = any (text_eq item) items

-- the loop of `dedupe_rule_set_items`, with the set of items seen
unfoldable pub dedupe_from : List Text → List Text → List Text
dedupe_from seen [] = []
dedupe_from seen (item ∷ items) =
    let old = dedupe_from seen items in
    let new = item ∷ dedupe_from (item ∷ seen) items in if contains_item seen item then old else new

unfoldable pub dedupe_rule_set_items : List Text → List Text
unfolding dedupe_from
dedupe_rule_set_items = dedupe_from []

unfoldable pub render_rule_set_items : List Text → Text
unfolding join
render_rule_set_items items = if is_empty items then [] else join (b'\n' ∷ []) items ++ b'\n' ∷ []

-- what `save_rule_set_file` and `save_ip_set_file` make of the items of the file
unfoldable pub updated_items : List Text → List Text → List Text → List Text
unfolding normalize_rule_set_items dedupe_rule_set_items
updated_items items remove add =
    let remove_items = normalize_rule_set_items remove in
    let add_items = normalize_rule_set_items add in
    let left =
      if is_empty remove_items
      then items
      else filter (λ item. not (contains_item remove_items item)) items in
    dedupe_rule_set_items (left ++ add_items)

-- `usize::saturating_add`
abbrev pub saturating_add : ℕ → ℕ → ℕ
saturating_add a b = if ltb (a + b) u64_mod then a + b else u64_mod - 1

-- the page of a detail: the items shown, their number after the filter, and `has_more`
pub record Page : Type 0 where
  pub filtered_count : ℕ
  pub limit : ℕ
  pub has_more : Bool
  pub items : List Text

-- `to_lowercase` is the Unicode mapping of the standard library
module _ (to_lowercase : Text → Text) where
  unfoldable pub matching : Text → List Text → List Text
  unfolding contains_text
  matching query items =
      if is_empty query
      then items
      else filter (λ item. contains_text (to_lowercase item) query) items

  unfoldable pub detail_page : Text → ℕ → ℕ → List Text → Page
  unfolding matching drop_while drop_end
  detail_page query offset limit all_items =
      let filtered = matching (to_lowercase (trim query)) all_items in
      let limit' = if ltb limit 1 then 1 else limit in
      let items = take limit' (drop offset filtered) in
      record {
        filtered_count = length filtered;
        limit = limit';
        has_more = ltb (saturating_add offset (length items)) (length filtered);
        items = items;
      }
