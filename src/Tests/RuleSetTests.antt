-- ===== src/Tests/RuleSetTests.antt =====
-- The rule-set files of src/config_ui.rs on small inputs.
use smartdns_plus_ui.Base.{
  none, ℕ, get_elem?, ltb, if◌then◌else◌, ◌+◌, ◌<◌, ◌≡◌, refl, arith, true, not, ◌&&◌, ◌||◌, List,
  [], ◌∷◌, ◌++◌, length, take, drop, is_empty, All, Text, codes, is_whitespace, drop_while,
  drop_end, starts_with, trim,
}
use smartdns_plus_ui.Base.Word.{u64_mod}
use smartdns_plus_ui.Config.RuleSet.{
  contains_item, normalize_rule_set_items, read_rule_set_items, render_rule_set_items,
  updated_items, matching, detail_page,
}
use smartdns_plus_ui.Config.RuleSet.Dedupe.{is_unique, updated_items_lem}
use smartdns_plus_ui.Config.RuleSet.File.{IsClean, read-render, detail_page_lem}

abbrev in_file : List Text
in_file = codes "a.example" ∷ codes "b.example" ∷ codes "a.example" ∷ []

updated_items_lem_example :
    (is_unique (updated_items in_file (codes " b.example" ∷ []) (codes "c.example" ∷ [])) ≡ true)
    × (contains_item
          (updated_items in_file (codes " b.example" ∷ []) (codes "c.example" ∷ []))
          (codes "b.example")
        ≡ (contains_item in_file (codes "b.example")
              && not (
                  contains_item
                    (normalize_rule_set_items (codes " b.example" ∷ []))
                    (codes "b.example"))
            || contains_item
                (normalize_rule_set_items (codes "c.example" ∷ []))
                (codes "b.example")))
updated_items_lem_example =
    updated_items_lem in_file (codes " b.example" ∷ []) (codes "c.example" ∷ []) (codes "b.example")

in_file-IsClean : All IsClean in_file
unfolding is_whitespace drop_while drop_end starts_with
in_file-IsClean = (
  record { line = refl; trimmed = refl; entry = refl },
  (
    record { line = refl; trimmed = refl; entry = refl },
    (record { line = refl; trimmed = refl; entry = refl }, tt),
  ),
)

read-render_example : read_rule_set_items (render_rule_set_items in_file) ≡ in_file
read-render_example = read-render in_file in_file-IsClean

in_file-short : length (matching (λ t. t) (trim []) in_file) < u64_mod
unfolding matching drop_while drop_end
in_file-short = omega arith

detail_page_lem_example :
    (let page = detail_page (λ t. t) [] 1 1 in_file in
      let filtered = matching (λ t. t) (trim []) in_file in
      (page.limit ≡ 1)
      × ((i : ℕ)
          → get_elem? page.items i
            ≡ (if ltb i page.limit then get_elem? filtered (1 + i) else none))
      × (take 1 filtered ++ page.items ≡ take (1 + length page.items) filtered)
      × (page.has_more ≡ not (is_empty (drop (1 + length page.items) filtered))))
detail_page_lem_example = detail_page_lem (λ t. t) [] 1 1 in_file in_file-short
