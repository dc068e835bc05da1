-- ===== src/Config/RuleSet/File.antt =====
-- Rule-set files are read back as they were written, and their details are cut into pages.
use Prim.Native.Nat.add
use smartdns_plus_ui.Base.Word.{u64_mod}
use smartdns_plus_ui.Base.{
  ℕ, zero, suc, ◌+◌, ◌<◌, true, not, List, [], ◌∷◌, ◌++◌, ◌≡◌, refl, sym, ap, ◌∙◌, arith, map,
  Option, none, if◌then◌else◌, ◌==◌, get_elem?, ltb, length, take, drop, filter, is_empty, All,
  Text, trim, is_line, lines, join, lines-join, append_assoc, append-nil,
}
use smartdns_plus_ui.Config.RuleSet.{
  is_item, read_rule_set_items, render_rule_set_items, Page, matching, detail_page, saturating_add,
}

-- what a line of the file can hold: no line break, no white space around it, no comment
pub record IsClean (item : Text) : Type 0 where
  pub line : is_line item ≡ true
  pub trimmed : trim item ≡ item
  pub entry : is_item item ≡ true

All-is_line : (items : List Text) → All IsClean items → All (λ l. is_line l ≡ true) items
All-is_line [] h = tt
All-is_line (x ∷ items) h = (h.0.line, All-is_line items h.1)

filter-map-clean : (items : List Text) → All IsClean items → filter is_item (map trim items) ≡ items
filter-map-clean [] h = refl
filter-map-clean (x ∷ items) h =
    rw (h.0.trimmed, h.0.entry) (ap (λ l. x ∷ l) (filter-map-clean items h.1))

render-join :
    (items : List Text) → render_rule_set_items items ≡ join (b'\n' ∷ []) (items ++ [] ∷ [])
unfolding render_rule_set_items join
render-join [] = refl
render-join (x ∷ []) = rw append-nil
render-join (x ∷ y ∷ items) =
    append_assoc (x ++ b'\n' ∷ []) (join (b'\n' ∷ []) (y ∷ items)) (b'\n' ∷ [])
    ∙ ap (λ (t : Text). x ++ b'\n' ∷ [] ++ t) (render-join (y ∷ items))

-- A file written from clean items is read back as these items, in order.
pub read-render :
    (items : List Text)
    → All IsClean items
    → read_rule_set_items (render_rule_set_items items) ≡ items
unfolding read_rule_set_items
read-render items h =
    ap (λ t. filter is_item (map trim (lines t))) (render-join items)
    ∙ ap (λ ls. filter is_item (map trim ls)) (lines-join items (All-is_line items h))
    ∙ filter-map-clean items h

take-nil {ℓ} : {A : Type ℓ} (n : ℕ) → take {A = A} n [] ≡ []
take-nil zero = refl
take-nil (suc n) = refl

take-length-take {ℓ} : {A : Type ℓ} (m : ℕ) (xs : List A) → take (length (take m xs)) xs ≡ take m xs
take-length-take zero xs = refl
take-length-take (suc m) [] = refl
take-length-take (suc m) (x ∷ xs) = ap (λ l. x ∷ l) (take-length-take m xs)

-- A page continues what lies before it.
take-append-page {ℓ} :
    {A : Type ℓ} (n m : ℕ) (xs : List A)
    → take n xs ++ take m (drop n xs) ≡ take (n + length (take m (drop n xs))) xs
take-append-page zero m xs = rw add.zero (sym (take-length-take m xs))
take-append-page (suc n) m [] = rw take-nil (sym (take-nil _))
take-append-page (suc n) m (x ∷ xs) = rw add.suc (ap (λ l. x ∷ l) (take-append-page n m xs))

get_elem?-take {ℓ} :
    {A : Type ℓ} (m i : ℕ) (xs : List A)
    → get_elem? (take m xs) i ≡ (if ltb i m then get_elem? xs i else none)
get_elem?-take zero i xs = ground arith
get_elem?-take (suc m) i [] = ground arith
get_elem?-take (suc m) zero (x ∷ xs) = ground arith
get_elem?-take (suc m) (suc i) (x ∷ xs) = get_elem?-take m i xs ∙ ground arith

get_elem?-drop {ℓ} :
    {A : Type ℓ} (n i : ℕ) (xs : List A) → get_elem? (drop n xs) i ≡ get_elem? xs (n + i)
get_elem?-drop zero i xs = ap (λ (j : ℕ). get_elem? xs j) (omega arith)
get_elem?-drop (suc n) i [] = refl
get_elem?-drop (suc n) i (x ∷ xs) =
    let e : suc (n + i) ≡ suc n + i = omega arith in
    get_elem?-drop n i xs ∙ ap (λ (j : ℕ). get_elem? (x ∷ xs) j) e

is_empty-drop {ℓ} :
    {A : Type ℓ} (n : ℕ) (xs : List A) → ltb n (length xs) ≡ not (is_empty (drop n xs))
is_empty-drop zero [] = refl
is_empty-drop zero (x ∷ xs) = ground arith
is_empty-drop (suc n) [] = ground arith
is_empty-drop (suc n) (x ∷ xs) = ground (arith, is_empty-drop n xs)

saturating_add-lt : (a b n : ℕ) → n < u64_mod → ltb (saturating_add a b) n ≡ ltb (a + b) n
saturating_add-lt a b n h = ground arith

module _ (to_lowercase : Text → Text) (query : Text) (offset limit : ℕ)
    (all_items : List Text) where
  abbrev page : Page
  page = detail_page to_lowercase query offset limit all_items

  abbrev filtered : List Text
  filtered = matching to_lowercase (to_lowercase (trim query)) all_items

  -- The limit of a page is the one asked for, and 1 where that is 0. The items of the page are those
  -- of the filtered list from the offset on, in order, up to the limit and as long as there are any;
  -- behind all that lies before the offset they make a prefix of the filtered list; and `has_more`
  -- is set exactly where items of the list lie behind the page. The list is shorter than 2^64.
  pub detail_page_lem :
      length filtered < u64_mod
      → (page.limit ≡ (if limit == 0 then 1 else limit))
        × ((i : ℕ)
            → get_elem? page.items i
              ≡ (if ltb i page.limit then get_elem? filtered (offset + i) else none))
        × (take offset filtered ++ page.items ≡ take (offset + length page.items) filtered)
        × (page.has_more ≡ not (is_empty (drop (offset + length page.items) filtered)))
  unfolding detail_page
  detail_page_lem h = (
    ground arith,
    λ i.
        get_elem?-take page.limit i (drop offset filtered)
        ∙ ap (λ (e : Option Text). if ltb i page.limit then e else none)
            (get_elem?-drop offset i filtered),
    take-append-page offset page.limit filtered,
    saturating_add-lt offset (length page.items) (length filtered) h
        ∙ is_empty-drop (offset + length page.items) filtered,
  )
