-- ===== src/Config/RuleSet/Dedupe.antt =====
-- `dedupe_rule_set_items` keeps each item once, at its first place, and loses none.
use smartdns_plus_ui.Base.{
  Bool, true, false, not, ◌&&◌, ◌||◌, List, [], ◌∷◌, ◌++◌, ◌≡◌, refl, ap, ◌∙◌, arith, inl, inr,
  if◌then◌else◌, Bool-cases, filter, is_empty, Text, text_eq, text_eq_iff, text_eq_refl,
}
use smartdns_plus_ui.Config.RuleSet.{
  contains_item, dedupe_from, dedupe_rule_set_items, updated_items, normalize_rule_set_items,
}

-- no item twice
abbrev pub is_unique : List Text → Bool
is_unique [] = true
is_unique (x ∷ xs) = not (contains_item xs x) && is_unique xs

contains-dedupe_from :
    (items seen : List Text) (x : Text)
    → contains_item seen x ≡ false
    → contains_item (dedupe_from seen items) x ≡ contains_item items x
unfolding dedupe_from
contains-dedupe_from [] seen x h = refl
contains-dedupe_from (y ∷ items) seen x h = elim (Bool-cases (contains_item seen y)) [
  | inl old ↦ elim (Bool-cases (text_eq x y)) [
    | inl same ↦ absurd (cc ((text_eq_iff x y).0 same))
    | inr other ↦ rw (old, other) (contains-dedupe_from items seen x h)
  ]
  | inr new ↦ elim (Bool-cases (text_eq x y)) [
    | inl same ↦ rw (new, same) refl
    | inr other ↦ rw (new, other) (contains-dedupe_from items (y ∷ seen) x (rw other h))
  ]
]

not-contains-dedupe_from :
    (items seen : List Text) (x : Text)
    → contains_item seen x ≡ true
    → contains_item (dedupe_from seen items) x ≡ false
unfolding dedupe_from
not-contains-dedupe_from [] seen x h = refl
not-contains-dedupe_from (y ∷ items) seen x h = elim (Bool-cases (contains_item seen y)) [
  | inl old ↦ rw old (not-contains-dedupe_from items seen x h)
  | inr new ↦ elim (Bool-cases (text_eq x y)) [
    | inl same ↦ absurd (cc ((text_eq_iff x y).0 same))
    | inr other ↦ rw (new, other) (not-contains-dedupe_from items (y ∷ seen) x (rw other h))
  ]
]

is_unique-dedupe_from : (items seen : List Text) → is_unique (dedupe_from seen items) ≡ true
unfolding dedupe_from
is_unique-dedupe_from [] seen = refl
is_unique-dedupe_from (y ∷ items) seen = elim (Bool-cases (contains_item seen y)) [
  | inl old ↦ rw old (is_unique-dedupe_from items seen)
  | inr new ↦ rw new (
      ground (
        arith,
        not-contains-dedupe_from items (y ∷ seen) y (rw (text_eq_refl y) refl),
        is_unique-dedupe_from items (y ∷ seen),
      ))
]

any-append :
    (xs ys : List Text) (x : Text)
    → contains_item (xs ++ ys) x ≡ (contains_item xs x || contains_item ys x)
any-append [] ys x = refl
any-append (y ∷ xs) ys x = ground (arith, any-append xs ys x)

contains-filter :
    (removed xs : List Text) (x : Text)
    → contains_item (filter (λ item. not (contains_item removed item)) xs) x
      ≡ (contains_item xs x && not (contains_item removed x))
contains-filter removed [] x = refl
contains-filter removed (y ∷ xs) x = elim (Bool-cases (text_eq x y)) [
  | inl same ↦
      let e = (text_eq_iff x y).0 same in
      ground (arith, contains-filter removed xs x, ap (contains_item removed) e)
  | inr other ↦ ground (arith, contains-filter removed xs x)
]

-- After an update every item stands once; an item is there exactly when it was in the file and
-- is not to be removed, or is to be added. Requests are read after trimming, without blank items
-- and comments.
pub updated_items_lem :
    (items remove add : List Text) (x : Text)
    → (is_unique (updated_items items remove add) ≡ true)
      × (contains_item (updated_items items remove add) x ≡ (
          contains_item items x && not (contains_item (normalize_rule_set_items remove) x)
          || contains_item (normalize_rule_set_items add) x))
unfolding updated_items dedupe_rule_set_items
updated_items_lem items remove add x = (
  is_unique-dedupe_from _ [],
  contains-dedupe_from _ [] x refl ∙ go (normalize_rule_set_items remove),
)
  where
    go :
        (removed : List Text)
        → contains_item
            ((if is_empty removed
                then items
                else filter (λ item. not (contains_item removed item)) items)
              ++ normalize_rule_set_items add)
            x
          ≡ (contains_item items x && not (contains_item removed x)
              || contains_item (normalize_rule_set_items add) x)
    go [] = ground (arith, any-append items (normalize_rule_set_items add) x)
    go (r ∷ removed) = ground (
      arith,
      any-append (filter (λ item. not (contains_item (r ∷ removed) item)) items)
          (normalize_rule_set_items add) x,
      contains-filter (r ∷ removed) items x,
    )
