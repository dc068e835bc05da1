-- ===== src/Config/Include/Visited.antt =====
-- The set of visit keys of `collect_config_sources` (src/config_ui.rs), and how many keys it lacks.
use smartdns_plus_ui.Base.{
  ℕ, ◌+◌, ◌≤◌, ◌<◌, true, false, ◌||◌, List, [], ◌∷◌, ◌++◌, ◌≡◌, refl, ◌∙◌, sym, ap, if◌then◌else◌,
  length, Bool-cases, inl, inr, Text, text_eq, text_eq_iff, text_eq_refl, arith,
}
use smartdns_plus_ui.Config.RuleSet.{contains_item}
use smartdns_plus_ui.Config.RuleSet.Dedupe.{is_unique}

pub contains_item-append :
    (xs ys : List Text) (k : Text)
    → contains_item (xs ++ ys) k ≡ (contains_item xs k || contains_item ys k)
contains_item-append [] ys k = refl
contains_item-append (x ∷ xs) ys k = ground (arith, contains_item-append xs ys k)

pub is_unique-append :
    (xs : List Text) (k : Text)
    → is_unique xs ≡ true
    → contains_item xs k ≡ false
    → is_unique (xs ++ k ∷ []) ≡ true
is_unique-append [] k u h = refl
is_unique-append (x ∷ xs) k u h = ground (
  arith,
  contains_item-append xs (k ∷ []) x,
  is_unique-append xs k,
  text_eq_iff x k,
  text_eq_iff k x,
  text_eq_refl k,
)

abbrev pub Grows : List Text → List Text → Type 0
Grows visited later = (k : Text) → contains_item visited k ≡ true → contains_item later k ≡ true

pub append-Grows : (visited ks : List Text) → Grows visited (visited ++ ks)
append-Grows visited ks k h = ground (arith, contains_item-append visited ks k)

pub contains_item-append_last :
    (visited : List Text) (k : Text) → contains_item (visited ++ k ∷ []) k ≡ true
contains_item-append_last visited k =
    ground (arith, contains_item-append visited (k ∷ []) k, text_eq_refl k)

-- how many of the keys were not visited
abbrev pub left : List Text → List Text → ℕ
left [] visited = 0
left (k ∷ ks) visited = (if contains_item visited k then 0 else 1) + left ks visited

pub left-le : (ks visited later : List Text) → Grows visited later → left ks later ≤ left ks visited
left-le [] visited later grows = omega arith
left-le (k ∷ ks) visited later grows = ground (arith, grows k, left-le ks visited later grows)

pub left-lt :
    (ks visited : List Text) (k : Text)
    → contains_item ks k ≡ true
    → contains_item visited k ≡ false
    → left ks (visited ++ k ∷ []) < left ks visited
left-lt [] visited k h new = cc
left-lt (x ∷ ks) visited k h new = elim (Bool-cases (text_eq k x)) [
  | inl same ↦
      let e : x ≡ k = sym ((text_eq_iff k x).0 same) in
      let before = ap (contains_item visited) e ∙ new in
      let later = ap (contains_item (visited ++ k ∷ [])) e ∙ contains_item-append_last visited k in
      let rest = left-le ks visited (visited ++ k ∷ []) (append-Grows visited (k ∷ [])) in
      rw (before, later) (omega arith)
  | inr other ↦ ground (arith, left-lt ks visited k, append-Grows visited (k ∷ []) x)
]

pub left-le-length : (ks visited : List Text) → left ks visited ≤ length ks
left-le-length [] visited = omega arith
left-le-length (k ∷ ks) visited = ground (arith, left-le-length ks visited)
