-- ===== src/Config/Include/Places.antt =====
-- The files that a main configuration of src/config_ui.rs includes, with their groups.
use smartdns_plus_ui.Base.{
  Bool, true, false, ◌&&◌, List, [], ◌∷◌, map, ◌≡◌, refl, ◌∙◌, ap, ap₂, Option, none, some, all,
  any, All, Bool-cases, inl, inr, &&-eq-true, Text, text_eq, text_eq_iff, arith,
}
use smartdns_plus_ui.Config.Model.{ConfigSource}
use smartdns_plus_ui.Config.RuleSet.{contains_item}
use smartdns_plus_ui.Config.Include.{Disk, Include, visit_key, includes_of}

abbrev pub same_group : Option Text → Option Text → Bool
same_group none none = true
same_group (some a) (some b) = text_eq a b
same_group _ _ = false

abbrev pub same_include : Include → Include → Bool
same_include (path, group) (other, other_group) = text_eq path other && same_group group other_group

same_group-eq : (a b : Option Text) → same_group a b ≡ true → a ≡ b
same_group-eq none none h = refl
same_group-eq (some a) (some b) h = ap (λ l. some l) ((text_eq_iff a b).0 h)
same_group-eq none (some b) h = cc
same_group-eq (some a) none h = cc

same_include-eq : (a b : Include) → same_include a b ≡ true → a ≡ b
same_include-eq (path, group) (other, other_group) h =
    let (p, g) = &&-eq-true (text_eq path other) (same_group group other_group) h in
    ap₂ (λ (x : Text) (y : Option Text). (x, y)) ((text_eq_iff path other).0 p)
      (same_group-eq group other_group g)

-- one of the places, a canonical path with a group
abbrev pub is_place : List Include → Include → Bool
is_place places place = any (same_include place) places

pub all-is_place :
    (f : Include → Bool) (places : List Include) (place : Include)
    → all f places ≡ true
    → is_place places place ≡ true
    → f place ≡ true
all-is_place f [] place h e = cc
all-is_place f (p ∷ places) place h e = elim (Bool-cases (same_include place p)) [
  | inl same ↦ ap f (same_include-eq place p same) ∙ (&&-eq-true (f p) (all f places) h).0
  | inr other ↦ all-is_place f places place (&&-eq-true (f p) (all f places) h).1 (ground arith)
]

abbrev pub key_of : Include → Text
key_of (canonical, group) = visit_key canonical group

pub contains_item-is_place :
    (places : List Include) (place : Include)
    → is_place places place ≡ true
    → contains_item (map key_of places) (key_of place) ≡ true
contains_item-is_place [] place e = cc
contains_item-is_place (p ∷ places) place e = elim (Bool-cases (same_include place p)) [
  | inl same ↦
      let e =
        (text_eq_iff (key_of place) (key_of p)).1 (ap key_of (same_include-eq place p same)) in
      rw e refl
  | inr other ↦ ground (arith, contains_item-is_place places place)
]

pub All-of_map {ℓ κ μ} :
    {A : Type ℓ} {B : Type κ} (P : B → Type μ) (f : A → B) (xs : List A)
    → All P (map f xs)
    → All (λ x. P (f x)) xs
All-of_map P f [] h = tt
All-of_map P f (x ∷ xs) h = (h.0, All-of_map P f xs h.1)

abbrev pub source_key : ConfigSource → Text
source_key source = visit_key source.path source.implicit_group

module _ (disk : Disk) where
  abbrev pub place_of : Include → Include
  place_of (path, group) = (disk.canonicalize path, group)

  -- Every include of a file that is read at one of the places is one of the places.
  abbrev pub covers : List Include → Include → Bool
  covers places (canonical, group) = elim (disk.read canonical) [
    | none ↦ true
    | some text ↦ all (λ inc. is_place places (place_of inc)) (includes_of disk canonical text)
  ]

  -- Every include of the source was visited.
  abbrev pub IsComplete : List Text → ConfigSource → Type 0
  IsComplete visited source =
      All (λ inc. contains_item visited (key_of (place_of inc)) ≡ true)
        (includes_of disk source.path source.text)

  abbrev pub IsRead : ConfigSource → Type 0
  IsRead source = disk.read source.path ≡ some source.text
