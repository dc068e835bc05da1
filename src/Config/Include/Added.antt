-- ===== src/Config/Include/Added.antt =====
-- What a call of `collect_config_source_recursive` (src/config_ui.rs) adds to the sources.
use smartdns_plus_ui.Base.{
  true, false, List, [], ◌∷◌, ◌++◌, map, map-append, append_assoc, ◌≡◌, ◌∙◌, sym, ap, Option, some,
  All, All-append, All-map_lem, Text,
}
use smartdns_plus_ui.Config.Model.{ConfigSource}
use smartdns_plus_ui.Config.RuleSet.{contains_item}
use smartdns_plus_ui.Config.RuleSet.Dedupe.{is_unique}
use smartdns_plus_ui.Config.Include.{Disk, visit_key, Collecting, includes_of, push_source}
use smartdns_plus_ui.Config.Include.Visited.{
  is_unique-append, Grows, append-Grows, contains_item-append_last,
}
use smartdns_plus_ui.Config.Include.Places.{
  key_of, All-of_map, source_key, place_of, IsComplete, IsRead,
}

module _ (disk : Disk) where
  pub record IsGood (c : Collecting) : Type 0 where
    pub keys : c.visited ≡ map source_key c.items
    pub unique : is_unique c.visited ≡ true
    pub texts : All (IsRead disk) c.items

  -- what was added, once the keys were dealt with
  pub record After (ks : List Text) (c later : Collecting) : Type 0 where
    pub good : IsGood later
    pub grows : Grows c.visited later.visited
    pub has : All (λ k. contains_item later.visited k ≡ true) ks
    pub added : List ConfigSource
    pub items : later.items ≡ c.items ++ added
    pub complete : All (IsComplete disk later.visited) added

  pub push_source-IsGood :
      (canonical : Text) (group : Option Text) (text : Text) (c : Collecting)
      → IsGood c
      → contains_item c.visited (visit_key canonical group) ≡ false
      → disk.read canonical ≡ some text
      → IsGood (push_source disk canonical group text c)
  push_source-IsGood canonical group text c g new e =
      let source : ConfigSource = record {
        path = canonical;
        text = text;
        implicit_group = group;
      } in
      record {
        keys =
            ap (λ (l : List Text). l ++ visit_key canonical group ∷ []) g.keys
            ∙ sym (map-append source_key c.items (source ∷ []));
        unique = is_unique-append c.visited (visit_key canonical group) g.unique new;
        texts = All-append (IsRead disk) c.items (source ∷ []) g.texts (e, tt);
      }

  IsComplete-Grows :
      (visited later : List Text)
      → Grows visited later
      → (source : ConfigSource) → IsComplete disk visited source
      → IsComplete disk later source
  IsComplete-Grows visited later grows source =
      All-map_lem (λ inc. contains_item visited (key_of (place_of disk inc)) ≡ true)
        (λ inc. contains_item later (key_of (place_of disk inc)) ≡ true)
        (λ inc. grows (key_of (place_of disk inc))) (includes_of disk source.path source.text)

  pub After-cons :
      (k : Text) (ks : List Text) (c mid later : Collecting)
      → After (k ∷ []) c mid
      → After ks mid later
      → After (k ∷ ks) c later
  After-cons k ks c mid later a b = record {
    good = b.good;
    grows = λ x h. b.grows x (a.grows x h);
    has = (b.grows k a.has.0, b.has);
    added = a.added ++ b.added;
    items =
        b.items
        ∙ ap (λ (l : List ConfigSource). l ++ b.added) a.items
        ∙ append_assoc c.items a.added b.added;
    complete =
        All-append (IsComplete disk later.visited) a.added b.added
          (All-map_lem (IsComplete disk mid.visited) (IsComplete disk later.visited)
            (IsComplete-Grows mid.visited later.visited b.grows) a.added a.complete)
          b.complete;
  }

  -- the source itself, and what its includes brought
  pub After-source :
      (canonical : Text) (group : Option Text) (text : Text) (c later : Collecting)
      → After
          (map (λ inc. key_of (place_of disk inc)) (includes_of disk canonical text))
          (push_source disk canonical group text c)
          later
      → After (visit_key canonical group ∷ []) c later
  After-source canonical group text c later a =
      let source : ConfigSource = record {
        path = canonical;
        text = text;
        implicit_group = group;
      } in
      record {
        good = a.good;
        grows = λ x h. a.grows x (append-Grows c.visited (visit_key canonical group ∷ []) x h);
        has = (
          a.grows (visit_key canonical group)
              (contains_item-append_last c.visited (visit_key canonical group)),
          tt,
        );
        added = source ∷ a.added;
        items = a.items ∙ append_assoc c.items (source ∷ []) a.added;
        complete = (
          All-of_map (λ k. contains_item later.visited k ≡ true) (λ inc. key_of (place_of disk inc))
              (includes_of disk canonical text) a.has,
          a.complete,
        );
      }
