-- ===== src/Config/Include/Ends.antt =====
-- `collect_config_sources` of src/config_ui.rs ends, and reads every file that is included.
use smartdns_plus_ui.Base.{
  ℕ, zero, suc, ◌<◌, true, false, List, [], ◌∷◌, map, append-nil, ◌≡◌, refl, ◌∙◌, sym, ap, subst,
  Option, none, some, all, is_some, length, length-map, All, all-All, Bool-cases, Option-cases, inl,
  inr, Text, arith,
}
use smartdns_plus_ui.Config.RuleSet.{contains_item}
use smartdns_plus_ui.Config.RuleSet.Dedupe.{is_unique}
use smartdns_plus_ui.Config.Include.{
  Disk, Include, visit_key, Collecting, Outcome, collected, failed, out_of_fuel, and_then,
  collect_each, includes_of, push_source, collect_config_source_recursive, collect_config_sources,
}
use smartdns_plus_ui.Config.Include.Visited.{left, left-le, left-lt, left-le-length}
use smartdns_plus_ui.Config.Include.Places.{
  is_place, all-is_place, key_of, contains_item-is_place, source_key, place_of, covers, IsComplete,
  IsRead,
}
use smartdns_plus_ui.Config.Include.Added.{
  IsGood, After, After-cons, After-source, push_source-IsGood,
}

module _ (disk : Disk) where
  collect_old :
      (fuel : ℕ) (path : Text) (group : Option Text) (c : Collecting)
      → contains_item c.visited (visit_key (disk.canonicalize path) group) ≡ true
      → collect_config_source_recursive disk (suc fuel) path group c ≡ collected c
  unfolding collect_config_source_recursive
  collect_old fuel path group c h = rw (h, collect_config_source_recursive) refl

  collect_unreadable :
      (fuel : ℕ) (path : Text) (group : Option Text) (c : Collecting)
      → contains_item c.visited (visit_key (disk.canonicalize path) group) ≡ false
      → disk.read (disk.canonicalize path) ≡ none
      → collect_config_source_recursive disk (suc fuel) path group c ≡ failed
  unfolding collect_config_source_recursive
  collect_unreadable fuel path group c h e = rw (h, collect_config_source_recursive) (rw e refl)

  collect_new :
      (fuel : ℕ) (path : Text) (group : Option Text) (c : Collecting) (text : Text)
      → contains_item c.visited (visit_key (disk.canonicalize path) group) ≡ false
      → disk.read (disk.canonicalize path) ≡ some text
      → collect_config_source_recursive disk (suc fuel) path group c
        ≡ collect_each
            (collect_config_source_recursive disk fuel)
            (includes_of disk (disk.canonicalize path) text)
            (push_source disk (disk.canonicalize path) group text c)
  unfolding collect_config_source_recursive
  collect_new fuel path group c text h e = rw (h, collect_config_source_recursive) (rw e refl)

  module _ (places : List Include) where
    abbrev Ends : List Text → Collecting → Outcome → Type 0
    Ends ks c (collected later) = After disk ks c later
    Ends ks c failed = all (λ p. is_some (disk.read p.0)) places ≡ false
    Ends ks c out_of_fuel = ⊥

    -- what is known of a call with so much fuel
    abbrev Collects : (Text → Option Text → Collecting → Outcome) → ℕ → Type 0
    Collects collect fuel =
        (path : Text) (group : Option Text) (c : Collecting)
        → IsGood disk c
        → is_place places (place_of disk (path, group)) ≡ true
        → left (map key_of places) c.visited < fuel
        → Ends (key_of (place_of disk (path, group)) ∷ []) c (collect path group c)

    Ends-cons :
        (k : Text) (ks : List Text) (c mid : Collecting)
        → After disk (k ∷ []) c mid
        → (o : Outcome) → Ends ks mid o
        → Ends (k ∷ ks) c o
    Ends-cons k ks c mid a (collected later) b = After-cons disk k ks c mid later a b
    Ends-cons k ks c mid a failed b = b
    Ends-cons k ks c mid a out_of_fuel b = b

    and_then-Ends :
        (k : Text) (ks : List Text) (c : Collecting) (next : Collecting → Outcome) (o : Outcome)
        → Ends (k ∷ []) c o
        → ((mid : Collecting) → After disk (k ∷ []) c mid → Ends ks mid (next mid))
        → Ends (k ∷ ks) c (and_then o next)
    and_then-Ends k ks c next (collected mid) h more =
        Ends-cons k ks c mid h (next mid) (more mid h)
    and_then-Ends k ks c next failed h more = h
    and_then-Ends k ks c next out_of_fuel h more = h

    collect_each-Ends :
        (collect : Text → Option Text → Collecting → Outcome) (fuel : ℕ)
        → Collects collect fuel
        → (includes : List Include) (c : Collecting) → IsGood disk c
        → All (λ inc. is_place places (place_of disk inc) ≡ true) includes
        → left (map key_of places) c.visited < fuel
        → Ends
            (map (λ inc. key_of (place_of disk inc)) includes)
            c
            (collect_each collect includes c)
    unfolding collect_each
    collect_each-Ends collect fuel h [] c g e lt = record {
      good = g;
      grows = λ k visited. visited;
      has = tt;
      added = [];
      items = sym (append-nil c.items);
      complete = tt;
    }
    collect_each-Ends collect fuel h ((path, group) ∷ includes) c g e lt =
        and_then-Ends (key_of (place_of disk (path, group)))
          (map (λ inc. key_of (place_of disk inc)) includes) c (collect_each collect includes)
          (collect path group c) (h path group c g e.0 lt)
          λ mid a.
            let fewer = left-le (map key_of places) c.visited mid.visited a.grows in
            collect_each-Ends collect fuel h includes mid a.good e.1 (omega arith)

    source-Ends :
        (canonical : Text) (group : Option Text) (text : Text) (c : Collecting) (o : Outcome)
        → Ends
            (map (λ inc. key_of (place_of disk inc)) (includes_of disk canonical text))
            (push_source disk canonical group text c)
            o
        → Ends (visit_key canonical group ∷ []) c o
    source-Ends canonical group text c (collected later) h =
        After-source disk canonical group text c later h
    source-Ends canonical group text c failed h = h
    source-Ends canonical group text c out_of_fuel h = h

    unreadable_place :
        (place : Include)
        → is_place places place ≡ true
        → disk.read place.0 ≡ none
        → all (λ p. is_some (disk.read p.0)) places ≡ false
    unreadable_place place e unreadable =
        elim (Bool-cases (all (λ p. is_some (disk.read p.0)) places)) [
          | inl readable ↦
              let readable_here =
                all-is_place (λ p. is_some (disk.read p.0)) places place readable e in
              absurd (cc (ap (λ (o : Option Text). is_some o) unreadable, readable_here))
          | inr some_unreadable ↦ some_unreadable
        ]

    -- Every place is read with its includes among the places.
    module _ (covered : all (covers disk places) places ≡ true) where
      covered_includes :
          (place : Include) (text : Text)
          → is_place places place ≡ true
          → disk.read place.0 ≡ some text
          → All (λ inc. is_place places (place_of disk inc) ≡ true) (includes_of disk place.0 text)
      covered_includes place text e found =
          all-All (λ inc. is_place places (place_of disk inc)) (includes_of disk place.0 text)
            (sym (rw (found, covers) refl)
              ∙ all-is_place (covers disk places) places place covered e)

      collect-Collects : (fuel : ℕ) → Collects (collect_config_source_recursive disk fuel) fuel
      collect-Collects zero path group c g e lt = absurd (omega arith)
      collect-Collects (suc fuel) path group c g e lt =
          let canonical = disk.canonicalize path in
          let key = visit_key canonical group in
          elim (Bool-cases (contains_item c.visited key)) [
            | inl old ↦
                subst (Ends (key ∷ []) c) (sym (collect_old fuel path group c old)) (record {
                  good = g;
                  grows = λ k visited. visited;
                  has = (old, tt);
                  added = [];
                  items = sym (append-nil c.items);
                  complete = tt;
                })
            | inr new ↦ elim (Option-cases (disk.read canonical)) [
              | inl unreadable ↦
                  subst (Ends (key ∷ []) c)
                    (sym (collect_unreadable fuel path group c new unreadable))
                    (unreadable_place (canonical, group) e unreadable)
              | inr (text, found) ↦
                  let includes = includes_of disk canonical text in
                  let begun = push_source disk canonical group text c in
                  let fewer =
                    left-lt (map key_of places) c.visited key
                      (contains_item-is_place places (canonical, group) e) new in
                  subst (Ends (key ∷ []) c) (sym (collect_new fuel path group c text new found)) (
                    source-Ends canonical group text c
                      (collect_each (collect_config_source_recursive disk fuel) includes begun)
                      (collect_each-Ends (collect_config_source_recursive disk fuel) fuel
                        (collect-Collects fuel) includes begun
                        (push_source-IsGood disk canonical group text c g new found)
                        (covered_includes (canonical, group) text e found) (omega arith)))
            ]
          ]

  -- What is collected: the main file, no file twice under the same group, each file with the text that is read of
  -- it, and with every file every include of it. A failure is a file that could not be read.
  abbrev pub CollectsAll : Text → List Include → Outcome → Type 0
  CollectsAll config_file places (collected c) =
      (contains_item (map source_key c.items) (key_of (disk.canonicalize config_file, none)) ≡ true)
      × (is_unique (map source_key c.items) ≡ true)
      × All (IsRead disk) c.items
      × All (IsComplete disk (map source_key c.items)) c.items
  CollectsAll config_file places failed = all (λ p. is_some (disk.read p.0)) places ≡ false
  CollectsAll config_file places out_of_fuel = ⊥

  CollectsAll-Ends :
      (config_file : Text) (places : List Include) (o : Outcome)
      → Ends places
          (key_of (disk.canonicalize config_file, none) ∷ [])
          (record { visited = []; items = [] })
          o
      → CollectsAll config_file places o
  CollectsAll-Ends config_file places (collected c) a = (
    subst (λ l. contains_item l (key_of (disk.canonicalize config_file, none)) ≡ true) a.good.keys
        a.has.0,
    ap is_unique (sym a.good.keys) ∙ a.good.unique,
    a.good.texts,
    subst (λ l. All (IsComplete disk l) c.items) a.good.keys
        (subst (λ l. All (IsComplete disk c.visited) l) (sym a.items) a.complete),
  )
  CollectsAll-Ends config_file places failed h = h
  CollectsAll-Ends config_file places out_of_fuel h = h

  -- Files that include one another, in a ring as well, are collected with fuel for more than the
  -- places there are, paths with the group that they are included with: the main file is read,
  -- and every file that a file which is read includes, none twice under the same group; each source
  -- has the text of its file; and where the collection fails, one of the files could not be read.
  pub collect_config_sources_ends :
      (fuel : ℕ) (config_file : Text) (places : List Include)
      → all (covers disk places) places ≡ true
      → is_place places (disk.canonicalize config_file, none) ≡ true
      → length places < fuel
      → CollectsAll config_file places (collect_config_sources disk fuel config_file)
  unfolding collect_config_sources
  collect_config_sources_ends fuel config_file places covered e lt =
      let bound = left-le-length (map key_of places) [] in
      let same = length-map places key_of in
      CollectsAll-Ends config_file places
        (collect_config_source_recursive disk fuel config_file none
          (record { visited = []; items = [] }))
        (collect-Collects places covered fuel config_file none (record { visited = []; items = [] })
          (record { keys = refl; unique = refl; texts = tt }) e (omega arith))
