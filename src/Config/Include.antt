-- ===== src/Config/Include.antt =====
-- `collect_config_sources` of src/config_ui.rs: the main configuration and what it includes.
pub mod Visited
pub mod Places
pub mod Added
pub mod Ends
use smartdns_plus_ui.Base.{
  ℕ, zero, suc, Bool, true, false, ◌||◌, not, List, [], ◌∷◌, ◌++◌, Option, none, some,
  if◌then◌else◌, unwrap_or, is_empty, filter_map, Text, codes, text_eq,
}
use smartdns_plus_ui.Config.Model.{ConfigSource}
use smartdns_plus_ui.Config.Lines.{directives, first_word, parse_named_option}
use smartdns_plus_ui.Config.Paths.{resolve_include_path}
use smartdns_plus_ui.Config.RuleSet.{contains_item}

-- a path that is included, and the group it is included with
abbrev pub Include : Type 0
Include = Text × Option Text

abbrev pub visit_key : Text → Option Text → Text
visit_key canonical implicit_group = canonical ++ (codes "::" ++ unwrap_or implicit_group [])

-- the set of keys and the sources, both in the order of insertion
pub record Collecting : Type 0 where
  pub visited : List Text
  pub items : List ConfigSource

pub data Outcome : Type 0 where
  collected : Collecting → Outcome
  failed : Outcome
  out_of_fuel : Outcome

-- `?`: what is done after a call that did not fail
abbrev pub and_then : Outcome → (Collecting → Outcome) → Outcome
and_then (collected c) next = next c
and_then failed next = failed
and_then out_of_fuel next = out_of_fuel

-- the loop over the includes of a file, each collected by `collect`
unfoldable pub collect_each :
    (Text → Option Text → Collecting → Outcome) → List Include → Collecting → Outcome
collect_each collect [] c = collected c
collect_each collect ((path, group) ∷ includes) c =
    and_then (collect path group c) (collect_each collect includes)

-- The files: `canonicalize` is `fs::canonicalize`, with the path itself where that fails, `exists`
-- is `Path::exists`, and `read` is `read_text_or_default`, with `none` for an error.
pub record Disk : Type 0 where
  pub canonicalize : Text → Text
  pub exists : Text → Bool
  pub read : Text → Option Text

module _ (disk : Disk) where
  unfoldable pub include_of : Text → Text × Text → Option Include
  unfolding text_eq first_word parse_named_option resolve_include_path
  include_of canonical (key, value) =
      let include_path = resolve_include_path canonical (first_word value) in
      if not (text_eq key (codes "conf-file")) || is_empty value
      then none
      else if disk.exists include_path
      then some (include_path, parse_named_option value (codes "-group"))
      else none

  unfoldable pub includes_of : Text → Text → List Include
  unfolding include_of directives
  includes_of canonical text = filter_map (include_of canonical) (directives text)

  -- a source that is read for the first time
  abbrev pub push_source : Text → Option Text → Text → Collecting → Collecting
  push_source canonical group text c = record {
    visited = c.visited ++ visit_key canonical group ∷ [];
    items = c.items ++ record { path = canonical; text = text; implicit_group = group } ∷ [];
  }

  -- the fuel bounds the depth of includes
  unfoldable pub collect_config_source_recursive : ℕ → Text → Option Text → Collecting → Outcome
  unfolding includes_of collect_each text_eq
  collect_config_source_recursive zero path group c = out_of_fuel
  collect_config_source_recursive (suc fuel) path group c =
      let canonical = disk.canonicalize path in
      elim (contains_item c.visited (visit_key canonical group)) [
        | true ↦ collected c
        | false ↦ elim (disk.read canonical) [
          | none ↦ failed
          | some text ↦
              collect_each (collect_config_source_recursive fuel) (includes_of canonical text)
                (push_source canonical group text c)
        ]
      ]

  unfoldable pub collect_config_sources : ℕ → Text → Outcome
  unfolding collect_config_source_recursive
  collect_config_sources fuel config_file =
      collect_config_source_recursive fuel config_file none (record { visited = []; items = [] })
