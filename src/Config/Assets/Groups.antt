-- ===== src/Config/Assets/Groups.antt =====
-- `build_rule_group_assets` of src/config_ui.rs.
use smartdns_plus_ui.Base.{
  ◌+◌, Bool, ◌&&◌, List, [], ◌∷◌, ◌++◌, Option, none, some, if◌then◌else◌, is_empty, is_some,
  flat_map, unwrap_or, Text, codes, text_eq,
}
use smartdns_plus_ui.Config.Model.{RuleGroupAsset, ConfigSource}
use smartdns_plus_ui.Config.Lines.{directives, first_word, parse_named_option}

-- an asset with no matcher and no rule yet; a pending group has the same fields
abbrev pub new_group : Text → Text → Text → Text → RuleGroupAsset
new_group name inherit source include_file = record {
  name = name;
  inherit = inherit;
  source = source;
  include_file = include_file;
  matchers = [];
  rule_count = 0;
}

unfoldable pub begun_group : Text → Text → RuleGroupAsset
unfolding first_word parse_named_option
begun_group path value =
    new_group (first_word value) (unwrap_or (parse_named_option value (codes "-inherit")) []) path
      []

-- the first pass: the groups that are declared
unfoldable pub declared_groups : Text → Text × Text → List RuleGroupAsset
unfolding text_eq begun_group first_word parse_named_option
declared_groups path (key, value) =
    if text_eq key (codes "group-begin")
    then begun_group path value ∷ []
    else if text_eq key (codes "conf-file")
    then elim (parse_named_option value (codes "-group")) [
      | none ↦ []
      | some group_name ↦ new_group group_name [] path (first_word value) ∷ []
    ]
    else []

-- the second pass: the stack of pending groups, its last group first, and the groups that ended
pub record Realizing : Type 0 where
  pub realized : List RuleGroupAsset
  pub stack : List RuleGroupAsset

abbrev pub on_last : (RuleGroupAsset → RuleGroupAsset) → List RuleGroupAsset → List RuleGroupAsset
on_last f [] = []
on_last f (g ∷ gs) = f g ∷ gs

abbrev pub pop_group : List RuleGroupAsset → List RuleGroupAsset → Realizing
pop_group realized [] = record { realized = realized; stack = [] }
pop_group realized (g ∷ gs) = record { realized = realized ++ g ∷ []; stack = gs }

unfoldable pub realize_step : Text → Realizing → Text × Text → Realizing
unfolding text_eq begun_group
realize_step path r (key, value) =
    if text_eq key (codes "group-begin")
    then record r { stack = begun_group path value ∷ r.stack }
    else if text_eq key (codes "group-match")
    then record r {
      stack =
          on_last (λ (g : RuleGroupAsset). record g { matchers = g.matchers ++ value ∷ [] })
            r.stack;
    }
    else if text_eq key (codes "group-end")
    then pop_group r.realized r.stack
    else record r {
      stack = on_last (λ (g : RuleGroupAsset). record g { rule_count = g.rule_count + 1 }) r.stack;
    }

unfoldable pub realize_lines : Text → Realizing → List (Text × Text) → Realizing
unfolding realize_step
realize_lines path r [] = r
realize_lines path r (d ∷ ds) = realize_lines path (realize_step path r d) ds

abbrev pub push_implicit : Text → Option Text → Realizing → Realizing
push_implicit path none r = r
push_implicit path (some name) r = record r { stack = new_group name [] path path ∷ r.stack }

unfoldable pub realize_source : Realizing → ConfigSource → Realizing
unfolding realize_lines directives
realize_source r source =
    let r' =
      realize_lines source.path (push_implicit source.path source.implicit_group r)
        (directives source.text) in
    if is_some source.implicit_group then pop_group r'.realized r'.stack else r'

unfoldable pub realize : Realizing → List ConfigSource → Realizing
unfolding realize_source
realize r [] = r
realize r (source ∷ sources) = realize (realize_source r source) sources

unfoldable pub same_group : RuleGroupAsset → RuleGroupAsset → Bool
unfolding text_eq
same_group a b =
    text_eq a.name b.name && text_eq a.source b.source && text_eq a.include_file b.include_file

-- a group that ended fills the first asset that is the same group, or is a new asset
unfoldable pub fill_asset : RuleGroupAsset → List RuleGroupAsset → List RuleGroupAsset
unfolding same_group
fill_asset dynamic [] = dynamic ∷ []
fill_asset dynamic (asset ∷ assets) =
    let more = fill_asset dynamic assets in
    if same_group asset dynamic
    then record asset {
      matchers = dynamic.matchers;
      rule_count = dynamic.rule_count;
      inherit = if is_empty asset.inherit then dynamic.inherit else asset.inherit;
    }
      ∷ assets
    else asset ∷ more

unfoldable pub fill_assets : List RuleGroupAsset → List RuleGroupAsset → List RuleGroupAsset
unfolding fill_asset
fill_assets assets [] = assets
fill_assets assets (dynamic ∷ realized) = fill_assets (fill_asset dynamic assets) realized

unfoldable pub build_rule_group_assets : List ConfigSource → List RuleGroupAsset
unfolding declared_groups realize fill_assets directives
build_rule_group_assets sources =
    fill_assets
      (flat_map
        (λ (source : ConfigSource). flat_map (declared_groups source.path) (directives source.text))
        sources)
      (realize (record { realized = []; stack = [] }) sources).realized
