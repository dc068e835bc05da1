-- ===== src/Config/Assets/Sets.antt =====
-- `build_rule_set_assets` and `build_ip_set_assets` of src/config_ui.rs.
use smartdns_plus_ui.Base.{
  Bool, not, ◌||◌, List, [], ◌∷◌, ◌++◌, Option, none, some, if◌then◌else◌, filter_map, flat_map,
  unwrap_or, Text, codes, text_eq, contains_text,
}
use smartdns_plus_ui.Config.Model.{
  RoutingRuleItem, RuleSetAsset, RuleGroupAsset, IpRuleAsset, IpSetAsset, ConfigSource,
}
use smartdns_plus_ui.Config.Lines.{directives, parse_named_option}
use smartdns_plus_ui.Config.Assets.{parse_domain_set_value, inspect_rule_set_file, reference_text}

abbrev pub is_domain_set : RoutingRuleItem → Bool
is_domain_set item = text_eq item.rule_type (codes "domain-set")

-- a rule that names the set, as it is shown
unfoldable pub set_reference : Text → RoutingRuleItem → Option Text
unfolding text_eq contains_text reference_text
set_reference name candidate =
    if is_domain_set candidate
    then none
    else if contains_text candidate.target (codes "domain-set:" ++ name)
    then some (reference_text candidate.rule_type candidate.target candidate.value)
    else none

group_references : Text → RuleGroupAsset → List Text
unfolding contains_text
group_references marker group =
    flat_map
      (λ matcher.
        if contains_text matcher marker
        then (codes "group-match -> " ++ (group.name ++ (codes " (" ++ (matcher ++ codes ")"))))
          ∷ []
        else [])
      group.matchers

rule_references : Text → IpRuleAsset → List Text
unfolding contains_text reference_text
rule_references marker item =
    if contains_text item.target marker || contains_text item.options marker
    then reference_text item.rule_type item.target item.options ∷ []
    else []

-- `read` is `read_text_or_default`, with `none` for an error
module _ (read : Text → Option Text) where
  unfoldable pub rule_set_asset : List RoutingRuleItem → RoutingRuleItem → RuleSetAsset
  unfolding parse_domain_set_value inspect_rule_set_file set_reference
  rule_set_asset items item =
      let (set_type, file) = parse_domain_set_value item.value in
      let (rule_count, sample_items) = inspect_rule_set_file read file in
      record {
        name = item.target;
        set_type = set_type;
        file = file;
        source = item.source;
        rule_count = rule_count;
        sample_items = sample_items;
        referenced_by = filter_map (set_reference item.target) items;
      }

  unfoldable pub build_rule_set_assets : List RoutingRuleItem → List RuleSetAsset
  unfolding rule_set_asset text_eq
  build_rule_set_assets items =
      filter_map
        (λ (item : RoutingRuleItem).
          if is_domain_set item then some (rule_set_asset items item) else none)
        items

  module _ (rule_groups : List RuleGroupAsset) (ip_rules : List IpRuleAsset) where
    unfoldable pub ip_sets_of : Text → Text × Text → List IpSetAsset
    unfolding text_eq parse_named_option inspect_rule_set_file group_references rule_references
    ip_sets_of path (key, value) =
        if not (text_eq key (codes "ip-set"))
        then []
        else elim (parse_named_option value (codes "-name")) [
          | none ↦ []
          | some name ↦
              let file = unwrap_or (parse_named_option value (codes "-file")) [] in
              let (rule_count, sample_items) = inspect_rule_set_file read file in
              let marker = codes "ip-set:" ++ name in
              record {
                name = name;
                file = file;
                source = path;
                rule_count = rule_count;
                sample_items = sample_items;
                referenced_by =
                    flat_map (group_references marker) rule_groups
                    ++ flat_map (rule_references marker) ip_rules;
              }
              ∷ []
        ]

    unfoldable pub build_ip_set_assets : List ConfigSource → List IpSetAsset
    unfolding ip_sets_of directives
    build_ip_set_assets sources =
        flat_map
          (λ (source : ConfigSource). flat_map (ip_sets_of source.path) (directives source.text))
          sources
