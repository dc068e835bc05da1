-- ===== src/Config/Managed.antt =====
-- `parse_managed_assets_from_text` of src/config_ui.rs: the reader of the managed files.
use smartdns_plus_ui.Base.{
  Bool, List, [], ◌∷◌, ◌++◌, Option, none, some, if◌then◌else◌, any, unwrap_or, is_empty, Text,
  codes, text_eq,
}
use smartdns_plus_ui.Config.Model.{ManagedRuleGroup, ManagedAssets, no_assets}
use smartdns_plus_ui.Config.Lines.{
  directives, parse_named_option, first_word, split_target_options, split_target_value,
}

-- the vectors being filled, and the group that is open
pub record ParseState : Type 0 where
  pub assets : ManagedAssets
  pub in_group : Option ManagedRuleGroup

abbrev pub one_of : Text → List Text → Bool
one_of key names = any (text_eq key) names

abbrev pub ip_rule_keys : List Text
ip_rule_keys =
    codes "ip-rules"
    ∷ codes "whitelist-ip"
    ∷ codes "blacklist-ip"
    ∷ codes "ignore-ip"
    ∷ codes "bogus-nxdomain"
    ∷ codes "ip-alias"
    ∷ []

abbrev pub routing_keys : List Text
routing_keys = codes "nameserver" ∷ codes "domain-rules" ∷ codes "address" ∷ codes "cname" ∷ []

group_name_of : Option ManagedRuleGroup → Text
group_name_of none = []
group_name_of (some g) = g.name

begin_group : Text → ManagedRuleGroup
begin_group value = record {
  name = first_word value;
  inherit = unwrap_or (parse_named_option value (codes "-inherit")) [];
  matchers = [];
}

push_match : Text → Option ManagedRuleGroup → Option ManagedRuleGroup
push_match value none = none
push_match value (some g) = some (record g { matchers = g.matchers ++ value ∷ [] })

-- `rule_groups.push(group)`, if a group is open
push_group : Option ManagedRuleGroup → ManagedAssets → ManagedAssets
push_group none a = a
push_group (some g) a = record a { rule_groups = a.rule_groups ++ g ∷ [] }

push_client_rule : Text → Option ManagedRuleGroup → ManagedAssets → ManagedAssets
push_client_rule value g a = record a {
  client_rules = a.client_rules ++ record { matcher = value; group_name = group_name_of g } ∷ [];
}

push_ip_rule : Text → Text → Option ManagedRuleGroup → ManagedAssets → ManagedAssets
push_ip_rule key value g a =
    let split = split_target_options value in
    record a {
      ip_rules =
          a.ip_rules
          ++ record {
            rule_type = key;
            target = split.0;
            options = split.1;
            group_name = group_name_of g;
          }
            ∷ [];
    }

push_routing_item : Text → Text → ManagedAssets → ManagedAssets
push_routing_item key value a =
    let split = split_target_value value in
    record a {
      routing_items =
          a.routing_items ++ record { rule_type = key; target = split.0; value = split.1 } ∷ [];
    }

unfoldable pub push_domain_set : Text → ManagedAssets → ManagedAssets
push_domain_set value a =
    let name = unwrap_or (parse_named_option value (codes "-name")) [] in
    let file = unwrap_or (parse_named_option value (codes "-file")) [] in
    let set_type = unwrap_or (parse_named_option value (codes "-type")) (codes "list") in
    if is_empty name then a else record a {
      domain_sets = a.domain_sets ++ record { name = name; file = file; set_type = set_type } ∷ [];
    }

unfoldable pub push_ip_set : Text → ManagedAssets → ManagedAssets
push_ip_set value a =
    let name = unwrap_or (parse_named_option value (codes "-name")) [] in
    let file = unwrap_or (parse_named_option value (codes "-file")) [] in
    if is_empty name
    then a
    else record a { ip_sets = a.ip_sets ++ record { name = name; file = file } ∷ [] }

-- the `match key` of the loop
unfoldable pub parse_step : ParseState → Text × Text → ParseState
unfolding text_eq group_name_of begin_group push_match push_group push_client_rule push_ip_rule
    push_routing_item
parse_step s (key, value) =
    if text_eq key (codes "group-begin")
    then record s { in_group = some (begin_group value) }
    else if text_eq key (codes "group-match")
    then record s { in_group = push_match value s.in_group }
    else if text_eq key (codes "group-end")
    then record { assets = push_group s.in_group s.assets; in_group = none }
    else if text_eq key (codes "client-rules")
    then record s { assets = push_client_rule value s.in_group s.assets }
    else if one_of key ip_rule_keys
    then record s { assets = push_ip_rule key value s.in_group s.assets }
    else if one_of key routing_keys
    then record s { assets = push_routing_item key value s.assets }
    else if text_eq key (codes "domain-set")
    then record s { assets = push_domain_set value s.assets }
    else if text_eq key (codes "ip-set")
    then record s { assets = push_ip_set value s.assets }
    else s

unfoldable pub parse_loop : ParseState → List (Text × Text) → ManagedAssets
unfolding push_group
parse_loop s [] = push_group s.in_group s.assets
parse_loop s (d ∷ ds) = parse_loop (parse_step s d) ds

unfoldable pub parse_managed_assets_from_text : Text → ManagedAssets
unfolding parse_loop directives
parse_managed_assets_from_text text =
    parse_loop (record { assets = no_assets; in_group = none }) (directives text)
