-- ===== src/Tests/AssetTests.antt =====
-- The views of a configuration of src/config_ui.rs on a small configuration.
use smartdns_plus_ui.Base.{
  ℕ, List, [], ◌∷◌, ◌++◌, map, ◌≡◌, refl, none, some, Text, codes, is_whitespace, lines_from,
}
use smartdns_plus_ui.Config.Model.{RuleSetAsset, RuleGroupAsset, ConfigSource}
use smartdns_plus_ui.Config.Lines.{directives, split_target_options}
use smartdns_plus_ui.Config.Managed.{parse_managed_assets_from_text}
use smartdns_plus_ui.Config.Assets.{parse_routing_items}
use smartdns_plus_ui.Config.Assets.Sets.{build_rule_set_assets}
use smartdns_plus_ui.Config.Assets.Groups.{build_rule_group_assets}
use smartdns_plus_ui.Config.Assets.Rules.{
  stack_step, build_client_rule_assets, build_ip_rule_assets,
}
use smartdns_plus_ui.Config.Assets.Rules.Agreement.{
  managed_client_rule, managed_ip_rule, build_rule_assets_agree,
}

abbrev home_text : Text
home_text =
    codes "group-begin kids -inherit none\ngroup-match -g 1\nclient-rules 10.0.0.2\n"
    ++ codes "ip-rules ip-set:cdn -whitelist-ip\ngroup-end\nbogus-nxdomain 1.2.3.4\n"

abbrev home : ConfigSource
home = record { path = codes "/etc/a.conf"; text = home_text; implicit_group = none }

build_rule_assets_agree_example :
    (map managed_client_rule (build_client_rule_assets (home ∷ []))
      ≡ (parse_managed_assets_from_text home_text).client_rules)
    × (map managed_ip_rule (build_ip_rule_assets (home ∷ []))
        ≡ (parse_managed_assets_from_text home_text).ip_rules)
unfolding directives lines_from is_whitespace stack_step
build_rule_assets_agree_example = build_rule_assets_agree (codes "/etc/a.conf") home_text refl

home_rules :
    map managed_ip_rule (build_ip_rule_assets (home ∷ []))
    ≡ record {
      rule_type = codes "ip-rules";
      target = codes "ip-set:cdn";
      options = codes "-whitelist-ip";
      group_name = codes "kids";
    }
      ∷ record {
        rule_type = codes "bogus-nxdomain";
        target = codes "1.2.3.4";
        options = [];
        group_name = [];
      }
      ∷ []
unfolding build_ip_rule_assets is_whitespace split_target_options
home_rules = refl

home_groups :
    build_rule_group_assets (home ∷ [])
    ≡ record {
      name = codes "kids";
      inherit = codes "none";
      source = codes "/etc/a.conf";
      include_file = [];
      matchers = codes "-g 1" ∷ [];
      rule_count = 2;
    }
      ∷ []
unfolding build_rule_group_assets is_whitespace
home_groups = refl

-- A file that is included with a group is a group of its own, beside the one of the `conf-file`
-- line, whose `include_file` is the word of that line and whose source is the including file.
abbrev including : List ConfigSource
including =
    record {
      path = codes "/etc/m.conf";
      text = codes "conf-file b.conf -group kids\n";
      implicit_group = none;
    }
    ∷ record {
      path = codes "/etc/b.conf";
      text = codes "address /a.com/#\n";
      implicit_group = some (codes "kids");
    }
    ∷ []

included_twice :
    map {B = Text × Text × ℕ}
      (λ (g : RuleGroupAsset). (g.name, g.source, g.rule_count))
      (build_rule_group_assets including)
    ≡ (codes "kids", codes "/etc/m.conf", 0) ∷ (codes "kids", codes "/etc/b.conf", 1) ∷ []
unfolding build_rule_group_assets is_whitespace
included_twice = refl

abbrev sets_source : ConfigSource
sets_source = record {
  path = codes "/etc/s.conf";
  text =
      codes "domain-set -name ad -file /f\ndomain-set -name ads -type geosite -file /g\n"
      ++ codes "nameserver /domain-set:ads/out\n";
  implicit_group = none;
}

-- the rule of `ads` is also shown at `ad`
shown_at_prefix :
    map {B = Text × Text × Text × ℕ × List Text}
      (λ (a : RuleSetAsset). (a.name, a.set_type, a.file, a.rule_count, a.referenced_by))
      (build_rule_set_assets
        (λ path. some (codes "x\n# y\n\n z \n"))
        (parse_routing_items (sets_source ∷ [])))
    ≡ (codes "ad", codes "list", codes "/f", 2, codes "nameserver -> /domain-set:ads (out)" ∷ [])
      ∷ (
        codes "ads",
        codes "geosite",
        codes "/g",
        2,
        codes "nameserver -> /domain-set:ads (out)" ∷ [],
      )
      ∷ []
unfolding build_rule_set_assets parse_routing_items is_whitespace
shown_at_prefix = refl
