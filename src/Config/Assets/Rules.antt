-- ===== src/Config/Assets/Rules.antt =====
-- `build_client_rule_assets` and `build_ip_rule_assets` of src/config_ui.rs.
pub mod Agreement
use smartdns_plus_ui.Base.{
  ℕ, zero, suc, ◌+◌, Bool, ◌&&◌, List, [], ◌∷◌, ◌++◌, Option, none, some, if◌then◌else◌, leb, ◌==◌,
  any, flat_map, filter, length, unwrap_or, Text, codes, text_eq,
}
use smartdns_plus_ui.Config.Model.{ClientRuleAsset, IpRuleAsset, ConfigSource}
use smartdns_plus_ui.Config.Lines.{directives, first_word, split_target_options}
use smartdns_plus_ui.Config.Managed.{one_of}

unfoldable pub describe_client_matcher : Text → Text
describe_client_matcher value =
    if any (λ c. c == b':') value && leb 5 (length (filter (λ c. c == b':') value))
    then codes "按客户端 MAC 地址匹配"
    else codes "按客户端 IP 或网段匹配"

unfoldable pub describe_ip_rule_type : Text → Text
unfolding text_eq
describe_ip_rule_type rule_type =
    if text_eq rule_type (codes "whitelist-ip")
    then codes "只接受白名单范围内的返回 IP"
    else if text_eq rule_type (codes "blacklist-ip")
    then codes "丢弃命中黑名单范围的返回 IP"
    else if text_eq rule_type (codes "ignore-ip")
    then codes "忽略指定 IP 或 IP 集合"
    else if text_eq rule_type (codes "bogus-nxdomain")
    then codes "命中假冒地址时返回 SOA"
    else if text_eq rule_type (codes "ip-alias")
    then codes "把命中的 IP 映射到别名地址"
    else codes "IP 规则"

-- the stack of open groups, its last group first
abbrev pub GroupStack : Type 0
GroupStack = List Text

abbrev pub pop : GroupStack → GroupStack
pop [] = []
pop (name ∷ names) = names

-- `group_stack.last().cloned().unwrap_or_default()`
abbrev pub last_group : GroupStack → Text
last_group [] = []
last_group (name ∷ names) = name

abbrev pub first_stack : Option Text → GroupStack
first_stack none = []
first_stack (some name) = name ∷ []

-- both loops move the stack alike
unfoldable pub stack_step : GroupStack → Text × Text → GroupStack
unfolding text_eq first_word
stack_step stack (key, value) =
    if text_eq key (codes "group-begin")
    then first_word value ∷ stack
    else if text_eq key (codes "group-end")
    then pop stack
    else stack

unfoldable pub client_rules_of : Text → GroupStack → Text × Text → List ClientRuleAsset
unfolding text_eq describe_client_matcher
client_rules_of path stack (key, value) =
    if text_eq key (codes "client-rules")
    then record {
      matcher = value;
      group_name = last_group stack;
      source = path;
      note = describe_client_matcher value;
    }
      ∷ []
    else []

abbrev pub single_ip_rule_keys : List Text
single_ip_rule_keys =
    codes "whitelist-ip"
    ∷ codes "blacklist-ip"
    ∷ codes "ignore-ip"
    ∷ codes "bogus-nxdomain"
    ∷ codes "ip-alias"
    ∷ []

abbrev pub ip_rule_asset : Text → GroupStack → Text → Text × Text → Text → IpRuleAsset
ip_rule_asset path stack key split note = record {
  rule_type = key;
  target = split.0;
  options = split.1;
  group_name = last_group stack;
  source = path;
  note = note;
}

unfoldable pub ip_rules_of : Text → GroupStack → Text × Text → List IpRuleAsset
unfolding text_eq describe_ip_rule_type
ip_rules_of path stack (key, value) =
    let split = split_target_options value in
    if text_eq key (codes "ip-rules")
    then ip_rule_asset path stack key split (codes "对指定 IP、网段或 ip-set 应用 IP 规则选项") ∷ []
    else if one_of key single_ip_rule_keys
    then ip_rule_asset path stack key split (describe_ip_rule_type key) ∷ []
    else []

-- the loop over the lines of a source
unfoldable pub with_stack {ℓ} :
    {A : Type ℓ} → (GroupStack → Text × Text → List A) → GroupStack → List (Text × Text) → List A
unfolding stack_step
with_stack rules_of stack [] = []
with_stack rules_of stack (d ∷ ds) = rules_of stack d ++ with_stack rules_of (stack_step stack d) ds

unfoldable pub build_client_rule_assets : List ConfigSource → List ClientRuleAsset
unfolding with_stack client_rules_of directives
build_client_rule_assets sources =
    flat_map
      (λ (source : ConfigSource).
        with_stack (client_rules_of source.path) (first_stack source.implicit_group)
          (directives source.text))
      sources

unfoldable pub build_ip_rule_assets : List ConfigSource → List IpRuleAsset
unfolding with_stack ip_rules_of directives
build_ip_rule_assets sources =
    flat_map
      (λ (source : ConfigSource).
        with_stack (ip_rules_of source.path) (first_stack source.implicit_group)
          (directives source.text))
      sources
