-- ===== src/Config/Assets.antt =====
-- The views of a configuration that is already there (src/config_ui.rs): `parse_routing_items`,
-- `render_detected_rules_text`, `parse_domain_set_value`, `inspect_rule_set_file`.
pub mod Sets
pub mod Groups
pub mod Rules
use smartdns_plus_ui.Base.{
  ℕ, zero, suc, Bool, not, ◌||◌, List, [], ◌∷◌, ◌++◌, Option, none, some, if◌then◌else◌, unwrap_or,
  length, take, is_empty, flat_map, filter_map, Text, codes, text_eq, trim, drop_while, drop_end,
  starts_with, strip_prefix, contains_text, words_from, split_whitespace, join,
}
use smartdns_plus_ui.Config.Model.{RoutingRuleItem, ConfigSource}
use smartdns_plus_ui.Config.Lines.{
  directives, parse_named_option, split_target_options, split_target_value,
}
use smartdns_plus_ui.Config.RuleSet.{read_rule_set_items}

unfoldable pub describe_target_hint : Text → Text → Text
unfolding contains_text
describe_target_hint value fallback =
    if contains_text value (codes "domain-set:")
    then codes "把一个域名集合整体导向指定上游组"
    else if contains_text value (codes "/.cn/") || contains_text value (codes "/.cn/")
    then codes "把命中的顶级域名或模式导向指定上游组"
    else fallback

-- the item of a `domain-set` line, where it has a name
unfoldable pub domain_set_item : Text → Text → List RoutingRuleItem
unfolding parse_named_option
domain_set_item path value = elim (parse_named_option value (codes "-name")) [
  | none ↦ []
  | some name ↦
      record {
        rule_type = codes "domain-set";
        target = name;
        value =
            codes "type="
            ++ (unwrap_or (parse_named_option value (codes "-type")) (codes "list")
                ++ (codes " file=" ++ unwrap_or (parse_named_option value (codes "-file")) []));
        source = path;
        note = codes "定义一个可被 nameserver 或 domain-rules 引用的域名集合";
      }
      ∷ []
]

abbrev pub routing_item : Text → Text → Text × Text → Text → RoutingRuleItem
routing_item path key split note = record {
  rule_type = key;
  target = split.0;
  value = split.1;
  source = path;
  note = note;
}

-- the `match key` of the loop
unfoldable pub routing_items_of : Text → Text × Text → List RoutingRuleItem
unfolding text_eq split_target_options split_target_value describe_target_hint domain_set_item
routing_items_of path (key, value) =
    if is_empty value
    then []
    else if text_eq key (codes "nameserver")
    then routing_item path key (split_target_value value)
        (describe_target_hint value (codes "把域名或规则集导向指定上游组"))
      ∷ []
    else if text_eq key (codes "domain-rules")
    then routing_item path key (split_target_options value) (codes "给域名或规则集附加行为，例如禁缓存、禁 IPv6、改测速")
      ∷ []
    else if text_eq key (codes "address")
    then routing_item path key (split_target_value value) (codes "给域名或规则集直接返回固定地址或空地址") ∷ []
    else if text_eq key (codes "cname")
    then routing_item path key (split_target_value value) (codes "把查询结果改写为指定 CNAME") ∷ []
    else if text_eq key (codes "domain-set")
    then domain_set_item path value
    else []

unfoldable pub parse_routing_items : List ConfigSource → List RoutingRuleItem
unfolding routing_items_of directives
parse_routing_items sources =
    flat_map
      (λ (source : ConfigSource). flat_map (routing_items_of source.path) (directives source.text))
      sources

detected_lines : RoutingRuleItem → List Text
unfolding drop_while drop_end
detected_lines item =
    let value = trim item.value in
    let value_part = if is_empty value then [] else b' ' ∷ value in
    let note_lines =
      if is_empty (trim item.note) then [] else (codes "# note: " ++ item.note) ∷ [] in
    (item.rule_type ++ (b' ' ∷ (item.target ++ value_part)))
    ∷ (codes "# source: " ++ item.source)
    ∷ (note_lines ++ [] ∷ [])

unfoldable pub render_detected_rules_text : List RoutingRuleItem → Text
unfolding detected_lines join
render_detected_rules_text items =
    if is_empty items
    then codes "当前没有从主配置或 conf-file 中检测到分流规则。"
    else join (b'\n' ∷ []) (
        codes "# Detected by smartdns-plus-ui"
        ∷ codes "# 下面是从当前主配置和 conf-file 中识别出来的现有规则，只读展示，不会直接覆盖原文件。"
        ∷ []
        ∷ flat_map detected_lines items)

-- `trim_start_matches(p)` at a text: `p` is taken away as often as it stands at the start. Every
-- turn shortens the text, so that its length is fuel enough.
unfoldable pub strip_all : ℕ → Text → Text → Text
unfolding strip_prefix
strip_all zero s p = s
strip_all (suc n) s p = elim (strip_prefix s p) [ none ↦ s | some rest ↦ strip_all n rest p ]

abbrev pub trim_start_matches : Text → Text → Text
trim_start_matches s p = strip_all (length s) s p

-- the loop over the tokens, with the type and the file that were read
unfoldable pub domain_set_tokens : List Text → Text × Text → Text × Text
unfolding text_eq starts_with strip_all
domain_set_tokens [] read = read
domain_set_tokens (token ∷ tokens) (set_type, file) = domain_set_tokens tokens (
    if text_eq token (codes "type=")
    then (set_type, file)
    else if starts_with token (codes "type=")
    then (trim_start_matches token (codes "type="), file)
    else if starts_with token (codes "file=")
    then (set_type, trim_start_matches token (codes "file="))
    else (set_type, file))

unfoldable pub parse_domain_set_value : Text → Text × Text
unfolding domain_set_tokens words_from
parse_domain_set_value value = domain_set_tokens (split_whitespace value) (codes "list", [])

-- `read` is `read_text_or_default`, with `none` for an error
unfoldable pub inspect_rule_set_file : (Text → Option Text) → Text → ℕ × List Text
unfolding read_rule_set_items drop_while drop_end
inspect_rule_set_file read path = if is_empty (trim path) then (0, []) else elim (read path) [
  | none ↦ (0, [])
  | some text ↦ (length (read_rule_set_items text), take 5 (read_rule_set_items text))
]

-- a rule as it is shown among the references of a set
unfoldable pub reference_text : Text → Text → Text → Text
reference_text rule_type target options =
    rule_type
    ++ (codes " -> "
        ++ (target ++ (if is_empty options then [] else codes " (" ++ (options ++ codes ")"))))
