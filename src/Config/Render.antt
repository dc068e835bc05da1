-- ===== src/Config/Render.antt =====
-- The writer of the managed rule files: `render_sets_text`, `render_routing_items_text`,
-- `render_rule_entries_text` and `render_managed_assets_text` of src/config_ui.rs.
use smartdns_plus_ui.Base.{
  Bool, not, List, [], ◌∷◌, ◌++◌, map, if◌then◌else◌, leb, length, filter, is_empty, Text, codes,
  text_eq, trim, drop_while, drop_end, ends_with_char, join,
}
use smartdns_plus_ui.Config.Model.{
  ManagedIpRule, ManagedRoutingItem, ManagedDomainSet, ManagedIpSet, ManagedAssets,
}

unfoldable pub domain_set_line : ManagedDomainSet → Text
domain_set_line ds =
    codes "domain-set -name "
    ++ (ds.name ++ (codes " -type " ++ (ds.set_type ++ (codes " -file " ++ ds.file))))

unfoldable pub ip_set_line : ManagedIpSet → Text
ip_set_line ips = codes "ip-set -name " ++ (ips.name ++ (codes " -file " ++ ips.file))

-- a titled block with a blank line behind it, or nothing
abbrev pub titled : Text → List Text → List Text
titled title [] = []
titled title (l ∷ ls) = title ∷ (l ∷ ls ++ [] ∷ [])

-- the note where only the three header lines were written
abbrev pub or_note : Text → List Text → List Text
or_note note lines = if leb (length lines) 3 then lines ++ note ∷ [] else lines

abbrev pub finished : List Text → Text
finished lines = join (b'\n' ∷ []) (lines ++ [] ∷ [])

unfoldable pub sets_lines : ManagedAssets → List Text
unfolding domain_set_line ip_set_line
sets_lines assets = or_note (codes "# 还没有任何集合定义。") (
    codes "# Generated by smartdns-plus-ui"
    ∷ codes "# 集合管理（domain-set / ip-set）"
    ∷ []
    ∷ (titled (codes "# ── 域名集合 ──") (map domain_set_line assets.domain_sets)
        ++ titled (codes "# ── IP 集合 ──") (map ip_set_line assets.ip_sets)))

unfoldable pub render_sets_text : ManagedAssets → Text
unfolding sets_lines join
render_sets_text assets = finished (sets_lines assets)

unfoldable pub nameserver_line : ManagedRoutingItem → Text
nameserver_line item =
    if is_empty item.value
    then item.rule_type ++ (b' ' ∷ item.target)
    else item.rule_type ++ (b' ' ∷ (item.target ++ (b'/' ∷ item.value)))

abbrev pub is_nameserver : ManagedRoutingItem → Bool
is_nameserver item = text_eq item.rule_type (codes "nameserver")

unfoldable pub routing_lines : ManagedAssets → List Text
unfolding nameserver_line text_eq
routing_lines assets = or_note (codes "# 还没有任何上游分流规则。") (
    codes "# Generated by smartdns-plus-ui"
    ∷ codes "# 上游分流（nameserver）"
    ∷ []
    ∷ titled (codes "# ── 分流规则 ──")
        (map nameserver_line (filter is_nameserver assets.routing_items)))

unfoldable pub render_routing_items_text : ManagedAssets → Text
unfolding routing_lines join
render_routing_items_text assets = finished (routing_lines assets)

unfoldable pub rule_line : ManagedRoutingItem → Text
unfolding ends_with_char
rule_line item =
    let target =
      if ends_with_char item.target b'/' then item.target else item.target ++ b'/' ∷ [] in
    if is_empty item.value
    then item.rule_type ++ (b' ' ∷ target)
    else item.rule_type ++ (b' ' ∷ (target ++ (b' ' ∷ item.value)))

unfoldable pub ip_rule_line : ManagedIpRule → Text
ip_rule_line rule =
    if is_empty rule.options
    then rule.rule_type ++ (b' ' ∷ rule.target)
    else rule.rule_type ++ (b' ' ∷ (rule.target ++ (b' ' ∷ rule.options)))

unfoldable pub rule_entry_lines : ManagedAssets → List Text
unfolding rule_line ip_rule_line text_eq
rule_entry_lines assets = or_note (codes "# 还没有任何规则。") (
    codes "# Generated by smartdns-plus-ui"
    ∷ codes "# 规则（domain-rules / address / cname / ip-rules）"
    ∷ []
    ∷ (titled (codes "# ── 域名规则与地址改写 ──")
          (map rule_line (filter (λ item. not (is_nameserver item)) assets.routing_items))
        ++ titled (codes "# ── IP 规则 ──") (map ip_rule_line assets.ip_rules)))

unfoldable pub render_rule_entries_text : ManagedAssets → Text
unfolding rule_entry_lines join
render_rule_entries_text assets = finished (rule_entry_lines assets)

unfoldable pub join_nonempty_sections : List Text → Text
unfolding join drop_while drop_end
join_nonempty_sections parts =
    join (codes "\n\n") (filter (λ text. not (is_empty text)) (map trim parts))

unfoldable pub render_managed_assets_text : ManagedAssets → Text
unfolding join_nonempty_sections render_sets_text render_routing_items_text render_rule_entries_text
render_managed_assets_text assets = join_nonempty_sections (
    render_sets_text assets
    ∷ render_routing_items_text assets
    ∷ render_rule_entries_text assets
    ∷ [])
