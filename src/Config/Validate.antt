-- ===== src/Config/Validate.antt =====
-- `validate_beginner_config` and `validate_managed_assets` of src/config_ui.rs.
pub mod Groups
use smartdns_plus_ui.Base.Word.{to_string}
use smartdns_plus_ui.Base.{
  ℕ, zero, suc, ◌+◌, ◌-◌, Bool, true, false, not, ◌&&◌, ◌||◌, List, [], ◌∷◌, ◌++◌, map,
  if◌then◌else◌, ◌==◌, ltb, all, any, filter, flat_map, is_empty, Text, codes, text_eq, trim,
  drop_while, drop_end, starts_with, lines, lines_from,
}
use smartdns_plus_ui.Config.Model.{
  UpstreamConfig, BeginnerConfig, ManagedRuleGroup, ManagedClientRule, ManagedIpRule,
  ManagedRoutingItem, ManagedAssets, ValidationResult,
}

abbrev pub is_blank : Text → Bool
is_blank t = is_empty (trim t)

abbrev pub when : Bool → Text → List Text
when b t = if b then t ∷ [] else []

-- what a line of the rules does to the depth of groups
pub data GroupLine : Type 0 where
  opens closes other : GroupLine

unfoldable pub group_line : Text → GroupLine
unfolding drop_while drop_end starts_with text_eq
group_line line =
    let trimmed = trim line in
    if starts_with trimmed (codes "group-begin ")
    then opens
    else if text_eq trimmed (codes "group-end")
    then closes
    else other

extra_end : ℕ → Text
extra_end index = codes "规则文件第 " ++ (to_string (index + 1) ++ codes " 行出现多余的 group-end。")

-- The loop over the lines: the depth is an i32 that the loop never leaves below 0, so it is a
-- number here, and a `group-end` at depth 0 is the error. Wrapping at 2^31 open groups is left out.
unfoldable pub group_errors : ℕ → ℕ → List Text → List Text
unfolding extra_end
group_errors index depth [] = when (not (depth == 0)) (codes "规则文件中的 group-begin / group-end 未闭合。")
group_errors index depth (l ∷ ls) = elim (group_line l) [
  | opens ↦ group_errors (index + 1) (depth + 1) ls
  | closes ↦
      if depth == 0
      then extra_end index ∷ group_errors (index + 1) 0 ls
      else group_errors (index + 1) (depth - 1) ls
  | other ↦ group_errors (index + 1) depth ls
]

unfoldable pub validate_beginner_config : BeginnerConfig → Text → ValidationResult
unfolding group_errors lines_from drop_while drop_end
validate_beginner_config config rules_text =
    let errors =
      when (all (λ u. is_blank u.value) config.upstreams) (codes "至少需要配置一个上游 DNS 服务器。")
      ++ when (is_blank config.response_mode) (codes "response-mode 不能为空。")
      ++ group_errors 0 0 (lines rules_text) in
    let warnings =
      when (all is_blank config.binds) (codes "未设置 bind，将自动使用 [::]:53。")
      ++ when (is_blank config.speed_check_mode) (codes "speed-check-mode 为空时将退回默认测速策略。")
      ++ when (is_blank config.cache_size) (codes "cache-size 为空时将使用默认值 32768。")
      ++ when (config.serve_expired && is_blank config.serve_expired_ttl)
          (codes "已启用 serve-expired，但未指定 TTL，将使用默认值 86400。") in
    record { is_ok = is_empty errors; errors = errors; warnings = warnings }

-- the loop over the groups, with the set of names seen
unfoldable pub duplicate_errors : List Text → List ManagedRuleGroup → List Text
unfolding text_eq
duplicate_errors seen [] = []
duplicate_errors seen (g ∷ gs) =
    (if any (text_eq g.name) seen then (codes "规则组名称重复：" ++ g.name) ∷ [] else [])
    ++ duplicate_errors (g.name ∷ seen) gs

abbrev pub blank_target : Text → Text → List Text
blank_target rule_type target = when (is_blank target) (rule_type ++ codes " 规则的目标不能为空。")

unfoldable pub validate_managed_assets : ManagedAssets → ValidationResult
unfolding duplicate_errors drop_while drop_end
validate_managed_assets assets =
    let errors =
      duplicate_errors [] assets.rule_groups
      ++ flat_map (λ r. when (is_blank r.matcher) (codes "客户端规则不能为空。")) assets.client_rules
      ++ flat_map (λ r. blank_target r.rule_type r.target) assets.ip_rules
      ++ flat_map (λ i. blank_target i.rule_type i.target) assets.routing_items in
    record { is_ok = is_empty errors; errors = errors; warnings = [] }
