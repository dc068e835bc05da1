-- ===== src/Config/Save.antt =====
-- The operations of src/config_ui.rs that save: `save_beginner_config`, `save_managed_assets`,
-- `apply_working_config` and `restore_backup`.
use smartdns_plus_ui.Base.{
  ℕ, not, List, [], ◌∷◌, ◌++◌, none, some, if◌then◌else◌, is_empty, Text, codes, text_eq, trim,
  drop_while, drop_end, ends_with_char, replace_crlf, join,
}
use smartdns_plus_ui.Config.Model.{BeginnerConfig, ManagedAssets, ValidationResult}
use smartdns_plus_ui.Config.Managed.{parse_managed_assets_from_text}
use smartdns_plus_ui.Config.Render.{
  render_sets_text, render_routing_items_text, render_rule_entries_text,
}
use smartdns_plus_ui.Config.Validate.{validate_beginner_config, validate_managed_assets}
use smartdns_plus_ui.Config.Pages.{
  render_service_config, render_performance_config, render_logging_config, render_network_config,
  render_upstreams_config,
}
use smartdns_plus_ui.Config.Paths.{path_join, managed_conf_dir}
use smartdns_plus_ui.Config.Block.{ensure_managed_block}
use smartdns_plus_ui.Config.Store.{
  other, Fault, err, M, pure, ◌>>=◌, ◌>>◌, create_dir_all, read_text_or_default, write_text_atomic,
  write_text_with_backup_if_changed,
}

-- the sections are a map, so that `block` comes before `split`
abbrev pub default_rules_text : Text
default_rules_text = join (b'\n' ∷ []) (
    codes "# Generated by smartdns-plus-ui"
    ∷ codes "# 这份文件专门放图形界面管理的规则。"
    ∷ codes "# 如果你还不熟悉 SmartDNS，建议先从少量规则开始。"
    ∷ []
    ∷ codes "# [block]"
    ∷ codes "# 这里可以添加你想屏蔽的域名"
    ∷ codes "# address /ads.example.com/#"
    ∷ []
    ∷ codes "# [split]"
    ∷ codes "# 这里可以添加你想分流的域名"
    ∷ codes "# nameserver /example.com/office"
    ∷ codes "# domain-rules /example.com/ -speed-check-mode ping"
    ∷ []
    ∷ [])

unfoldable pub normalize_rules_text : Text → Text
unfolding replace_crlf drop_while drop_end ends_with_char
normalize_rules_text text =
    let text' = replace_crlf text in
    if is_empty (trim text')
    then default_rules_text
    else if ends_with_char text' b'\n'
    then text'
    else text' ++ b'\n' ∷ []

module _ (fault : ℕ → Fault) where
  -- the pages by their names, each written where it changed
  unfoldable pub write_pages : Text → List (Text × Text) → M (Unit {0})
  unfolding path_join
  write_pages managed_dir [] = pure tt
  write_pages managed_dir ((name, text) ∷ pages) =
      write_text_with_backup_if_changed fault (path_join managed_dir name) text
      >> write_pages managed_dir pages

  unfoldable pub apply_working_config : Text → Text → M (Unit {0})
  unfolding text_eq
  apply_working_config config_file rules_dir = read_text_or_default fault config_file >>= λ current.
      let new_main = ensure_managed_block current rules_dir in
      if not (text_eq new_main current)
      then write_text_atomic fault config_file new_main
      else pure tt

  abbrev pub beginner_pages : BeginnerConfig → ManagedAssets → List (Text × Text)
  beginner_pages beginner assets =
      (codes "10-basic.conf", render_service_config beginner)
      ∷ (codes "20-upstreams.conf", render_upstreams_config beginner)
      ∷ (codes "30-cache.conf", render_performance_config beginner)
      ∷ (codes "40-nameserver.conf", render_routing_items_text assets)
      ∷ (codes "50-rules.conf", render_rule_entries_text assets)
      ∷ (codes "60-sets.conf", render_sets_text assets)
      ∷ (codes "70-logging.conf", render_logging_config beginner)
      ∷ (codes "80-network.conf", render_network_config beginner)
      ∷ []

  unfoldable pub save_beginner_config : Text → Text → BeginnerConfig → Text → M ValidationResult
  unfolding write_pages apply_working_config
  save_beginner_config config_file rules_dir beginner rules_text =
      let validation = validate_beginner_config beginner rules_text in
      let assets = parse_managed_assets_from_text (normalize_rules_text rules_text) in
      if not validation.is_ok
      then pure validation
      else write_pages (managed_conf_dir rules_dir) (beginner_pages beginner assets)
        >> apply_working_config config_file rules_dir
        >> pure validation

  abbrev pub asset_pages : ManagedAssets → List (Text × Text)
  asset_pages assets =
      (codes "40-nameserver.conf", render_routing_items_text assets)
      ∷ (codes "50-rules.conf", render_rule_entries_text assets)
      ∷ (codes "60-sets.conf", render_sets_text assets)
      ∷ []

  unfoldable pub save_managed_assets : Text → Text → ManagedAssets → M ValidationResult
  unfolding write_pages apply_working_config
  save_managed_assets config_file rules_dir assets =
      let validation = validate_managed_assets assets in
      create_dir_all fault (managed_conf_dir rules_dir)
      >> (if not validation.is_ok
          then pure validation
          else write_pages (managed_conf_dir rules_dir) (asset_pages assets)
            >> apply_working_config config_file rules_dir
            >> pure validation)

  -- `fs::read_to_string`, which fails where there is no file
  unfoldable pub read_to_string : Text → M Text
  read_to_string path s = elim (s.files path) [
    | none ↦ (err other, s)
    | some text ↦ read_text_or_default fault path s
  ]

  unfoldable pub restore_backup : Text → Text → M (Unit {0})
  unfolding read_to_string
  restore_backup config_file backup =
      read_to_string backup >>= λ backup_text. write_text_atomic fault config_file backup_text
