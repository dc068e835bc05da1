-- ===== src/Config/Upstream/RoundTrip.antt =====
-- `parse_upstream_config` after `render_upstream_options` (src/config_ui.rs).
use smartdns_plus_ui.Base.{List, [], ◌≡◌, refl, ap, ◌∙◌, arith, if◌then◌else◌, Text, codes}
use smartdns_plus_ui.Config.Model.{UpstreamConfig, default_upstream}
use smartdns_plus_ui.Config.Upstream.{
  proxy, bootstrap_dns, host_ip, subnet, exclude_default_group, fallback, set_flag,
  render_upstream_options, token_kind, read_options, parse_upstream_config,
}
use smartdns_plus_ui.Config.Upstream.Options.{
  IsCleanUpstream, option_tokens, named_tokens, render_upstream_options_lem,
}
use smartdns_plus_ui.Config.Upstream.Reading.{
  read_options-text_tokens, read_options-flag_part, read_options-groups, read_options-passed,
}

-- what has been read before each of the options
module _ (u : UpstreamConfig) where
  abbrev start : UpstreamConfig
  start = record default_upstream { kind = u.kind; value = u.value }

  abbrev with_flags : UpstreamConfig
  with_flags = record start { groups = u.groups; exclude_default_group = u.exclude_default_group }

  abbrev with_proxy : UpstreamConfig
  with_proxy = record with_flags { proxy_name = u.proxy_name }

  abbrev with_bootstrap : UpstreamConfig
  with_bootstrap = record with_proxy { bootstrap_dns = u.bootstrap_dns }

  abbrev with_host : UpstreamConfig
  with_host = record with_bootstrap { host_ip = u.host_ip }

  abbrev with_subnet : UpstreamConfig
  with_subnet = record with_host { subnet = u.subnet }

  abbrev with_all : UpstreamConfig
  with_all = record with_subnet { fallback = u.fallback }

  set_exclude :
      (if u.exclude_default_group
        then set_flag exclude_default_group (record start { groups = u.groups })
        else record start { groups = u.groups })
      ≡ with_flags
  set_exclude = ground arith

  set_fallback : (if u.fallback then set_flag fallback with_subnet else with_subnet) ≡ with_all
  set_fallback = ground arith

  read_options-option_tokens :
      (passed : List Text)
      → IsCleanUpstream u passed
      → read_options (option_tokens u passed) (start, []) ≡ (with_all, passed)
  unfolding option_tokens token_kind
  read_options-option_tokens passed h =
      read_options-groups u.groups _ start [] h.groups
      ∙ read_options-flag_part (record start { groups = u.groups }) [] exclude_default_group
          (codes "-exclude-default-group") u.exclude_default_group _ refl
      ∙ ap (λ (c : UpstreamConfig). read_options (named_tokens u passed) (c, [])) set_exclude
      ∙ read_options-text_tokens with_flags [] proxy (codes "-proxy") u.proxy_name _ refl refl
      ∙ read_options-text_tokens with_proxy [] bootstrap_dns (codes "-bootstrap-dns")
          u.bootstrap_dns _ refl refl
      ∙ read_options-text_tokens with_bootstrap [] host_ip (codes "-host-ip") u.host_ip _ refl refl
      ∙ read_options-text_tokens with_host [] subnet (codes "-subnet") u.subnet _ refl refl
      ∙ read_options-flag_part with_subnet [] fallback (codes "-fallback") u.fallback passed refl
      ∙ ap (λ (c : UpstreamConfig). read_options passed (c, [])) set_fallback
      ∙ read_options-passed passed with_all [] h.are_passed

-- The options of an upstream server that were written are read back as they were: all its groups in
-- their order, both flags, the proxy, the bootstrap server, the address and the subnet, and the
-- options that are passed through; only the note, which is not written, is lost.
pub parse-render_upstream_options :
    (u : UpstreamConfig) (passed : List Text)
    → IsCleanUpstream u passed
    → parse_upstream_config u.kind u.value (render_upstream_options u) ≡ record u { note = [] }
unfolding parse_upstream_config
parse-render_upstream_options u passed h =
    rw (render_upstream_options_lem u passed h, read_options-option_tokens u passed h)
      (rw (← h.options) refl)
