-- ===== src/Tests/ConfigTests.antt =====
-- Runs of the configuration reader and writer on small inputs.
use smartdns_plus_ui.Base.{
  true, false, All, all, lines, ends_with_char, ◌↔◌, Text, ◌≡◌, refl, [], ◌∷◌, codes, is_whitespace,
}
use smartdns_plus_ui.Config.Model.{BeginnerConfig, ManagedAssets, no_assets, default_upstream}
use smartdns_plus_ui.Config.Lines.{logical_lines, parse_named_option}
use smartdns_plus_ui.Config.Managed.{
  parse_managed_assets_from_text, parse_step, push_ip_set, push_domain_set,
}
use smartdns_plus_ui.Config.Render.{render_sets_text}
use smartdns_plus_ui.Config.RoundTrip.DomainSet.{IsCleanDomainSet}
use smartdns_plus_ui.Config.RoundTrip.IpSet.{IsCleanIpSet}
use smartdns_plus_ui.Config.RoundTrip.Sets.{parse-render_sets_text}
use smartdns_plus_ui.Config.Validate.{is_blank, validate_beginner_config}
use smartdns_plus_ui.Config.Validate.Groups.{IsBalanced, validate_beginner_config_iff}

continued :
    logical_lines (codes "a \\\n  b\n# c\n\nd e\r\nf") ≡ codes "a b" ∷ codes "d e" ∷ codes "f" ∷ []
unfolding logical_lines is_whitespace
continued = refl

abbrev sample : ManagedAssets
sample = record no_assets {
  domain_sets =
      record { name = codes "cn"; file = codes "/etc/cn.txt"; set_type = codes "list" } ∷ [];
  ip_sets = record { name = codes "local"; file = codes "/etc/ip.txt" } ∷ [];
}

sets_round : parse_managed_assets_from_text (render_sets_text sample) ≡ sample
unfolding parse_managed_assets_from_text render_sets_text parse_step push_ip_set push_domain_set
    parse_named_option is_whitespace
sets_round = refl

sample-clean : All IsCleanDomainSet sample.domain_sets × All IsCleanIpSet sample.ip_sets
unfolding is_whitespace ends_with_char
sample-clean = (
  (record { name = refl; set_type = refl; file = (refl, refl) }, tt),
  (record { name = refl; file = (refl, refl) }, tt),
)

parse-render_sets_text_example : parse_managed_assets_from_text (render_sets_text sample) ≡ sample
parse-render_sets_text_example = parse-render_sets_text sample sample-clean.0 sample-clean.1

abbrev beginner : BeginnerConfig
beginner = record {
  server_name = codes "home";
  binds = codes "[::]:53" ∷ [];
  cache_size = [];
  prefetch_domain = true;
  serve_expired = false;
  serve_expired_ttl = [];
  response_mode = codes "first-ping";
  speed_check_mode = [];
  dualstack_ip_selection = true;
  log_level = codes "info";
  mdns_lookup = false;
  audit_enable = false;
  upstreams = record default_upstream { value = codes "8.8.8.8" } ∷ [];
  extras = [];
}

abbrev two_groups : Text
two_groups = codes "group-begin kids\nspeed-check-mode none\ngroup-end\ngroup-end\n"

validate_beginner_config_iff_example :
    ((validate_beginner_config beginner two_groups).is_ok ≡ true) ↔ (
      (all (λ u. is_blank u.value) beginner.upstreams ≡ false)
      × (is_blank beginner.response_mode ≡ false)
      × IsBalanced 0 (lines two_groups))
validate_beginner_config_iff_example = validate_beginner_config_iff beginner two_groups
