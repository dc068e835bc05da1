-- ===== src/Tests/UpstreamTests.antt =====
-- The servers and pages of the beginner configuration of src/config_ui.rs on small inputs.
use mathlib.Core.List.{Perm}
use smartdns_plus_ui.Base.{true, List, [], ◌∷◌, ◌≡◌, refl, map, codes, is_whitespace}
use smartdns_plus_ui.Config.Model.{UpstreamConfig, BeginnerConfig, default_upstream}
use smartdns_plus_ui.Config.Upstream.{upstream_key, render_upstream_options, token_kind}
use smartdns_plus_ui.Config.Beginner.{empty_config, parse_beginner_config}
use smartdns_plus_ui.Config.Pages.{server_line, render_upstreams_config}
use smartdns_plus_ui.Config.Pages.Ordered.{IsInOrder}
use smartdns_plus_ui.Config.Pages.Servers.{IsCleanServer}
use smartdns_plus_ui.Config.Pages.Reading.{without_note, parse-render_upstreams_config}

abbrev abroad : UpstreamConfig
abroad = record default_upstream {
  kind = codes "server-tls";
  value = codes "1.1.1.1:853";
  groups = codes "out" ∷ codes "all" ∷ [];
  exclude_default_group = true;
  host_ip = codes "1.1.1.1";
  options = codes "-no-check-certificate -spki-pin x=";
}

abbrev at_home : UpstreamConfig
at_home = record default_upstream { kind = codes "server"; value = codes "192.168.1.1" }

abbrev near : UpstreamConfig
near = record default_upstream {
  kind = codes "server-https";
  value = codes "https://dns.example/q";
  groups = codes "cn" ∷ [];
  fallback = true;
}

abroad_line :
    server_line abroad
    ≡ codes
        "server-tls 1.1.1.1:853 -group out -group all -exclude-default-group -host-ip 1.1.1.1 -no-check-certificate -spki-pin x="
unfolding server_line upstream_key render_upstream_options is_whitespace
abroad_line = refl

-- a kind that is read but written as another
h3_line : server_line (record at_home { kind = codes "server-h3" }) ≡ codes "server 192.168.1.1"
unfolding server_line upstream_key render_upstream_options is_whitespace
h3_line = refl

abroad-IsCleanServer : IsCleanServer abroad
unfolding server_line upstream_key render_upstream_options is_whitespace token_kind
abroad-IsCleanServer = record {
  kind = refl;
  value = refl;
  passed = codes "-no-check-certificate" ∷ codes "-spki-pin" ∷ codes "x=" ∷ [];
  options = record {
    groups = refl;
    proxy_name = refl;
    bootstrap_dns = refl;
    host_ip = refl;
    subnet = refl;
    are_passed = refl;
    options = refl;
  };
  no_backslash = refl;
}

at_home-IsCleanServer : IsCleanServer at_home
unfolding server_line upstream_key render_upstream_options is_whitespace token_kind
at_home-IsCleanServer = record {
  kind = refl;
  value = refl;
  passed = [];
  options = record {
    groups = refl;
    proxy_name = refl;
    bootstrap_dns = refl;
    host_ip = refl;
    subnet = refl;
    are_passed = refl;
    options = refl;
  };
  no_backslash = refl;
}

near-IsCleanServer : IsCleanServer near
unfolding server_line upstream_key render_upstream_options is_whitespace token_kind
near-IsCleanServer = record {
  kind = refl;
  value = refl;
  passed = [];
  options = record {
    groups = refl;
    proxy_name = refl;
    bootstrap_dns = refl;
    host_ip = refl;
    subnet = refl;
    are_passed = refl;
    options = refl;
  };
  no_backslash = refl;
}

abbrev three_servers : BeginnerConfig
three_servers = record empty_config { upstreams = abroad ∷ at_home ∷ near ∷ [] }

parse-render_upstreams_config_example :
    (us : List UpstreamConfig) × Perm us (abroad ∷ at_home ∷ near ∷ [])
    × IsInOrder us
    × (parse_beginner_config (render_upstreams_config three_servers)
        ≡ record empty_config { upstreams = map without_note us })
parse-render_upstreams_config_example =
    parse-render_upstreams_config three_servers refl
      (abroad-IsCleanServer, (at_home-IsCleanServer, (near-IsCleanServer, tt)))
