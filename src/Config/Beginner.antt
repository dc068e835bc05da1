-- ===== src/Config/Beginner.antt =====
-- `parse_beginner_config`, `parse_yesno` and `split_list_extra` of src/config_ui.rs.
use smartdns_plus_ui.Base.{
  Bool, true, false, not, ◌&&◌, ◌||◌, List, [], ◌∷◌, ◌++◌, map, Option, none, some, if◌then◌else◌,
  is_empty, flat_map, filter, Text, codes, text_eq, trim, drop_while, drop_end, starts_with,
  splitn2, lines, lines_from, split_from, eq_ignore_ascii_case,
}
use smartdns_plus_ui.Config.Model.{BeginnerConfig}
use smartdns_plus_ui.Config.Lines.{directives}
use smartdns_plus_ui.Config.Managed.{one_of}
use smartdns_plus_ui.Config.Upstream.{parse_upstream_config}

unfoldable pub parse_yesno : Text → Bool → Bool
unfolding eq_ignore_ascii_case text_eq
parse_yesno value default_value =
    if eq_ignore_ascii_case value (codes "yes")
      || eq_ignore_ascii_case value (codes "true")
      || text_eq value (codes "1")
    then true
    else if eq_ignore_ascii_case value (codes "no")
        || eq_ignore_ascii_case value (codes "false")
        || text_eq value (codes "0")
    then false
    else default_value

abbrev pub Extras : Type 0
Extras = List (Text × Text)

unfoldable pub get_extra : Text → Extras → Option Text
unfolding text_eq
get_extra key [] = none
get_extra key ((k, v) ∷ extras) =
    let more = get_extra key extras in if text_eq k key then some v else more

unfoldable pub insert_extra : Text → Text → Extras → Extras
unfolding text_eq
insert_extra key value [] = (key, value) ∷ []
insert_extra key value ((k, v) ∷ extras) =
    let more = insert_extra key value extras in
    if text_eq k key then (key, value) ∷ extras else (k, v) ∷ more

-- a list under one key: a line for each value
unfoldable pub push_extra_line : Text → Text → Extras → Extras
unfolding get_extra insert_extra
push_extra_line key value extras = elim (get_extra key extras) [
  | none ↦ insert_extra key value extras
  | some old ↦ insert_extra key (if is_empty old then value else old ++ (b'\n' ∷ value)) extras
]

abbrev pub server_keys : List Text
server_keys =
    codes "server"
    ∷ codes "server-tcp"
    ∷ codes "server-tls"
    ∷ codes "server-https"
    ∷ codes "server-quic"
    ∷ codes "server-http3"
    ∷ codes "server-h3"
    ∷ []

abbrev pub list_keys : List Text
list_keys = codes "bind-tcp" ∷ codes "bind-tls" ∷ codes "bind-https" ∷ codes "conf-file" ∷ []

-- the configuration before the first line
abbrev pub empty_config : BeginnerConfig
empty_config = record {
  server_name = [];
  binds = [];
  cache_size = codes "32768";
  prefetch_domain = true;
  serve_expired = true;
  serve_expired_ttl = codes "86400";
  response_mode = codes "first-ping";
  speed_check_mode = codes "ping,tcp:80,tcp:443";
  dualstack_ip_selection = true;
  log_level = codes "info";
  mdns_lookup = false;
  audit_enable = false;
  upstreams = [];
  extras = [];
}

-- the keys of servers, of lists and all that are unknown
unfoldable pub push_other : Text → Text → BeginnerConfig → BeginnerConfig
unfolding push_extra_line insert_extra splitn2 drop_while drop_end parse_upstream_config
push_other key value cfg =
    let parts = splitn2 value in
    if one_of key server_keys
    then record cfg {
      upstreams = cfg.upstreams ++ parse_upstream_config key (trim parts.0) (trim parts.1) ∷ [];
    }
    else if is_empty value
    then cfg
    else if one_of key list_keys
    then record cfg { extras = push_extra_line key value cfg.extras }
    else record cfg { extras = insert_extra key value cfg.extras }

-- one directive
unfoldable pub beginner_step : BeginnerConfig → Text × Text → BeginnerConfig
unfolding push_other parse_yesno text_eq
beginner_step cfg (key, value) =
    if text_eq key (codes "server-name")
    then record cfg { server_name = value }
    else if text_eq key (codes "bind")
    then record cfg { binds = cfg.binds ++ value ∷ [] }
    else if text_eq key (codes "cache-size")
    then record cfg { cache_size = value }
    else if text_eq key (codes "prefetch-domain")
    then record cfg { prefetch_domain = parse_yesno value true }
    else if text_eq key (codes "serve-expired")
    then record cfg { serve_expired = parse_yesno value true }
    else if text_eq key (codes "serve-expired-ttl")
    then record cfg { serve_expired_ttl = value }
    else if text_eq key (codes "response-mode")
    then record cfg { response_mode = value }
    else if text_eq key (codes "speed-check-mode")
    then record cfg { speed_check_mode = value }
    else if text_eq key (codes "dualstack-ip-selection")
    then record cfg { dualstack_ip_selection = parse_yesno value true }
    else if text_eq key (codes "log-level")
    then record cfg { log_level = value }
    else if text_eq key (codes "mdns-lookup")
    then record cfg { mdns_lookup = parse_yesno value false }
    else if text_eq key (codes "audit-enable")
    then record cfg { audit_enable = parse_yesno value false }
    else push_other key value cfg

unfoldable pub beginner_loop : BeginnerConfig → List (Text × Text) → BeginnerConfig
unfolding beginner_step
beginner_loop cfg [] = cfg
beginner_loop cfg (d ∷ ds) = beginner_loop (beginner_step cfg d) ds

unfoldable pub parse_beginner_config : Text → BeginnerConfig
unfolding beginner_loop directives
parse_beginner_config text = beginner_loop empty_config (directives text)

-- the values of a list, between lines and commas
unfoldable pub split_list_extra : Extras → Text → List Text
unfolding get_extra lines_from split_from drop_while drop_end starts_with
split_list_extra extras key = elim (get_extra key extras) [
  | none ↦ []
  | some value ↦
      filter (λ item. not (is_empty item) && not (starts_with item (b'#' ∷ [])))
        (map trim (flat_map (split_from [] b',') (lines value)))
]
