-- ===== src/Config/Pages.antt =====
-- The managed pages of the beginner configuration: `render_service_config`,
-- `render_performance_config`, `render_logging_config`, `render_network_config` and
-- `render_upstreams_config` of src/config_ui.rs.
pub mod Servers
pub mod Grouping
pub mod Ordered
pub mod Reading
use smartdns_plus_ui.Base.{
  ℕ, Bool, true, false, not, ◌&&◌, ◌||◌, List, [], ◌∷◌, ◌++◌, map, Option, none, some,
  if◌then◌else◌, ◌==◌, ltb, is_empty, flat_map, Text, codes, text_eq, trim, drop_while, drop_end,
  join,
}
use smartdns_plus_ui.Config.Model.{UpstreamConfig, BeginnerConfig, default_upstream}
use smartdns_plus_ui.Config.Upstream.{upstream_key, render_upstream_options}
use smartdns_plus_ui.Config.Beginner.{Extras, get_extra, parse_yesno, split_list_extra}

abbrev pub line_of : Text → Text → Text
line_of key value = key ++ b' ' ∷ value

-- `push_kv`
unfoldable pub kv_line : Text → Text → Text → List Text
unfolding drop_while drop_end
kv_line key value default_value =
    line_of key (if is_empty (trim value) then default_value else trim value) ∷ []

-- `push_bool`
unfoldable pub bool_line : Text → Bool → List Text
bool_line key value = line_of key (if value then codes "yes" else codes "no") ∷ []

-- `push_extra_if_present`
unfoldable pub extra_line : Extras → Text → List Text
unfolding get_extra drop_while drop_end
extra_line extras key = elim (get_extra key extras) [
  | none ↦ []
  | some value ↦ if is_empty (trim value) then [] else line_of key (trim value) ∷ []
]

-- `push_extra_bool_if_present`
unfoldable pub extra_bool_line : Extras → Text → List Text
unfolding get_extra parse_yesno drop_while drop_end
extra_bool_line extras key = elim (get_extra key extras) [
  | none ↦ []
  | some value ↦
      if is_empty (trim value)
      then []
      else line_of key (if parse_yesno (trim value) false then codes "yes" else codes "no") ∷ []
]

-- a line for each value that is not blank
unfoldable pub value_lines : Text → List Text → List Text
unfolding drop_while drop_end
value_lines key [] = []
value_lines key (v ∷ vs) =
    let rest = value_lines key vs in if is_empty (trim v) then rest else line_of key (trim v) ∷ rest

abbrev pub rule_of_title : Text
rule_of_title = codes "# ═══════════════════════════════════════════"

abbrev pub page_title : Text → List Text
page_title title =
    rule_of_title ∷ title ∷ codes "#  由 SmartDNS Plus UI 生成" ∷ rule_of_title ∷ [] ∷ []

-- the lines of a page, with the empty one that ends it
abbrev pub page_of : List Text → Text
page_of ls = join (b'\n' ∷ []) (ls ++ [] ∷ [])

tls_lines : Extras → List Text
unfolding value_lines split_list_extra extra_line
tls_lines extras =
    let tls = split_list_extra extras (codes "bind-tls") in
    let https = split_list_extra extras (codes "bind-https") in
    if not (is_empty tls) || not (is_empty https)
    then codes "# ── TLS / HTTPS 监听 ──"
      ∷ (value_lines (codes "bind-tls") tls
          ++ (value_lines (codes "bind-https") https
              ++ flat_map (extra_line extras) (
                  codes "bind-cert-file"
                  ∷ codes "bind-cert-key-file"
                  ∷ codes "bind-cert-generate"
                  ∷ codes "bind-cert-san"
                  ∷ codes "bind-cert-key-pass"
                  ∷ codes "bind-cert-root-key-file"
                  ∷ codes "bind-cert-validity-days"
                  ∷ [])))
    else []

conf_file_lines : Extras → List Text
unfolding split_list_extra
conf_file_lines extras =
    let files = split_list_extra extras (codes "conf-file") in
    if is_empty files
    then []
    else [] ∷ codes "# ── 自定义引入配置 ──" ∷ map (line_of (codes "conf-file")) files

server_name_line : Text → List Text
unfolding drop_while drop_end
server_name_line name =
    if is_empty (trim name) then [] else line_of (codes "server-name") (trim name) ∷ []

unfoldable pub render_service_config : BeginnerConfig → Text
unfolding server_name_line tls_lines conf_file_lines kv_line bool_line extra_line extra_bool_line
    value_lines split_list_extra join
render_service_config config = page_of (
    page_title (codes "#  SmartDNS 基础设置")
    ++ (server_name_line config.server_name
        ++ (value_lines (codes "bind")
              (if is_empty config.binds then codes "[::]:53" ∷ [] else config.binds)
            ++ (value_lines (codes "bind-tcp") (split_list_extra config.extras (codes "bind-tcp"))
                ++ ([]
                    ∷ (tls_lines config.extras
                        ++ ([]
                            ∷ codes "# ── 响应与测速 ──"
                            ∷ (kv_line (codes "response-mode") config.response_mode
                                  (codes "first-ping")
                                ++ (kv_line (codes "speed-check-mode") config.speed_check_mode
                                      (codes "ping,tcp:80,tcp:443")
                                    ++ ([]
                                        ∷ codes "# ── 运行参数 ──"
                                        ∷ (bool_line (codes "mdns-lookup") config.mdns_lookup
                                            ++ (extra_line config.extras (codes "user")
                                                ++ (extra_line config.extras
                                                      (codes "socket-buff-size")
                                                    ++ (extra_bool_line config.extras
                                                          (codes "no-daemon")
                                                        ++ (extra_bool_line config.extras
                                                            (codes "restart-on-crash")
                                                            ++ (extra_bool_line config.extras
                                                            (codes "expand-ptr-from-address")
                                                            ++ ([]
                                                            ∷ codes "# ── 代理 / Hosts / 证书 ──"
                                                            ∷ (extra_line config.extras
                                                            (codes "proxy-server")
                                                            ++ (extra_line config.extras
                                                            (codes "hosts-file")
                                                            ++ (extra_line config.extras
                                                            (codes "ca-file")
                                                            ++ (extra_line config.extras
                                                            (codes "ca-path")
                                                            ++ conf_file_lines
                                                            config.extras)))))))))))))))))))))

unfoldable pub render_performance_config : BeginnerConfig → Text
unfolding kv_line bool_line extra_line join
render_performance_config config = page_of (
    page_title (codes "#  SmartDNS 缓存与性能")
    ++ (codes "# ── 缓存 ──"
        ∷ (kv_line (codes "cache-size") config.cache_size (codes "32768")
            ++ (bool_line (codes "prefetch-domain") config.prefetch_domain
                ++ (bool_line (codes "serve-expired") config.serve_expired
                    ++ (kv_line (codes "serve-expired-ttl") config.serve_expired_ttl (codes "86400")
                        ++ (flat_map (extra_line config.extras)
                              (codes "cache-persist" ∷ codes "cache-file" ∷ [])
                            ++ ([]
                                ∷ codes "# ── TTL 与查询控制 ──"
                                ∷ (flat_map (extra_line config.extras) (
                                      codes "rr-ttl-min"
                                      ∷ codes "rr-ttl-max"
                                      ∷ codes "rr-ttl-reply-max"
                                      ∷ codes "local-ttl"
                                      ∷ codes "max-reply-ip-num"
                                      ∷ codes "max-query-limit"
                                      ∷ codes "tcp-idle-time"
                                      ∷ codes "serve-expired-reply-ttl"
                                      ∷ codes "serve-expired-prefetch-time"
                                      ∷ [])
                                    ++ ([]
                                        ∷ codes "# ── 双栈优选 ──"
                                        ∷ (bool_line (codes "dualstack-ip-selection")
                                              config.dualstack_ip_selection
                                            ++ extra_line config.extras (
                                                codes "dualstack-ip-selection-threshold"))))))))))))

unfoldable pub render_logging_config : BeginnerConfig → Text
unfolding kv_line bool_line extra_line extra_bool_line join
render_logging_config config = page_of (
    page_title (codes "#  SmartDNS 日志与审计")
    ++ (codes "# ── 日志 ──"
        ∷ (kv_line (codes "log-level") config.log_level (codes "info")
            ++ (flat_map (extra_line config.extras)
                  (codes "log-file" ∷ codes "log-size" ∷ codes "log-num" ∷ [])
                ++ (flat_map (extra_bool_line config.extras)
                      (codes "log-console" ∷ codes "log-syslog" ∷ [])
                    ++ ([]
                        ∷ codes "# ── 审计 ──"
                        ∷ (bool_line (codes "audit-enable") config.audit_enable
                            ++ (flat_map (extra_line config.extras)
                                  (codes "audit-file" ∷ codes "audit-size" ∷ codes "audit-num" ∷ [])
                                ++ extra_bool_line config.extras (codes "audit-console")))))))))

unfoldable pub render_network_config : BeginnerConfig → Text
unfolding extra_line extra_bool_line join
render_network_config config = page_of (
    page_title (codes "#  SmartDNS 高级网络")
    ++ (extra_line config.extras (codes "force-qtype-SOA")
        ++ (flat_map (extra_bool_line config.extras)
              (codes "force-AAAA-SOA" ∷ codes "force-no-CNAME" ∷ [])
            ++ flat_map (extra_line config.extras) (
                codes "edns-client-subnet"
                ∷ codes "dns64"
                ∷ codes "ddns-domain"
                ∷ codes "local-domain"
                ∷ codes "dnsmasq-lease-file"
                ∷ []))))

-- a server, with its options where it has any
unfoldable pub server_line : UpstreamConfig → Text
unfolding drop_while drop_end
server_line u =
    let opts = render_upstream_options u in
    let short = line_of (upstream_key u.kind) (trim u.value) in
    if is_empty (trim opts) then short else short ++ b' ' ∷ opts

-- the order of texts
unfoldable pub text_lt : Text → Text → Bool
text_lt [] [] = false
text_lt [] (d ∷ t) = true
text_lt (c ∷ s) [] = false
text_lt (c ∷ s) (d ∷ t) = ltb c d || c == d && text_lt s t

-- the `BTreeMap` of the servers by their first group, in the order of its keys
abbrev pub ServerGroups : Type 0
ServerGroups = List (Text × List UpstreamConfig)

unfoldable pub push_server : Text → UpstreamConfig → ServerGroups → ServerGroups
unfolding text_eq text_lt
push_server name u [] = (name, u ∷ []) ∷ []
push_server name u ((k, us) ∷ groups) =
    let more = push_server name u groups in
    if text_eq k name
    then (k, us ++ u ∷ []) ∷ groups
    else if text_lt name k
    then (name, u ∷ []) ∷ (k, us) ∷ groups
    else (k, us) ∷ more

pub record Grouped : Type 0 where
  pub grouped : ServerGroups
  pub ungrouped : List UpstreamConfig

unfoldable pub place_server : List Text → UpstreamConfig → Grouped → Grouped
unfolding push_server
place_server [] u g = record g { ungrouped = g.ungrouped ++ u ∷ [] }
place_server (name ∷ others) u g = record g { grouped = push_server name u g.grouped }

unfoldable pub group_server : Grouped → UpstreamConfig → Grouped
unfolding place_server drop_while drop_end
group_server g u = if is_empty (trim u.value) then g else place_server u.groups u g

unfoldable pub group_servers : Grouped → List UpstreamConfig → Grouped
unfolding group_server
group_servers g [] = g
group_servers g (u ∷ us) = group_servers (group_server g u) us

abbrev pub group_title : Text → Text
group_title name = codes "# ── 分组: " ++ (name ++ codes " ──")

unfoldable pub group_lines : Text × List UpstreamConfig → List Text
unfolding server_line
group_lines (name, us) = group_title name ∷ (map server_line us ++ [] ∷ [])

unfoldable pub ungrouped_lines : List UpstreamConfig → List Text
unfolding server_line
ungrouped_lines us =
    if is_empty us then [] else codes "# ── 默认组（未分组）──" ∷ (map server_line us ++ [] ∷ [])

abbrev pub default_upstreams : List UpstreamConfig
default_upstreams =
    record default_upstream {
      kind = codes "server-https";
      value = codes "https://dns.alidns.com/dns-query";
      groups = codes "cn" ∷ [];
      note = codes "国内 HTTPS DNS";
    }
    ∷ record default_upstream {
      kind = codes "server-https";
      value = codes "https://cloudflare-dns.com/dns-query";
      groups = codes "global" ∷ [];
      fallback = true;
      note = codes "海外备用 HTTPS DNS";
    }
    ∷ []

abbrev pub servers_title : List Text
servers_title = rule_of_title ∷ codes "#  上游 DNS 服务器" ∷ rule_of_title ∷ [] ∷ []

unfoldable pub render_upstreams_config : BeginnerConfig → Text
unfolding group_servers group_lines ungrouped_lines join
render_upstreams_config config =
    let upstreams = if is_empty config.upstreams then default_upstreams else config.upstreams in
    let g = group_servers (record { grouped = []; ungrouped = [] }) upstreams in
    page_of (servers_title ++ (flat_map group_lines g.grouped ++ ungrouped_lines g.ungrouped))
