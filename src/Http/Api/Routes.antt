-- ===== src/Http/Api/Routes.antt =====
-- The routes of the API: `API::new` (src/http_server_api.rs).
pub mod Protected
use smartdns_plus_ui.Base.{
  Bool, true, false, List, [], ◌∷◌, Option, none, some, if◌then◌else◌, Text, codes, text_eq,
}
use smartdns_plus_ui.Http.Api.{MethodMap, register_method}

-- the routes of the patterns, in the order of their registration
abbrev pub RouteTable : Type 0
RouteTable = List (Text × MethodMap)

-- `register`; a pattern finds the routes that were inserted for it and no others
unfoldable pub register : Text → Text → Bool → Text → RouteTable → RouteTable
unfolding register_method text_eq
register method path auth handler [] = (path, register_method method auth handler []) ∷ []
register method path auth handler ((p, methods) ∷ table) =
    let more = register method path auth handler table in
    if text_eq p path
    then (p, register_method method auth handler methods) ∷ table
    else (p, methods) ∷ more

unfoldable pub register_in_order : List (Text × Text × Bool × Text) → RouteTable → RouteTable
unfolding register
register_in_order [] table = table
register_in_order ((method, path, auth, handler) ∷ routes) table =
    register_in_order routes (register method path auth handler table)

abbrev pub api_routes : List (Text × Text × Bool × Text)
api_routes =
    (codes "PUT", codes "/api/service/restart", true, codes "api_service_restart")
    ∷ (codes "PUT", codes "/api/cache/flush", true, codes "api_cache_flush")
    ∷ (codes "GET", codes "/api/cache/count", true, codes "api_cache_count")
    ∷ (codes "GET", codes "/api/cache/domains", true, codes "api_cache_domains")
    ∷ (codes "POST", codes "/api/auth/login", false, codes "api_auth_login")
    ∷ (codes "POST", codes "/api/auth/logout", false, codes "api_auth_logout")
    ∷ (codes "GET", codes "/api/auth/check", true, codes "api_auth_check")
    ∷ (codes "GET", codes "/api/plus/config", true, codes "api_plus_get_config")
    ∷ (codes "POST", codes "/api/plus/save", true, codes "api_plus_save")
    ∷ (codes "POST", codes "/api/plus/save-and-restart", true, codes "api_plus_save_and_restart")
    ∷ (codes "GET", codes "/api/plus/backups", true, codes "api_plus_backups")
    ∷ (codes "POST", codes "/api/plus/restore", true, codes "api_plus_restore")
    ∷ (codes "GET", codes "/api/plus/templates", true, codes "api_plus_templates")
    ∷ (codes "GET", codes "/api/plus/rule-sets/{name}", true, codes "api_plus_rule_set_get")
    ∷ (codes "POST", codes "/api/plus/rule-sets/{name}", true, codes "api_plus_rule_set_save")
    ∷ (codes "GET", codes "/api/plus/managed/assets", true, codes "api_plus_managed_assets_get")
    ∷ (codes "POST", codes "/api/plus/managed/assets", true, codes "api_plus_managed_assets_save")
    ∷ (codes "POST", codes "/api/plus/apply", true, codes "api_plus_apply")
    ∷ (codes "GET", codes "/api/plus/ip-sets/{name}", true, codes "api_plus_ip_set_get")
    ∷ (codes "POST", codes "/api/plus/ip-sets/{name}", true, codes "api_plus_ip_set_save")
    ∷ (codes "PUT", codes "/api/auth/password", true, codes "api_auth_change_password")
    ∷ (codes "POST", codes "/api/auth/refresh", true, codes "api_auth_refresh")
    ∷ (codes "GET", codes "/api/domain", true, codes "api_domain_get_list")
    ∷ (codes "DELETE", codes "/api/domain", true, codes "api_domain_delete_list")
    ∷ (codes "GET", codes "/api/domain/count", true, codes "api_domain_get_list_count")
    ∷ (codes "GET", codes "/api/domain/{id}", true, codes "api_domain_get_by_id")
    ∷ (codes "DELETE", codes "/api/domain/{id}", true, codes "api_domain_delete_by_id")
    ∷ (codes "GET", codes "/api/client", true, codes "api_client_get_list")
    ∷ (codes "DELETE", codes "/api/client/{id}", true, codes "api_client_delete_by_id")
    ∷ (codes "GET", codes "/api/log/stream", true, codes "api_log_stream")
    ∷ (codes "PUT", codes "/api/log/level", true, codes "api_log_set_level")
    ∷ (codes "GET", codes "/api/log/level", true, codes "api_log_get_level")
    ∷ (codes "GET", codes "/api/log/audit/stream", true, codes "api_audit_log_stream")
    ∷ (codes "GET", codes "/api/server/version", false, codes "api_server_version")
    ∷ (codes "GET", codes "/api/upstream-server", true, codes "api_upstream_server_get_list")
    ∷ (codes "GET", codes "/api/config/settings", true, codes "api_config_get_settings")
    ∷ (codes "PUT", codes "/api/config/settings", true, codes "api_config_set_settings")
    ∷ (codes "GET", codes "/api/stats/top/client", true, codes "api_stats_get_top_client")
    ∷ (codes "GET", codes "/api/stats/top/domain", true, codes "api_stats_get_top_domain")
    ∷ (codes "GET", codes "/api/stats/metrics", true, codes "api_stats_get_metrics")
    ∷ (codes "GET", codes "/api/stats/overview", true, codes "api_stats_get_overview")
    ∷ (
      codes "GET",
      codes "/api/stats/hourly-query-count",
      true,
      codes "api_stats_get_hourly_query_count",
    )
    ∷ (
      codes "GET",
      codes "/api/stats/daily-query-count",
      true,
      codes "api_stats_get_daily_query_count",
    )
    ∷ (codes "PUT", codes "/api/stats/refresh", true, codes "api_stats_refresh")
    ∷ (codes "GET", codes "/api/whois", true, codes "api_whois")
    ∷ (codes "GET", codes "/api/tool/term", true, codes "api_tool_term")
    ∷ []

-- `API::new`
unfoldable pub new_api : RouteTable
unfolding register_in_order
new_api = register_in_order api_routes []

-- `Router::at`: the routes of the pattern that a path meets
unfoldable pub routes_of : Text → RouteTable → Option MethodMap
unfolding text_eq
routes_of pattern_text [] = none
routes_of pattern_text ((p, methods) ∷ table) =
    let more = routes_of pattern_text table in if text_eq p pattern_text then some methods else more

-- `meets` is what the router of the library does: the pattern that a path meets, where there is one
module _ (meets : Text → Option Text) where
  unfoldable pub at_path : Text → Option MethodMap
  unfolding routes_of new_api
  at_path path = elim (meets path) [
    | none ↦ none
    | some pattern_text ↦ routes_of pattern_text new_api
  ]
