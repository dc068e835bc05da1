-- ===== src/Lib.antt =====
-- Verification of smartdns-plus-ui, the web interface of SmartDNS that runs as its plugin.
--
-- The program (src/) has a data path and a configuration editor. On the data path the plugin hands
-- each DNS request to the data server (src/data_server.rs), which counts it (src/data_stats.rs),
-- queues it, takes the queue in batches and writes queries and clients to SQLite (src/db.rs); log
-- lines go to the streams of connected readers (src/server_log.rs). The HTTP interface reads the
-- tables back, page by page, through the query builders of src/db.rs. The editor
-- (src/config_ui.rs) parses configuration text, validates it, and writes managed files.
--
-- Base: texts as lists of code points, with the string functions of the language's standard
--   library that the source calls (trim, lines, split_whitespace, splitn, …), decimal numbers,
--   words of 32 and 64 bits, and the lemmas on lists.
-- Config: src/config_ui.rs.
--   Config/Model: the structs. Config/Lines: logical_lines, parse_named_option,
--     split_target_value, split_target_options. Config/Managed: parse_managed_assets_from_text.
--   Config/Render: render_sets_text, render_routing_items_text, render_rule_entries_text,
--     render_managed_assets_text. Config/RoundTrip: reading back what the writers wrote.
--   Config/RuleSet: the items of a rule-set file, as in read_rule_set_detail and
--     save_rule_set_file, with the file given by its text.
--   Config/Beginner and Config/Upstream: parse_beginner_config and parse_upstream_config.
--   Config/Pages: the pages that are written of the beginner configuration.
--   Config/Assets: parse_routing_items, the build_* functions of the views, and
--     render_detected_rules_text. Config/Paths: the paths of the standard library, and
--     resolve_include_path. Config/Include: collect_config_sources.
--   Config/Block: ensure_managed_block and render_effective_config_preview.
--   Config/Store: write_text_atomic, backup_file and write_text_with_backup_if_changed, on files
--     whose operations fail as a parameter says. Config/Save: save_beginner_config,
--     save_managed_assets, apply_working_config and restore_backup.
--   Config/Validate: validate_beginner_config and validate_managed_assets.
-- Db: src/db.rs.
--   Db/Param: the parameters of lists. Db/Where: get_domain_sql_where and get_client_sql_where.
--   Db/Listing: get_domain_list and get_client_list around them.
--   Db/Tables: insert_domain, insert_client and the deletions, on tables as lists of rows.
-- Stats: src/data_stats.rs: DataStatsItem, load_status_data and save_status_data.
-- Log: src/server_log.rs: get_log_stream, dispatch_log and dispatch_audit_log.
-- Server: src/data_server.rs: send_request, data_server_handle_dns_request and server_check;
--   Server/Loop has the arms of the select! of data_server_loop as events of a step function.
-- Http: src/http_server.rs, src/http_server_api.rs and src/http_jwt.rs.
--   Http/Path: normalize_path and the file that server_handle_http_request serves for a path.
--   Http/Login: login_attempts_check, login_attempts_reset and api_auth_login.
--   Http/Token: get_token_from_header, auth_token_is_valid and the tokens of Jwt.
--   Http/Api: register, get_router and server_handle_http_api_request; Http/Api/Routes: the table
--     that API::new registers.
--   Http/Lists: api_domain_get_list, api_client_get_list and the deletions, with their parameters.
-- Whois: src/whois.rs: parser_whois, get_server_by_domain and query.
-- Utils: parse_value of src/utils.rs, and the settings that are read by it.
-- Tests: runs of the definitions, and each theorem applied to concrete data.
--
-- Numbers are natural numbers; where the source wraps around, the model takes the remainder by
-- 2^32 or 2^64. What is not in src/ is a parameter of the definitions: SQLite (which rows it
-- refuses, whether a transaction commits, what it answers to a statement), the clock, the free
-- disk space, the local offset of time, which files exist, the router of paths, the library that
-- signs tokens, the check of a password against its hash, the decoding of a cookie, the lower case
-- of letters beyond ASCII, and what a whois server answers. Maps are association lists in the
-- order of first insertion. Loops are recursions on the list that the source runs through, but for
-- four: that of get_server_by_domain has one turn more of fuel than the domain has characters,
-- which is proved to be enough; the depth of the files that a configuration includes is bounded by
-- fuel for more than the files there are, with their groups, which is proved to be enough;
-- trim_start_matches has the length of its text for fuel; and the walk of query of a whois server
-- has fuel as a parameter, since it need not end. What a disk does is a parameter too: in
-- Config/Include what it answers, in Config/Store which of its operations fail, and how.
--
-- Not modelled: the list of backups and the overview of src/config_ui.rs; the statistics queries
-- and top lists of src/db.rs; the worker of src/data_stats.rs; two dispatches of a log line that
-- interleave between the read lock and the write lock; sockets, TLS, websockets, JSON, the
-- plugin's foreign functions, and the web page.
pub mod Base
pub mod Config
pub mod Db
pub mod Stats
pub mod Log
pub mod Server
pub mod Http
pub mod Whois
pub mod Utils
pub mod Tests
