-- ===== src/Config/Pages/Reading.antt =====
-- The page of the servers, read back (src/config_ui.rs).
use mathlib.Core.List.{Perm}
use smartdns_plus_ui.Base.{
  true, false, List, [], ◌∷◌, ◌++◌, map, map-append, ◌≡◌, refl, ap, ap₂, sym, subst, ◌∙◌,
  append-nil, append_assoc, some, is_empty, flat_map, All, All-append, All-map_lem, filter_map,
  Text, codes, is_token, is_token-is_line, is_line-append, is_whitespace, drop_while, drop_end,
  starts_with, ends_with_char, join,
}
use smartdns_plus_ui.Config.Model.{UpstreamConfig, BeginnerConfig}
use smartdns_plus_ui.Config.Lines.{directive, directives}
use smartdns_plus_ui.Config.Upstream.{parse_upstream_config}
use smartdns_plus_ui.Config.Upstream.RoundTrip.{parse-render_upstream_options}
use smartdns_plus_ui.Config.RoundTrip.Text.{
  IsPlain, kept, kept-append, blank-IsPlain, directives-join, filter_map-map,
}
use smartdns_plus_ui.Config.RoundTrip.Operand.{line-IsPlain}
use smartdns_plus_ui.Config.Beginner.{
  empty_config, beginner_step, beginner_loop, parse_beginner_config,
}
use smartdns_plus_ui.Config.Pages.{
  server_line, Grouped, ServerGroups, group_servers, group_title, group_lines, ungrouped_lines,
  servers_title, render_upstreams_config,
}
use smartdns_plus_ui.Config.Pages.Grouping.{
  servers_of, page_order, IsGoodGroup, IsGood, page_order-clean, group_servers_lem,
}
use smartdns_plus_ui.Config.Pages.Ordered.{IsInOrder, group_servers-IsInOrder}
use smartdns_plus_ui.Config.Pages.Servers.{
  written_keys, IsCleanServer, one_of_elim, split_trimmed, server_value, server_line-IsEntry,
  directive-server_line, split-server_value,
}

-- the note of a server is not written
abbrev pub without_note : UpstreamConfig → UpstreamConfig
without_note u = record u { note = [] }

abbrev IsServerKey : Text → Type 0
IsServerKey key =
    (cfg : BeginnerConfig) (v : Text)
    → beginner_step cfg (key, v) ≡ record cfg {
      upstreams =
          cfg.upstreams ++ parse_upstream_config key (split_trimmed v).0 (split_trimmed v).1 ∷ [];
    }

written_keys-IsServerKey : All IsServerKey written_keys
unfolding beginner_step
written_keys-IsServerKey = (
  λ cfg v. refl,
  (λ cfg v. refl, (λ cfg v. refl, (λ cfg v. refl, (λ cfg v. refl, (λ cfg v. refl, tt))))),
)

beginner_step-server :
    (cfg : BeginnerConfig) (u : UpstreamConfig)
    → IsCleanServer u
    → beginner_step cfg (u.kind, server_value u)
      ≡ record cfg { upstreams = cfg.upstreams ++ without_note u ∷ [] }
beginner_step-server cfg u h =
    one_of_elim IsServerKey u.kind written_keys written_keys-IsServerKey h.kind cfg (server_value u)
    ∙ ap
        (λ (parts : Text × Text). record cfg {
          upstreams = cfg.upstreams ++ parse_upstream_config u.kind parts.0 parts.1 ∷ [];
        })
        (split-server_value u h)
    ∙ ap (λ (read : UpstreamConfig). record cfg { upstreams = cfg.upstreams ++ read ∷ [] })
        (parse-render_upstream_options u h.passed h.options)

abbrev server_directive : UpstreamConfig → Text × Text
server_directive u = (u.kind, server_value u)

beginner_loop-servers :
    (us : List UpstreamConfig) (cfg : BeginnerConfig)
    → All IsCleanServer us
    → beginner_loop cfg (map server_directive us)
      ≡ record cfg { upstreams = cfg.upstreams ++ map without_note us }
unfolding beginner_loop
beginner_loop-servers [] cfg h =
    ap (λ (l : List UpstreamConfig). record cfg { upstreams = l }) (sym (append-nil cfg.upstreams))
beginner_loop-servers (u ∷ us) cfg h =
    ap (λ (c : BeginnerConfig). beginner_loop c (map server_directive us))
      (beginner_step-server cfg u h.0)
    ∙ beginner_loop-servers us (record cfg { upstreams = cfg.upstreams ++ without_note u ∷ [] }) h.1
    ∙ ap (λ (l : List UpstreamConfig). record cfg { upstreams = l })
        (append_assoc cfg.upstreams (without_note u ∷ []) (map without_note us))

group_title-IsPlain : (name : Text) → is_token name ≡ true → IsPlain (group_title name)
unfolding is_whitespace ends_with_char
group_title-IsPlain name h =
    subst IsPlain
      (ap (λ (l : Text). codes "# ── 分组: " ++ l) (append_assoc name (codes " ") (codes "──")))
      (line-IsPlain b'#' (codes " ── 分组: " ++ (name ++ codes " ")) (codes "──") refl
        (is_line-append (codes "# ── 分组: ") (name ++ codes " ") refl
          (is_line-append name (codes " ") (is_token-is_line name h) refl))
        (refl, refl))

titles-IsPlain :
    IsPlain (codes "# ═══════════════════════════════════════════")
    × IsPlain (codes "#  上游 DNS 服务器")
    × IsPlain (codes "# ── 默认组（未分组）──")
unfolding drop_while drop_end is_whitespace ends_with_char
titles-IsPlain = (
  record { line = refl; trimmed = refl; trimmed_end = refl; no_backslash = refl },
  record { line = refl; trimmed = refl; trimmed_end = refl; no_backslash = refl },
  record { line = refl; trimmed = refl; trimmed_end = refl; no_backslash = refl },
)

-- the lines of servers, closed by an empty one
server_lines_lem :
    (us : List UpstreamConfig)
    → All IsCleanServer us
    → All IsPlain (map server_line us ++ [] ∷ [])
      × (kept (map server_line us ++ [] ∷ []) ≡ map server_line us)
unfolding starts_with
server_lines_lem [] h = ((blank-IsPlain, tt), refl)
server_lines_lem (u ∷ us) h =
    let (plain, same) = server_lines_lem us h.1 in
    let entry = server_line-IsEntry u h.0 in
    ((entry.0, plain), rw (entry.1, entry.2) (ap (λ (l : List Text). server_line u ∷ l) same))

group_lines_lem :
    (groups : ServerGroups)
    → All IsGoodGroup groups
    → All IsPlain (flat_map group_lines groups)
      × (kept (flat_map group_lines groups) ≡ map server_line (servers_of groups))
unfolding group_lines starts_with
group_lines_lem [] h = (tt, refl)
group_lines_lem ((name, us) ∷ groups) h =
    let (plain, same) = group_lines_lem groups h.1 in
    let (plain_us, same_us) = server_lines_lem us h.0.1 in
    (
      (
        group_title-IsPlain name h.0.0,
        All-append IsPlain (map server_line us ++ [] ∷ []) (flat_map group_lines groups) plain_us
            plain,
      ),
      kept-append (map server_line us ++ [] ∷ []) (flat_map group_lines groups)
          ∙ ap₂ (λ (x y : List Text). x ++ y) same_us same
          ∙ sym (map-append server_line us (servers_of groups)),
    )

ungrouped_lines_lem :
    (us : List UpstreamConfig)
    → All IsCleanServer us
    → All IsPlain (ungrouped_lines us) × (kept (ungrouped_lines us) ≡ map server_line us)
unfolding ungrouped_lines starts_with
ungrouped_lines_lem [] h = (tt, refl)
ungrouped_lines_lem (u ∷ us) h =
    let (plain, same) = server_lines_lem (u ∷ us) h in ((titles-IsPlain.2, plain), same)

abbrev lines_of : Grouped → List Text
lines_of g = servers_title ++ (flat_map group_lines g.grouped ++ ungrouped_lines g.ungrouped)

lines_of_lem :
    (g : Grouped)
    → IsGood g
    → All IsPlain (lines_of g) × (kept (lines_of g) ≡ map server_line (page_order g))
unfolding starts_with
lines_of_lem g good =
    let (rule, title, other) = titles-IsPlain in
    let (plain, same) = group_lines_lem g.grouped good.grouped in
    let (plain', same') = ungrouped_lines_lem g.ungrouped good.ungrouped in
    (
      (
        rule,
        (
          title,
          (
            rule,
            (
              blank-IsPlain,
              All-append IsPlain (flat_map group_lines g.grouped) (ungrouped_lines g.ungrouped)
                  plain plain',
            ),
          ),
        ),
      ),
      kept-append (flat_map group_lines g.grouped) (ungrouped_lines g.ungrouped)
          ∙ ap₂ (λ (x y : List Text). x ++ y) same same'
          ∙ sym (map-append server_line (servers_of g.grouped) g.ungrouped),
    )

directives-lines_of :
    (g : Grouped)
    → IsGood g
    → directives (join (b'\n' ∷ []) (lines_of g ++ [] ∷ [])) ≡ map server_directive (page_order g)
directives-lines_of g good =
    let (plain, same) = lines_of_lem g good in
    directives-join (lines_of g) plain
    ∙ ap (λ (l : List Text). filter_map directive l) same
    ∙ filter_map-map server_line server_directive (page_order g) (
        All-map_lem IsCleanServer (λ u. directive (server_line u) ≡ some (server_directive u))
          directive-server_line (page_order g) (page_order-clean g good))

-- Reading the page of the servers that was written gives back all servers of the configuration,
-- each once, with all that is written of them, and nothing else. They come in the order of their
-- first groups, that of the texts of the names, and those with no group come last. This is for at
-- least one server, and for servers of the kinds that are written, with a token for a value and
-- clean options.
pub parse-render_upstreams_config :
    (config : BeginnerConfig)
    → is_empty config.upstreams ≡ false
    → All IsCleanServer config.upstreams
    → (us : List UpstreamConfig) × Perm us config.upstreams
      × IsInOrder us
      × (parse_beginner_config (render_upstreams_config config)
          ≡ record empty_config { upstreams = map without_note us })
unfolding parse_beginner_config render_upstreams_config
parse-render_upstreams_config config some_are h =
    let none_yet : Grouped = record { grouped = []; ungrouped = [] } in
    let g = group_servers none_yet config.upstreams in
    let (good, all_of) =
      group_servers_lem config.upstreams none_yet h (record { grouped = tt; ungrouped = tt }) in
    (
      page_order g,
      all_of,
      group_servers-IsInOrder config.upstreams,
      rw some_are (
          ap (beginner_loop empty_config) (directives-lines_of g good)
          ∙ beginner_loop-servers (page_order g) empty_config (page_order-clean g good)),
    )
