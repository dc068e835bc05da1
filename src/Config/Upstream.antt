-- ===== src/Config/Upstream.antt =====
-- The upstream servers of the beginner configuration (src/config_ui.rs): `upstream_key`,
-- `render_upstream_options` and `parse_upstream_config`.
pub mod Options
pub mod Reading
pub mod RoundTrip
use smartdns_plus_ui.Base.{
  Bool, true, false, not, ◌||◌, List, [], ◌∷◌, ◌++◌, if◌then◌else◌, is_empty, flat_map, Text, codes,
  text_eq, trim, drop_while, drop_end, starts_with, words_from, split_whitespace, join,
}
use smartdns_plus_ui.Config.Model.{UpstreamConfig, default_upstream}
use smartdns_plus_ui.Config.Managed.{one_of}

-- the key under which a server is written
unfoldable pub upstream_key : Text → Text
unfolding text_eq drop_while drop_end
upstream_key kind =
    let k = trim kind in
    if one_of k (codes "server" ∷ codes "udp" ∷ [])
    then codes "server"
    else if one_of k (codes "server-tcp" ∷ codes "tcp" ∷ [])
    then codes "server-tcp"
    else if one_of k (codes "server-tls" ∷ codes "tls" ∷ [])
    then codes "server-tls"
    else if one_of k (codes "server-https" ∷ codes "https" ∷ [])
    then codes "server-https"
    else if one_of k (codes "server-quic" ∷ codes "quic" ∷ [])
    then codes "server-quic"
    else if one_of k (codes "server-http3" ∷ codes "http3" ∷ codes "h3" ∷ [])
    then codes "server-http3"
    else codes "server"

-- an option with its value, where there is one
unfoldable pub text_part : Text → Text → List Text
unfolding drop_while drop_end
text_part name value = let v = trim value in if is_empty v then [] else (name ++ b' ' ∷ v) ∷ []

unfoldable pub flag_part : Text → Bool → List Text
flag_part name on = if on then name ∷ [] else []

unfoldable pub plain_part : Text → List Text
unfolding drop_while drop_end
plain_part value = let v = trim value in if is_empty v then [] else v ∷ []

unfoldable pub option_parts : UpstreamConfig → List Text
unfolding text_part flag_part plain_part
option_parts u =
    flat_map (text_part (codes "-group")) u.groups
    ++ (flag_part (codes "-exclude-default-group") u.exclude_default_group
        ++ (text_part (codes "-proxy") u.proxy_name
            ++ (text_part (codes "-bootstrap-dns") u.bootstrap_dns
                ++ (text_part (codes "-host-ip") u.host_ip
                    ++ (text_part (codes "-subnet") u.subnet
                        ++ (flag_part (codes "-fallback") u.fallback ++ plain_part u.options))))))

unfoldable pub render_upstream_options : UpstreamConfig → Text
unfolding option_parts join
render_upstream_options u = join (b' ' ∷ []) (option_parts u)

-- a token of the options: one that takes a value, one that stands alone, or another
pub data OptionName : Type 0 where
  group proxy bootstrap_dns host_ip subnet : OptionName

pub data FlagName : Type 0 where
  exclude_default_group fallback : FlagName

pub data TokenKind : Type 0 where
  named : OptionName → TokenKind
  flag : FlagName → TokenKind
  other : TokenKind

unfoldable pub token_kind : Text → TokenKind
unfolding text_eq
token_kind token =
    if one_of token (codes "-g" ∷ codes "-group" ∷ [])
    then named group
    else if one_of token (codes "-e" ∷ codes "-exclude-default-group" ∷ [])
    then flag exclude_default_group
    else if text_eq token (codes "-proxy")
    then named proxy
    else if one_of token (codes "-b" ∷ codes "-bootstrap-dns" ∷ [])
    then named bootstrap_dns
    else if text_eq token (codes "-host-ip")
    then named host_ip
    else if text_eq token (codes "-subnet")
    then named subnet
    else if text_eq token (codes "-fallback")
    then flag fallback
    else other

abbrev pub set_option : OptionName → Text → UpstreamConfig → UpstreamConfig
set_option group v cfg = record cfg { groups = cfg.groups ++ v ∷ [] }
set_option proxy v cfg = record cfg { proxy_name = v }
set_option bootstrap_dns v cfg = record cfg { bootstrap_dns = v }
set_option host_ip v cfg = record cfg { host_ip = v }
set_option subnet v cfg = record cfg { subnet = v }

abbrev pub set_flag : FlagName → UpstreamConfig → UpstreamConfig
set_flag exclude_default_group cfg = record cfg { exclude_default_group = true }
set_flag fallback cfg = record cfg { fallback = true }

-- the configuration that is filled, and the tokens that are passed through
abbrev pub Filled : Type 0
Filled = UpstreamConfig × List Text

-- the last token has no value
abbrev pub read_last : TokenKind → Text → Filled → Filled
read_last (flag f) token (cfg, passthrough) = (set_flag f cfg, passthrough)
read_last (named n) token (cfg, passthrough) = (cfg, passthrough ++ token ∷ [])
read_last other token (cfg, passthrough) = (cfg, passthrough ++ token ∷ [])

-- the loop over the tokens
unfoldable pub read_options : List Text → Filled → Filled
unfolding token_kind starts_with
read_options [] filled = filled
read_options (token ∷ []) filled = read_last (token_kind token) token filled
read_options (token ∷ next ∷ rest) (cfg, passthrough) = elim (token_kind token) [
  | named n ↦ read_options rest (set_option n next cfg, passthrough)
  | flag f ↦ read_options (next ∷ rest) (set_flag f cfg, passthrough)
  | other ↦ elim (starts_with next (codes "-")) [
    | false ↦ read_options rest (cfg, passthrough ++ token ∷ next ∷ [])
    | true ↦ read_options (next ∷ rest) (cfg, passthrough ++ token ∷ [])
  ]
]

unfoldable pub parse_upstream_config : Text → Text → Text → UpstreamConfig
unfolding read_options words_from join
parse_upstream_config kind value options =
    let filled =
      read_options (split_whitespace options)
        (record default_upstream { kind = kind; value = value }, []) in
    record filled.0 { options = join (b' ' ∷ []) filled.1 }
