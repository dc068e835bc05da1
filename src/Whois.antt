-- ===== src/Whois.antt =====
-- The whois client, src/whois.rs: reading an answer, the servers that are known, and the walk from
-- server to server. What a server answers is a parameter.
pub mod Servers
pub mod Walk
use smartdns_plus_ui.Base.{
  ℕ, zero, suc, ◌+◌, ◌-◌, Bool, true, false, not, List, [], ◌∷◌, ◌++◌, map, Option, none, some,
  if◌then◌else◌, ◌==◌, ltb, length, is_empty, get_elem?, unwrap_or, Text, codes, text_eq, trim,
  drop_while, drop_end, strip_prefix, lines, lines_from, split_from, join,
}

pub record WhoIsInfo : Type 0 where
  pub domain : Text
  pub organization : Text
  pub address : Text
  pub city : Text
  pub country : Text
  pub registrar : Text
  pub refer : Text

abbrev pub empty_info : WhoIsInfo
empty_info = record {
  domain = [];
  organization = [];
  address = [];
  city = [];
  country = [];
  registrar = [];
  refer = [];
}

-- the fields that a line can set, and `whois_domain`
pub data Field : Type 0 where
  organization_field registrar_field address_field city_field country_field refer_field
        domain_field :
      Field

-- the prefixes in the order in which they are tried
abbrev pub prefixes : List (Text × Field)
prefixes =
    (codes "Organization:", organization_field)
    ∷ (codes "Registrar:", registrar_field)
    ∷ (codes "Registrant:", organization_field)
    ∷ (codes "Registrant Name:", organization_field)
    ∷ (codes "Registrant Organization:", organization_field)
    ∷ (codes "Registrant Street:", address_field)
    ∷ (codes "Registrant City:", city_field)
    ∷ (codes "Registrant Country:", country_field)
    ∷ (codes "Registrant Country Code:", country_field)
    ∷ (codes "Registrar WHOIS Server:", refer_field)
    ∷ (codes "refer:", refer_field)
    ∷ (codes "whois:", refer_field)
    ∷ (codes "domain:", domain_field)
    ∷ []

-- the field of a line, with its value
unfoldable pub read_field : List (Text × Field) → Text → Option (Field × Text)
unfolding strip_prefix drop_while drop_end
read_field [] line = none
read_field ((prefix, field) ∷ rest) line =
    let more = read_field rest line in
    elim (strip_prefix line prefix) [ none ↦ more | some value ↦ some (field, trim value) ]

abbrev pub set_field : Field → Text → WhoIsInfo × Text → WhoIsInfo × Text
set_field organization_field v (info, domain) = (record info { organization = v }, domain)
set_field registrar_field v (info, domain) = (record info { registrar = v }, domain)
set_field address_field v (info, domain) = (record info { address = v }, domain)
set_field city_field v (info, domain) = (record info { city = v }, domain)
set_field country_field v (info, domain) = (record info { country = v }, domain)
set_field refer_field v (info, domain) = (record info { refer = v }, domain)
set_field domain_field v (info, domain) = (info, v)

unfoldable pub parser_step : WhoIsInfo × Text → Text → WhoIsInfo × Text
unfolding read_field
parser_step found line = elim (read_field prefixes (trim line)) [
  | none ↦ found
  | some (field, value) ↦ set_field field value found
]

unfoldable pub parser_loop : WhoIsInfo × Text → List Text → WhoIsInfo × Text
unfolding parser_step
parser_loop found [] = found
parser_loop found (l ∷ ls) = parser_loop (parser_step found l) ls

-- the information, and `whois_domain`, which the caller has set to ""
unfoldable pub parser_whois : Text → WhoIsInfo × Text
unfolding parser_loop lines_from
parser_whois whois = parser_loop (empty_info, []) (lines whois)

-- `server_lists`
abbrev pub ServerLists : Type 0
ServerLists = List (Text × Text)

unfoldable pub get_server : Text → ServerLists → Option Text
unfolding text_eq
get_server domain [] = none
get_server domain ((d, s) ∷ lists) =
    let rest = get_server domain lists in if text_eq d domain then some s else rest

-- `HashMap::insert`, at the key in lower case
unfoldable pub insert_server : Text → Text → ServerLists → ServerLists
unfolding text_eq
insert_server domain server [] = (domain, server) ∷ []
insert_server domain server ((d, s) ∷ lists) =
    let rest = insert_server domain server lists in
    if text_eq d domain then (domain, server) ∷ lists else (d, s) ∷ rest

-- what stands behind the first dot
unfoldable pub after_dot : Text → Option Text
after_dot [] = none
after_dot (c ∷ s) = let rest = after_dot s in if c == b'.' then some s else rest

abbrev pub root_server : Text
root_server = codes "whois.iana.org"

-- The loop of `get_server_by_domain` with fuel; each turn shortens the domain.
unfoldable pub server_loop : ℕ → ServerLists → Text → Option Text
unfolding get_server after_dot
server_loop zero lists domain = none
server_loop (suc fuel) lists domain = elim (get_server domain lists) [
  | some s ↦ some s
  | none ↦ elim (after_dot domain) [
    | none ↦ some root_server
    | some rest ↦ server_loop fuel lists rest
  ]
]

module _ (to_lowercase : Text → Text) where
  unfoldable pub add_server : Text → Text → ServerLists → ServerLists
  unfolding insert_server
  add_server domain server lists = insert_server (to_lowercase domain) server lists

  -- the fuel is one more than the length of the domain
  unfoldable pub get_server_by_domain : ServerLists → Text → Option Text
  unfolding server_loop
  get_server_by_domain lists domain =
      server_loop (suc (length (to_lowercase domain))) lists (to_lowercase domain)
