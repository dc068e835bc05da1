-- ===== src/Whois/Walk.antt =====
-- The walk of `query` from server to server (src/whois.rs).
pub mod Ends
use smartdns_plus_ui.Base.{
  ℕ, zero, suc, ◌-◌, ◌==◌, Bool, true, false, not, List, [], ◌∷◌, ◌++◌, Option, none, some,
  if◌then◌else◌, ltb, length, is_empty, get_elem?, unwrap_or, Text, codes, text_eq, split_from,
}
use smartdns_plus_ui.Whois.{
  WhoIsInfo, empty_info, parser_whois, ServerLists, after_dot, root_server, add_server,
  get_server_by_domain,
}

-- The end of the loop over the servers: the fuel ran out, the loop was left by `break`, or `query`
-- returned, with an error or with what it found. The lists of servers are kept in each case.
pub data Walked : Type 0 where
  running : Walked
  broke : ServerLists → WhoIsInfo → Walked
  failed : ServerLists → Walked
  found : ServerLists → WhoIsInfo → Walked

-- `domain` is that of the query, `main_domain` the one that is asked for, and `answers` what a
-- server says of a domain, `none` on an error of the connection.
module _ (to_lowercase : Text → Text) (answers : Text → Text → Option Text)
    (domain main_domain : Text) where
  unfoldable pub walk : ℕ → Text → ServerLists → WhoIsInfo → Walked
  unfolding parser_whois add_server text_eq
  walk zero server lists last = running
  walk (suc fuel) server lists last =
      if is_empty server then broke lists last else elim (answers server main_domain) [
        | none ↦ if is_empty last.registrar then failed lists else found lists last
        | some whois ↦
            let (parsed, whois_domain) = parser_whois whois in
            let info = record parsed { domain = domain } in
            let last' = if is_empty info.registrar then last else info in
            let lists' =
              if is_empty whois_domain
              then lists
              else add_server to_lowercase whois_domain info.refer lists in
            let next = walk fuel info.refer lists' last' in
            if not (is_empty info.organization)
            then found lists info
            else if text_eq server info.refer
            then broke lists last'
            else next
      ]

-- `format!("{}.{}", …)` of the last pieces
abbrev dotted : List Text → Text
dotted [] = []
dotted (x ∷ []) = x
dotted (x ∷ y ∷ xs) = x ++ (b'.' ∷ dotted (y ∷ xs))

-- the piece at a place from the end, the last one first
abbrev piece : List Text → ℕ → Text
piece parts k = unwrap_or (get_elem? parts (length parts - k)) []

-- the domains that `query` asks for: the registered name, and the one below it
unfoldable pub domain_list : Text → List Text
unfolding split_from
domain_list domain =
    let parts = split_from [] b'.' domain in
    let two = dotted (piece parts 2 ∷ piece parts 1 ∷ []) in
    if ltb (length parts) 2
    then domain ∷ []
    else if ltb (length parts) 3
    then two ∷ []
    else two ∷ dotted (piece parts 3 ∷ piece parts 2 ∷ piece parts 1 ∷ []) ∷ []

-- what stands behind the first dot, unless it is in front
unfoldable pub base_domain : Text → Text
unfolding after_dot
base_domain [] = []
base_domain (c ∷ s) =
    if c == b'.' then c ∷ s else elim (after_dot (c ∷ s)) [ none ↦ c ∷ s | some rest ↦ rest ]

module _ (to_lowercase : Text → Text) (answers : Text → Text → Option Text) (fuel : ℕ)
    (domain : Text) where
  unfoldable pub query_loop : List Text → ServerLists → WhoIsInfo → Walked
  unfolding walk base_domain get_server_by_domain
  query_loop [] lists last = if is_empty last.registrar then failed lists else found lists last
  query_loop (main_domain ∷ more) lists last =
      let server =
        unwrap_or (get_server_by_domain to_lowercase lists (base_domain main_domain)) root_server in
      elim (walk to_lowercase answers domain main_domain fuel server lists last) [
        | running ↦ running
        | broke lists' last' ↦ query_loop more lists' last'
        | failed lists' ↦ failed lists'
        | found lists' info ↦ found lists' info
      ]

  unfoldable pub query : ServerLists → Walked
  unfolding query_loop domain_list
  query lists = query_loop (domain_list domain) lists (record empty_info { domain = domain })
