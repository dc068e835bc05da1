-- ===== src/Whois/Servers.antt =====
-- Which server a domain is asked at (src/whois.rs).
use smartdns_plus_ui.Base.{
  ℕ, zero, suc, ◌<◌, [], ◌∷◌, ◌≡◌, refl, arith, none, some, if◌then◌else◌, ◌==◌, filter, length,
  Text, text_eq, text_eq_iff, text_eq_refl, Option-cases, inl, inr,
}
use smartdns_plus_ui.Whois.{
  ServerLists, get_server, insert_server, after_dot, root_server, server_loop, add_server,
  get_server_by_domain,
}

-- A domain is asked at its own server, where one is known; else as the domain behind its first dot
-- is, and where it has no dot, at the root.
pub data IsAskedAt (lists : ServerLists) : Text → Text → Type 0 where
  known : {d s : Text} → get_server d lists ≡ some s → IsAskedAt lists d s
  parent :
      {d r s : Text}
      → get_server d lists ≡ none
      → after_dot d ≡ some r
      → IsAskedAt lists r s
      → IsAskedAt lists d s
  root :
      {d s : Text}
      → get_server d lists ≡ none
      → after_dot d ≡ none
      → s ≡ root_server
      → IsAskedAt lists d s

abbrev pub dots : Text → ℕ
dots s = length (filter (λ c. c == b'.') s)

dots-after_dot : (s rest : Text) → after_dot s ≡ some rest → dots s ≡ suc (dots rest)
unfolding after_dot
dots-after_dot [] rest h = cc
dots-after_dot (c ∷ s) rest h = ground (arith, dots-after_dot s rest)

length-after_dot : (s rest : Text) → after_dot s ≡ some rest → length rest < length s
unfolding after_dot
length-after_dot [] rest h = cc
length-after_dot (c ∷ s) rest h = ground (arith, length-after_dot s rest)

server_loop_total :
    (fuel turns : ℕ) (lists : ServerLists) (domain : Text)
    → length domain < fuel
    → dots domain < turns
    → (s : Text) × (server_loop fuel lists domain ≡ some s)
      × (server_loop turns lists domain ≡ some s)
      × IsAskedAt lists domain s
unfolding server_loop
server_loop_total zero turns lists domain h k = absurd (omega arith)
server_loop_total (suc fuel) zero lists domain h k = absurd (omega arith)
server_loop_total (suc fuel) (suc turns) lists domain h k =
    elim (Option-cases (get_server domain lists)) [
      | inr (s, e) ↦ (s, rw (e, server_loop) refl, rw (e, server_loop) refl, known e)
      | inl e ↦ elim (Option-cases (after_dot domain)) [
        | inl last ↦ (
          root_server,
          rw (e, server_loop) (rw (last, server_loop) refl),
          rw (e, server_loop) (rw (last, server_loop) refl),
          root e last refl,
        )
        | inr (r, more) ↦
            let (s, found, found', asked) =
              server_loop_total fuel turns lists r (omega (arith, length-after_dot domain r more))
                (omega (arith, dots-after_dot domain r more)) in
            (
              s,
              rw (e, server_loop) (rw (more, server_loop) found),
              rw (e, server_loop) (rw (more, server_loop) found'),
              parent e more asked,
            )
      ]
    ]

get_server-insert_server :
    (k j server : Text) (lists : ServerLists)
    → get_server j (insert_server k server lists)
      ≡ (if text_eq k j then some server else get_server j lists)
unfolding get_server insert_server
get_server-insert_server k j server [] = refl
get_server-insert_server k j server ((d, s) ∷ lists) = ground (
  arith,
  text_eq_iff k j,
  text_eq_iff d k,
  text_eq_iff d j,
  get_server-insert_server k j server lists,
)

module _ (to_lowercase : Text → Text) where
  -- Every domain is asked at some server: at the one known for the longest of the domains that it
  -- ends in, or at the root. The loop has found it once it made one turn more than the domain, in
  -- lower case, has dots.
  pub get_server_by_domain_total :
      (lists : ServerLists) (domain : Text)
      → (s : Text) × (get_server_by_domain to_lowercase lists domain ≡ some s)
        × (server_loop (suc (dots (to_lowercase domain))) lists (to_lowercase domain) ≡ some s)
        × IsAskedAt lists (to_lowercase domain) s
  unfolding get_server_by_domain
  get_server_by_domain_total lists domain =
      server_loop_total (suc (length (to_lowercase domain))) (suc (dots (to_lowercase domain)))
        lists (to_lowercase domain) (omega arith) (omega arith)

  -- A domain is asked at the server that was added for it last, and adding one changes what is
  -- known of no other domain.
  pub get_server-add_server :
      (lists : ServerLists) (domain server other : Text)
      → (get_server_by_domain to_lowercase (add_server to_lowercase domain server lists) domain
          ≡ some server)
        × (get_server other (add_server to_lowercase domain server lists)
            ≡ (if text_eq (to_lowercase domain) other then some server else get_server other lists))
  unfolding get_server_by_domain add_server server_loop
  get_server-add_server lists domain server other =
      let key = to_lowercase domain in
      (
        rw (get_server-insert_server key key server lists, server_loop)
            (rw (text_eq_refl key) refl),
        get_server-insert_server key other server lists,
      )
