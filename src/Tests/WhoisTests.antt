-- ===== src/Tests/WhoisTests.antt =====
-- The whois client of src/whois.rs on small inputs.
use smartdns_plus_ui.Base.{
  suc, ℕ, ◌<◌, ◌≡◌, ◌⊎◌, inl, inr, refl, arith, true, [], ◌∷◌, ◌++◌, Option, none, some, map,
  if◌then◌else◌, Bool-cases, Text, codes, text_eq, to_ascii_lowercase, is_whitespace,
}
use smartdns_plus_ui.Whois.{
  add_server, get_server, server_loop, empty_info, parser_whois, ServerLists, root_server,
  get_server_by_domain,
}
use smartdns_plus_ui.Whois.Servers.{
  dots, IsAskedAt, get_server_by_domain_total, get_server-add_server,
}
use smartdns_plus_ui.Whois.Walk.{running, found, walk, query}
use smartdns_plus_ui.Whois.Walk.Ends.{has_ended, referred, walk-has_ended, walk_never_ends}

abbrev lower : Text → Text
lower = map to_ascii_lowercase

abbrev known_servers : ServerLists
known_servers = (codes "example", codes "whois.example") ∷ []

get_server_by_domain_total_example :
    (s : Text) × (get_server_by_domain lower known_servers (codes "A.b.Example") ≡ some s)
    × (server_loop
          (suc (dots (lower (codes "A.b.Example"))))
          known_servers
          (lower (codes "A.b.Example"))
        ≡ some s)
    × IsAskedAt known_servers (lower (codes "A.b.Example")) s
get_server_by_domain_total_example =
    get_server_by_domain_total lower known_servers (codes "A.b.Example")

get_server-add_server_example :
    (get_server_by_domain lower
        (add_server lower (codes "EXAMPLE") (codes "w2.example") known_servers)
        (codes "EXAMPLE")
      ≡ some (codes "w2.example"))
    × (get_server
          (codes "com")
          (add_server lower (codes "EXAMPLE") (codes "w2.example") known_servers)
        ≡ (if text_eq (lower (codes "EXAMPLE")) (codes "com")
            then some (codes "w2.example")
            else get_server (codes "com") known_servers))
get_server-add_server_example =
    get_server-add_server lower known_servers (codes "EXAMPLE") (codes "w2.example") (codes "com")

abbrev newline : Text
newline = 10 ∷ []

-- the root refers to a registry, which knows the domain
abbrev root_answer : Text
root_answer = codes "refer: whois.example" ++ newline

abbrev registry_answer : Text
registry_answer =
    codes "Registrar: R" ++ (newline ++ (codes "Registrant Organization:  O" ++ newline))

abbrev some_answers : Text → Text → Option Text
some_answers server domain =
    if text_eq server root_server
    then some root_answer
    else if text_eq server (codes "whois.example")
    then some registry_answer
    else none

found_by_referral :
    query lower some_answers 3 (codes "a.example") known_servers
    ≡ found known_servers (record empty_info {
      domain = codes "a.example";
      organization = codes "O";
      registrar = codes "R";
    })
unfolding query is_whitespace to_ascii_lowercase
found_by_referral = refl

abbrev some_rank : Text → ℕ
some_rank server =
    if text_eq server root_server
    then 2
    else if text_eq server (codes "whois.example")
    then 1
    else 0

root_refers : referred root_answer ≡ codes "whois.example"
unfolding parser_whois is_whitespace
root_refers = refl

registry_refers : referred registry_answer ≡ []
unfolding parser_whois is_whitespace
registry_refers = refl

rank_of_root_referral : some_rank (referred root_answer) ≡ 1
unfolding parser_whois is_whitespace text_eq
rank_of_root_referral = refl

rank_of_registry_referral : some_rank (referred registry_answer) ≡ 0
unfolding parser_whois is_whitespace text_eq
rank_of_registry_referral = refl

falls :
    (server whois : Text)
    → some_answers server (codes "a.example") ≡ some whois
    → (text_eq server (referred whois) ≡ true) ⊎ (some_rank (referred whois) < some_rank server)
falls server whois h = elim (Bool-cases (text_eq server root_server)) [
  | inl at_root ↦
      let same : root_answer ≡ whois = cc (at_root) in
      inr (rw (← same, rank_of_root_referral, at_root) (omega arith))
  | inr elsewhere ↦ elim (Bool-cases (text_eq server (codes "whois.example"))) [
    | inl there ↦
        let same : registry_answer ≡ whois = ground arith in
        inr (rw (← same, rank_of_registry_referral, elsewhere, there) (omega arith))
    | inr nowhere ↦ absurd (ground arith)
  ]
]

walk-has_ended_example :
    has_ended
      (walk lower some_answers (codes "a.example") (codes "a.example") 3 root_server [] empty_info)
    ≡ true
unfolding text_eq
walk-has_ended_example =
    walk-has_ended lower some_answers (codes "a.example") (codes "a.example") some_rank falls 3
      root_server [] empty_info (omega arith)

-- two registries that refer to each other
abbrev circular_answers : Text → Text → Option Text
circular_answers server domain =
    if text_eq server (codes "whois.b")
    then some (codes "refer: whois.a" ++ newline)
    else some (codes "refer: whois.b" ++ newline)

walk_never_ends_example :
    walk lower circular_answers
      (codes "a.example")
      (codes "a.example")
      1000
      (codes "whois.a")
      []
      empty_info
    ≡ running
unfolding parser_whois text_eq is_whitespace
walk_never_ends_example =
    walk_never_ends lower circular_answers (codes "a.example") (codes "a.example") (codes "whois.a")
      (codes "whois.b") (codes "refer: whois.b" ++ newline) (codes "refer: whois.a" ++ newline) refl
      refl refl refl refl refl refl refl refl refl 1000 [] empty_info
