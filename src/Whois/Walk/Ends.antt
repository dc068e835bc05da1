-- ===== src/Whois/Walk/Ends.antt =====
-- When the walk from server to server ends, and when it does not (src/whois.rs).
use smartdns_plus_ui.Base.{
  ℕ, zero, suc, ◌<◌, Bool, true, false, not, ◌≡◌, ◌⊎◌, inl, inr, refl, arith, Option, some,
  is_empty, Text, text_eq, Option-cases, Bool-cases,
}
use smartdns_plus_ui.Whois.{WhoIsInfo, parser_whois, ServerLists}
use smartdns_plus_ui.Whois.Walk.{Walked, running, walk}

-- the walk came to an end
abbrev pub has_ended : Walked → Bool
has_ended running = false
has_ended _ = true

-- the server that an answer refers to
abbrev pub referred : Text → Text
referred whois = (parser_whois whois).0.refer

module _ (to_lowercase : Text → Text) (answers : Text → Text → Option Text)
    (domain main_domain : Text) where
  -- The walk ends within one turn more than the rank of the server it starts at, where every answer
  -- refers to the server that gave it or to one of a smaller rank.
  pub walk-has_ended :
      (rank : Text → ℕ)
      → ((server whois : Text)
          → answers server main_domain ≡ some whois
          → (text_eq server (referred whois) ≡ true) ⊎ (rank (referred whois) < rank server))
      → (fuel : ℕ) (server : Text) (lists : ServerLists) (last : WhoIsInfo) → rank server < fuel
      → has_ended (walk to_lowercase answers domain main_domain fuel server lists last) ≡ true
  unfolding walk
  walk-has_ended rank falls zero server lists last h = absurd (omega arith)
  walk-has_ended rank falls (suc fuel) server lists last h = elim (Bool-cases (is_empty server)) [
    | inl stop ↦ rw stop refl
    | inr go ↦ rw go (elim (Option-cases (answers server main_domain)) [
      | inl lost ↦ rw (lost, walk) (ground arith)
      | inr (whois, e) ↦
          rw (e, walk)
            elim (Bool-cases (not (is_empty (parser_whois whois).0.organization))) [
              | inl known ↦ rw known refl
              | inr unknown ↦ rw unknown (elim (falls server whois e) [
                | inl same ↦ rw same refl
                | inr below ↦ elim (Bool-cases (text_eq server (referred whois))) [
                  | inl same ↦ rw same refl
                  | inr other ↦
                      rw other
                        (walk-has_ended rank falls fuel (referred whois) _ _ (omega (arith, below)))
                ]
              ])
            ]
    ])
  ]

  -- Two servers that refer to each other, for a domain of which neither names an organization: the
  -- walk has not ended after any number of turns.
  pub walk_never_ends :
      (server other ours theirs : Text)
      → is_empty server ≡ false
      → is_empty other ≡ false
      → text_eq server other ≡ false
      → text_eq other server ≡ false
      → answers server main_domain ≡ some ours
      → answers other main_domain ≡ some theirs
      → referred ours ≡ other
      → referred theirs ≡ server
      → is_empty (parser_whois ours).0.organization ≡ true
      → is_empty (parser_whois theirs).0.organization ≡ true
      → (fuel : ℕ) (lists : ServerLists) (last : WhoIsInfo)
      → walk to_lowercase answers domain main_domain fuel server lists last ≡ running
  unfolding walk
  walk_never_ends server other ours theirs s o d d' a b r q no_org no_org' zero lists last = refl
  walk_never_ends server other ours theirs s o d d' a b r q no_org no_org' (suc fuel) lists last =
      let go = walk_never_ends other server theirs ours o s d' d b a q r no_org' no_org fuel in
      rw (s, a, walk) (rw (no_org, r, d) (go _ _))
