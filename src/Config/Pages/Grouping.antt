-- ===== src/Config/Pages/Grouping.antt =====
-- The servers in the groups of their page (src/config_ui.rs).
use mathlib.Core.List.{Perm, perm_middle}
use mathlib.Core.List.Perm
use smartdns_plus_ui.Base.{
  true, false, List, [], ◌∷◌, ◌++◌, ◌≡◌, ap, subst, append-nil, append_assoc, is_empty, All,
  All-append, all, Text, text_eq, is_token, trim, trim-token, &&-eq-true, Bool-cases, inl, inr,
}
use smartdns_plus_ui.Config.Model.{UpstreamConfig}
use smartdns_plus_ui.Config.Pages.{
  text_lt, Grouped, ServerGroups, push_server, place_server, group_server, group_servers,
}
use smartdns_plus_ui.Config.Pages.Servers.{IsCleanServer}

-- the servers of the groups, in the order of the page
abbrev pub servers_of : ServerGroups → List UpstreamConfig
servers_of [] = []
servers_of ((name, us) ∷ groups) = us ++ servers_of groups

abbrev pub page_order : Grouped → List UpstreamConfig
page_order g = servers_of g.grouped ++ g.ungrouped

-- groups of clean servers, under names that are tokens
abbrev pub IsGoodGroup : Text × List UpstreamConfig → Type 0
IsGoodGroup group = (is_token group.0 ≡ true) × All IsCleanServer group.1

push_server-IsGoodGroup :
    (name : Text) (u : UpstreamConfig) (groups : ServerGroups)
    → is_token name ≡ true
    → IsCleanServer u
    → All IsGoodGroup groups
    → All IsGoodGroup (push_server name u groups)
unfolding push_server
push_server-IsGoodGroup name u [] t h g = ((t, (h, tt)), tt)
push_server-IsGoodGroup name u ((k, us) ∷ groups) t h g = elim (Bool-cases (text_eq k name)) [
  | inl same ↦ rw same ((g.0.0, All-append IsCleanServer us (u ∷ []) g.0.1 (h, tt)), g.1)
  | inr other ↦ elim (Bool-cases (text_lt name k)) [
    | inl before ↦ rw (other, before) ((t, (h, tt)), g)
    | inr behind ↦ rw (other, behind) (g.0, push_server-IsGoodGroup name u groups t h g.1)
  ]
]

push_server-perm :
    (name : Text) (u : UpstreamConfig) (groups : ServerGroups)
    → Perm (servers_of (push_server name u groups)) (u ∷ servers_of groups)
unfolding push_server
push_server-perm name u [] = Perm.refl (u ∷ [])
push_server-perm name u ((k, us) ∷ groups) = elim (Bool-cases (text_eq k name)) [
  | inl same ↦
      rw (same, append_assoc us (u ∷ []) (servers_of groups)) (perm_middle us (servers_of groups))
  | inr other ↦ elim (Bool-cases (text_lt name k)) [
    | inl before ↦ rw (other, before) (Perm.refl _)
    | inr behind ↦
        rw (other, behind)
          (Perm.trans (Perm.append (Perm.refl us) (push_server-perm name u groups))
            (perm_middle us (servers_of groups)))
  ]
]

servers_of-clean :
    (groups : ServerGroups) → All IsGoodGroup groups → All IsCleanServer (servers_of groups)
servers_of-clean [] h = tt
servers_of-clean ((name, us) ∷ groups) h =
    All-append IsCleanServer us (servers_of groups) h.0.1 (servers_of-clean groups h.1)

pub record IsGood (g : Grouped) : Type 0 where
  pub grouped : All IsGoodGroup g.grouped
  pub ungrouped : All IsCleanServer g.ungrouped

is_token-trim : (v : Text) → is_token v ≡ true → is_empty (trim v) ≡ false
is_token-trim [] h = cc
is_token-trim (c ∷ v) h = ap is_empty (trim-token (c ∷ v) h)

place_server_lem :
    (names : List Text) (u : UpstreamConfig) (g : Grouped)
    → all is_token names ≡ true
    → IsCleanServer u
    → IsGood g
    → IsGood (place_server names u g)
      × Perm (page_order (place_server names u g)) (u ∷ page_order g)
unfolding place_server
place_server_lem [] u g t h good = (
  record {
    grouped = good.grouped;
    ungrouped = All-append IsCleanServer g.ungrouped (u ∷ []) good.ungrouped (h, tt);
  },
  Perm.trans
      (Perm.append (Perm.refl (servers_of g.grouped)) (
        subst (λ l. Perm (g.ungrouped ++ u ∷ []) (u ∷ l)) (append-nil g.ungrouped)
          (perm_middle g.ungrouped [])))
      (perm_middle (servers_of g.grouped) g.ungrouped),
)
place_server_lem (name ∷ others) u g t h good =
    let (first, rest) = &&-eq-true (is_token name) (all is_token others) t in
    (
      record {
        grouped = push_server-IsGoodGroup name u g.grouped first h good.grouped;
        ungrouped = good.ungrouped;
      },
      Perm.append (push_server-perm name u g.grouped) (Perm.refl g.ungrouped),
    )

group_server_lem :
    (g : Grouped) (u : UpstreamConfig)
    → IsCleanServer u
    → IsGood g
    → IsGood (group_server g u) × Perm (page_order (group_server g u)) (u ∷ page_order g)
unfolding group_server
group_server_lem g u h good =
    rw (is_token-trim u.value h.value) (place_server_lem u.groups u g h.options.groups h good)

pub page_order-clean : (g : Grouped) → IsGood g → All IsCleanServer (page_order g)
page_order-clean g good =
    All-append IsCleanServer (servers_of g.grouped) g.ungrouped
      (servers_of-clean g.grouped good.grouped) good.ungrouped

-- All clean servers are kept, each once, and the groups stay good.
pub group_servers_lem :
    (us : List UpstreamConfig) (g : Grouped)
    → All IsCleanServer us
    → IsGood g
    → IsGood (group_servers g us) × Perm (page_order (group_servers g us)) (page_order g ++ us)
unfolding group_servers
group_servers_lem [] g h good = (good, rw append-nil (Perm.refl (page_order g)))
group_servers_lem (u ∷ us) g h good =
    let (good', one) = group_server_lem g u h.0 good in
    let (good'', all_of) = group_servers_lem us (group_server g u) h.1 good' in
    (
      good'',
      Perm.trans all_of
          (Perm.trans (Perm.append one (Perm.refl us)) (Perm.symm (perm_middle (page_order g) us))),
    )
