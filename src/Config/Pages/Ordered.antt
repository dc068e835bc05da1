-- ===== src/Config/Pages/Ordered.antt =====
-- The order of the servers on their page (src/config_ui.rs).
use smartdns_plus_ui.Base.{
  Bool, true, false, List, [], ◌∷◌, ◌++◌, ◌≡◌, refl, arith, Option, none, some, is_empty, All,
  All-append, All-map_lem, Text, text_eq, text_eq_iff, trim, Bool-cases, inl, inr,
}
use smartdns_plus_ui.Config.Model.{UpstreamConfig}
use smartdns_plus_ui.Config.Pages.{
  text_lt, Grouped, ServerGroups, push_server, place_server, group_server, group_servers,
}
use smartdns_plus_ui.Config.Pages.Grouping.{servers_of, page_order}

-- the group a server is shown in
abbrev pub first_group : UpstreamConfig → Option Text
first_group u = elim u.groups [ [] ↦ none | name ∷ others ↦ some name ]

-- a group comes before one with a greater name, and before the servers with none
abbrev pub is_before : Option Text → Option Text → Bool
is_before none b = false
is_before (some a) none = true
is_before (some a) (some b) = text_lt a b

-- no later server has a group that comes before
abbrev pub IsInOrder : List UpstreamConfig → Type 0
IsInOrder [] = Unit
IsInOrder (u ∷ us) = All (λ v. is_before (first_group v) (first_group u) ≡ false) us × IsInOrder us

text_lt_irrefl : (a : Text) → text_lt a a ≡ false
unfolding text_lt
text_lt_irrefl [] = refl
text_lt_irrefl (c ∷ a) = ground (arith, text_lt_irrefl a)

text_lt_trans : (a b c : Text) → text_lt a b ≡ true → text_lt b c ≡ true → text_lt a c ≡ true
unfolding text_lt
text_lt_trans (x ∷ a) (y ∷ b) (z ∷ c) h k = ground (arith, text_lt_trans a b c)
text_lt_trans _ _ _ h k = ground arith

text_lt_behind : (a b c : Text) → text_lt a b ≡ true → text_lt c b ≡ false → text_lt c a ≡ false
text_lt_behind a b c h k = elim (Bool-cases (text_lt c a)) [
  | inr behind ↦ behind
  | inl before ↦ absurd (ground (arith, text_lt_trans c a b before h))
]

IsInOrder-append :
    (us vs : List UpstreamConfig)
    → IsInOrder us
    → IsInOrder vs
    → All (λ u. All (λ v. is_before (first_group v) (first_group u) ≡ false) vs) us
    → IsInOrder (us ++ vs)
IsInOrder-append [] vs h k a = k
IsInOrder-append (u ∷ us) vs h k a = (
  All-append (λ v. is_before (first_group v) (first_group u) ≡ false) us vs h.0 a.0,
  IsInOrder-append us vs h.1 k a.1,
)

-- the keys ascend, and a group has the servers that name it first
abbrev IsNamed : Text → List UpstreamConfig → Type 0
IsNamed name us = All (λ u. first_group u ≡ some name) us

abbrev IsBehind : Text → Text × List UpstreamConfig → Type 0
IsBehind name group = text_lt group.0 name ≡ false

abbrev IsAscending : ServerGroups → Type 0
IsAscending [] = Unit
IsAscending ((name, us) ∷ groups) =
    IsNamed name us × All (IsBehind name) groups × IsAscending groups

push_server-IsBehind :
    (low name : Text) (u : UpstreamConfig) (groups : ServerGroups)
    → text_lt name low ≡ false
    → All (IsBehind low) groups
    → All (IsBehind low) (push_server name u groups)
unfolding push_server
push_server-IsBehind low name u [] h a = (h, tt)
push_server-IsBehind low name u ((k, us) ∷ groups) h a = elim (Bool-cases (text_eq k name)) [
  | inl same ↦ rw same a
  | inr other ↦ elim (Bool-cases (text_lt name k)) [
    | inl before ↦ rw (other, before) (h, a)
    | inr behind ↦ rw (other, behind) (a.0, push_server-IsBehind low name u groups h a.1)
  ]
]

push_server-IsAscending :
    (name : Text) (u : UpstreamConfig) (groups : ServerGroups)
    → first_group u ≡ some name
    → IsAscending groups
    → IsAscending (push_server name u groups)
unfolding push_server
push_server-IsAscending name u [] h a = ((h, tt), tt, tt)
push_server-IsAscending name u ((k, us) ∷ groups) h a = elim (Bool-cases (text_eq k name)) [
  | inl same ↦
      let here : first_group u ≡ some k = rw ((text_eq_iff k name).0 same) h in
      rw same (All-append (λ u. first_group u ≡ some k) us (u ∷ []) a.0 (here, tt), a.1, a.2)
  | inr other ↦ elim (Bool-cases (text_lt name k)) [
    | inl before ↦
        rw (other, before)
          (
            (h, tt),
            (
              text_lt_behind name k k before (text_lt_irrefl k),
              All-map_lem (IsBehind k) (IsBehind name) (λ g b. text_lt_behind name k g.0 before b)
                  groups a.1,
            ),
            a,
          )
    | inr behind ↦
        rw (other, behind)
          (
            a.0,
            push_server-IsBehind k name u groups behind a.1,
            push_server-IsAscending name u groups h a.2,
          )
  ]
]

-- the groups ascend, and all other servers have no group
pub record IsOrdered (g : Grouped) : Type 0 where
  pub grouped : IsAscending g.grouped
  pub ungrouped : All (λ u. first_group u ≡ none) g.ungrouped

place_server-IsOrdered :
    (names : List Text) (u : UpstreamConfig) (g : Grouped)
    → u.groups ≡ names
    → IsOrdered g
    → IsOrdered (place_server names u g)
unfolding place_server
place_server-IsOrdered [] u g e h = record {
  grouped = h.grouped;
  ungrouped =
      All-append (λ u. first_group u ≡ none) g.ungrouped (u ∷ []) h.ungrouped (rw e refl, tt);
}
place_server-IsOrdered (name ∷ others) u g e h = record {
  grouped = push_server-IsAscending name u g.grouped (rw e refl) h.grouped;
  ungrouped = h.ungrouped;
}

group_servers-IsOrdered :
    (us : List UpstreamConfig) (g : Grouped) → IsOrdered g → IsOrdered (group_servers g us)
unfolding group_servers group_server
group_servers-IsOrdered [] g h = h
group_servers-IsOrdered (u ∷ us) g h = elim (Bool-cases (is_empty (trim u.value))) [
  | inl skipped ↦ rw skipped (group_servers-IsOrdered us g h)
  | inr placed ↦ rw placed (
      group_servers-IsOrdered us (place_server u.groups u g)
        (place_server-IsOrdered u.groups u g refl h))
]

-- a server that is not before a group
abbrev IsNotBefore : Option Text → UpstreamConfig → Type 0
IsNotBefore group v = is_before (first_group v) group ≡ false

servers_of-IsNotBefore :
    (name : Text) (groups : ServerGroups)
    → All (IsBehind name) groups
    → IsAscending groups
    → All (IsNotBefore (some name)) (servers_of groups)
servers_of-IsNotBefore name [] b h = tt
servers_of-IsNotBefore name ((k, us) ∷ groups) b h =
    All-append (IsNotBefore (some name)) us (servers_of groups)
      (All-map_lem (λ v. first_group v ≡ some k) (IsNotBefore (some name)) (λ v e. rw e b.0) us h.0)
      (servers_of-IsNotBefore name groups b.1 h.2)

named-IsInOrder : (name : Text) (us : List UpstreamConfig) → IsNamed name us → IsInOrder us
named-IsInOrder name [] h = tt
named-IsInOrder name (u ∷ us) h = (
  All-map_lem (λ v. first_group v ≡ some name) (IsNotBefore (first_group u))
      (λ v e. rw (e, h.0) (text_lt_irrefl name)) us h.1,
  named-IsInOrder name us h.1,
)

servers_of-IsInOrder : (groups : ServerGroups) → IsAscending groups → IsInOrder (servers_of groups)
servers_of-IsInOrder [] h = tt
servers_of-IsInOrder ((name, us) ∷ groups) h =
    IsInOrder-append us (servers_of groups) (named-IsInOrder name us h.0)
      (servers_of-IsInOrder groups h.2)
      (All-map_lem (λ u. first_group u ≡ some name)
        (λ u. All (IsNotBefore (first_group u)) (servers_of groups))
        (λ u e. rw e (servers_of-IsNotBefore name groups h.1 h.2)) us h.0)

ungrouped-IsNotBefore :
    (group : Option Text) (us : List UpstreamConfig)
    → All (λ u. first_group u ≡ none) us
    → All (IsNotBefore group) us
ungrouped-IsNotBefore group us h =
    All-map_lem (λ u. first_group u ≡ none) (IsNotBefore group) (λ v e. rw e refl) us h

ungrouped-IsInOrder : (us : List UpstreamConfig) → All (λ u. first_group u ≡ none) us → IsInOrder us
ungrouped-IsInOrder [] h = tt
ungrouped-IsInOrder (u ∷ us) h =
    (ungrouped-IsNotBefore (first_group u) us h.1, ungrouped-IsInOrder us h.1)

every :
    {P : UpstreamConfig → Type 0}
    → ((u : UpstreamConfig) → P u)
    → (us : List UpstreamConfig) → All P us
every h [] = tt
every h (u ∷ us) = (h u, every h us)

page_order-IsInOrder : (g : Grouped) → IsOrdered g → IsInOrder (page_order g)
page_order-IsInOrder g h =
    IsInOrder-append (servers_of g.grouped) g.ungrouped (servers_of-IsInOrder g.grouped h.grouped)
      (ungrouped-IsInOrder g.ungrouped h.ungrouped)
      (every (λ u. ungrouped-IsNotBefore (first_group u) g.ungrouped h.ungrouped)
        (servers_of g.grouped))

-- Grouped from nothing, the servers of a page stand in the order of their groups.
pub group_servers-IsInOrder :
    (us : List UpstreamConfig)
    → IsInOrder (page_order (group_servers (record { grouped = []; ungrouped = [] }) us))
group_servers-IsInOrder us =
    page_order-IsInOrder (group_servers (record { grouped = []; ungrouped = [] }) us) (
      group_servers-IsOrdered us (record { grouped = []; ungrouped = [] })
        (record { grouped = tt; ungrouped = tt }))
