-- ===== src/Config/Assets/Rules/Agreement.antt =====
-- The two readers of client and ip rules (src/config_ui.rs): `build_client_rule_assets` and
-- `build_ip_rule_assets`, which stack the open groups, and `parse_managed_assets_from_text`, which
-- keeps one.
use smartdns_plus_ui.Base.{
  Bool, true, false, ◌&&◌, List, [], ◌∷◌, ◌++◌, map, map-append, append-nil, append_assoc, ◌≡◌,
  refl, sym, ap, ap₂, subst, ◌∙◌, inl, inr, Option, none, some, if◌then◌else◌, is_empty, Bool-cases,
  Text, codes, text_eq, text_eq_iff, arith,
}
use smartdns_plus_ui.Config.Model.{
  ClientRuleAsset, IpRuleAsset, ManagedRuleGroup, ManagedClientRule, ManagedIpRule, ManagedAssets,
  no_assets,
}
use smartdns_plus_ui.Config.Lines.{directives}
use smartdns_plus_ui.Config.Managed.{
  ParseState, parse_step, parse_loop, push_domain_set, push_ip_set, parse_managed_assets_from_text,
}
use smartdns_plus_ui.Config.Assets.Rules.{
  GroupStack, stack_step, client_rules_of, ip_rules_of, with_stack, build_client_rule_assets,
  build_ip_rule_assets,
}

-- what the managed files keep of a rule
abbrev pub managed_client_rule : ClientRuleAsset → ManagedClientRule
managed_client_rule r = record { matcher = r.matcher; group_name = r.group_name }

abbrev pub managed_ip_rule : IpRuleAsset → ManagedIpRule
managed_ip_rule r = record {
  rule_type = r.rule_type;
  target = r.target;
  options = r.options;
  group_name = r.group_name;
}

-- no group begins while another is open
abbrev pub is_flat : GroupStack → List (Text × Text) → Bool
is_flat stack [] = true
is_flat stack (d ∷ ds) =
    let rest = is_flat (stack_step stack d) ds in
    (if text_eq d.0 (codes "group-begin") then is_empty stack else true) && rest

names_of : Option ManagedRuleGroup → GroupStack
names_of none = []
names_of (some g) = g.name ∷ []

-- what one directive does for both readers
record StepAgrees (path : Text) (a : ManagedAssets) (g : Option ManagedRuleGroup) (d : Text × Text)
    : Type 0 where
  names :
      names_of (parse_step (record { assets = a; in_group = g }) d).in_group
      ≡ stack_step (names_of g) d
  client_rules :
      (parse_step (record { assets = a; in_group = g }) d).assets.client_rules
      ≡ a.client_rules ++ map managed_client_rule (client_rules_of path (names_of g) d)
  ip_rules :
      (parse_step (record { assets = a; in_group = g }) d).assets.ip_rules
      ≡ a.ip_rules ++ map managed_ip_rule (ip_rules_of path (names_of g) d)

-- a case for a key by its text, or the knowledge that it is another
by_key : (P : Text → Type 0) (key name : Text) → P name → (text_eq key name ≡ false → P key) → P key
by_key P key name same other = elim (Bool-cases (text_eq key name)) [
  | inl e ↦ subst P (sym ((text_eq_iff key name).0 e)) same
  | inr e ↦ other e
]

push_domain_set_rules :
    (value : Text) (a : ManagedAssets)
    → ((push_domain_set value a).client_rules ≡ a.client_rules)
      × ((push_domain_set value a).ip_rules ≡ a.ip_rules)
unfolding push_domain_set
push_domain_set_rules value a = (ground arith, ground arith)

push_ip_set_rules :
    (value : Text) (a : ManagedAssets)
    → ((push_ip_set value a).client_rules ≡ a.client_rules)
      × ((push_ip_set value a).ip_rules ≡ a.ip_rules)
unfolding push_ip_set
push_ip_set_rules value a = (ground arith, ground arith)

module _ (path value : Text) (a : ManagedAssets) where
  abbrev StepFor : Option ManagedRuleGroup → Text → Type 0
  StepFor g key =
      (text_eq key (codes "group-begin") ≡ true → is_empty (names_of g) ≡ true)
      → StepAgrees path a g (key, value)

  -- the keys that move the group
  begin-agrees : (g : Option ManagedRuleGroup) → StepFor g (codes "group-begin")
  unfolding parse_step stack_step client_rules_of ip_rules_of names_of
  begin-agrees none flat = record {
    names = refl;
    client_rules = sym (append-nil a.client_rules);
    ip_rules = sym (append-nil a.ip_rules);
  }
  begin-agrees (some g) flat = absurd (cc (flat refl))

  match-agrees : (g : Option ManagedRuleGroup) → StepFor g (codes "group-match")
  unfolding parse_step stack_step client_rules_of ip_rules_of names_of
  match-agrees none flat = record {
    names = refl;
    client_rules = sym (append-nil a.client_rules);
    ip_rules = sym (append-nil a.ip_rules);
  }
  match-agrees (some g) flat = record {
    names = refl;
    client_rules = sym (append-nil a.client_rules);
    ip_rules = sym (append-nil a.ip_rules);
  }

  end-agrees : (g : Option ManagedRuleGroup) → StepFor g (codes "group-end")
  unfolding parse_step stack_step client_rules_of ip_rules_of names_of
  end-agrees none flat = record {
    names = refl;
    client_rules = sym (append-nil a.client_rules);
    ip_rules = sym (append-nil a.ip_rules);
  }
  end-agrees (some g) flat = record {
    names = refl;
    client_rules = sym (append-nil a.client_rules);
    ip_rules = sym (append-nil a.ip_rules);
  }

  client_rules-agrees : (g : Option ManagedRuleGroup) → StepFor g (codes "client-rules")
  unfolding parse_step stack_step client_rules_of ip_rules_of names_of
  client_rules-agrees none flat = record {
    names = refl;
    client_rules = refl;
    ip_rules = sym (append-nil a.ip_rules);
  }
  client_rules-agrees (some g) flat = record {
    names = refl;
    client_rules = refl;
    ip_rules = sym (append-nil a.ip_rules);
  }

  -- a key that moves no group and is no client rule
  other-agrees :
      (g : Option ManagedRuleGroup) (key : Text)
      → text_eq key (codes "group-begin") ≡ false
      → text_eq key (codes "group-match") ≡ false
      → text_eq key (codes "group-end") ≡ false
      → text_eq key (codes "client-rules") ≡ false
      → StepAgrees path a g (key, value)
  unfolding parse_step stack_step client_rules_of ip_rules_of names_of
  other-agrees none key h1 h2 h3 h4 = record {
    names = ground arith;
    client_rules = ground (
      arith,
      append-nil a.client_rules,
      push_domain_set_rules value a,
      push_ip_set_rules value a,
    );
    ip_rules =
        ground
          (arith, append-nil a.ip_rules, push_domain_set_rules value a, push_ip_set_rules value a);
  }
  other-agrees (some g) key h1 h2 h3 h4 = record {
    names = ground arith;
    client_rules = ground (
      arith,
      append-nil a.client_rules,
      push_domain_set_rules value a,
      push_ip_set_rules value a,
    );
    ip_rules =
        ground
          (arith, append-nil a.ip_rules, push_domain_set_rules value a, push_ip_set_rules value a);
  }

step-agrees :
    (path key value : Text) (a : ManagedAssets) (g : Option ManagedRuleGroup)
    → StepFor path value a g key
step-agrees path key value a g =
    by_key (StepFor path value a g) key (codes "group-begin") (begin-agrees path value a g) λ h1.
      by_key (StepFor path value a g) key (codes "group-match") (match-agrees path value a g) λ h2.
        by_key (StepFor path value a g) key (codes "group-end") (end-agrees path value a g) λ h3.
          by_key (StepFor path value a g) key (codes "client-rules")
            (client_rules-agrees path value a g)
            λ h4 flat. other-agrees path value a g key h1 h2 h3 h4

is_flat-head :
    (key value : Text) (stack : GroupStack) (ds : List (Text × Text))
    → is_flat stack ((key, value) ∷ ds) ≡ true
    → (text_eq key (codes "group-begin") ≡ true → is_empty stack ≡ true)
      × (is_flat (stack_step stack (key, value)) ds ≡ true)
is_flat-head key value stack ds h = (λ e. ground arith, ground arith)

regroup :
    {A B : Type 0} (f : A → B) (old : List B) (now later : List A)
    → (old ++ map f now) ++ map f later ≡ old ++ map f (now ++ later)
regroup f old now later =
    append_assoc old (map f now) (map f later) ∙ ap (λ l. old ++ l) (sym (map-append f now later))

parse_loop-agrees :
    (path : Text) (ds : List (Text × Text)) (s : ParseState)
    → is_flat (names_of s.in_group) ds ≡ true
    → ((parse_loop s ds).client_rules
        ≡ s.assets.client_rules
          ++ map managed_client_rule (with_stack (client_rules_of path) (names_of s.in_group) ds))
      × ((parse_loop s ds).ip_rules
          ≡ s.assets.ip_rules
            ++ map managed_ip_rule (with_stack (ip_rules_of path) (names_of s.in_group) ds))
unfolding parse_loop with_stack
parse_loop-agrees path [] s h =
    (ground (arith, append-nil s.assets.client_rules), ground (arith, append-nil s.assets.ip_rules))
parse_loop-agrees path ((key, value) ∷ ds) s h =
    let (begins, flat) = is_flat-head key value (names_of s.in_group) ds h in
    let step = step-agrees path key value s.assets s.in_group begins in
    let next = parse_step s (key, value) in
    let (client, ip) = parse_loop-agrees path ds next (rw step.names flat) in
    (
      client
          ∙ ap₂
              (λ old stack.
                old ++ map managed_client_rule (with_stack (client_rules_of path) stack ds))
              step.client_rules step.names
          ∙ regroup managed_client_rule s.assets.client_rules
              (client_rules_of path (names_of s.in_group) (key, value))
              (with_stack (client_rules_of path) (stack_step (names_of s.in_group) (key, value))
                ds),
      ip
          ∙ ap₂ (λ old stack. old ++ map managed_ip_rule (with_stack (ip_rules_of path) stack ds))
              step.ip_rules step.names
          ∙ regroup managed_ip_rule s.assets.ip_rules
              (ip_rules_of path (names_of s.in_group) (key, value))
              (with_stack (ip_rules_of path) (stack_step (names_of s.in_group) (key, value)) ds),
    )

-- The client rules and the ip rules that the views of a configuration show for a source are those
-- that the reader of managed files finds in its text, with the same groups, in the same order: for a
-- source that stands in no group itself, and in which no group begins while another is open.
pub build_rule_assets_agree :
    (path text : Text)
    → is_flat [] (directives text) ≡ true
    → (map managed_client_rule (
          build_client_rule_assets
            (record { path = path; text = text; implicit_group = none } ∷ []))
        ≡ (parse_managed_assets_from_text text).client_rules)
      × (map managed_ip_rule
            (build_ip_rule_assets (record { path = path; text = text; implicit_group = none } ∷ []))
          ≡ (parse_managed_assets_from_text text).ip_rules)
unfolding build_client_rule_assets build_ip_rule_assets parse_managed_assets_from_text names_of
build_rule_assets_agree path text flat =
    let (client, ip) =
      parse_loop-agrees path (directives text) (record { assets = no_assets; in_group = none })
        flat in
    (
      ap (λ l. map managed_client_rule l)
            (append-nil (with_stack (client_rules_of path) [] (directives text)))
          ∙ sym client,
      ap (λ l. map managed_ip_rule l)
            (append-nil (with_stack (ip_rules_of path) [] (directives text)))
          ∙ sym ip,
    )
