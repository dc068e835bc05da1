-- ===== src/Config/Validate/Groups.antt =====
-- The check of `group-begin` and `group-end` in `validate_beginner_config` against counting.
use smartdns_plus_ui.Base.{
  ℕ, zero, suc, ◌+◌, ◌-◌, ◌≤◌, Bool, true, false, not, ◌&&◌, List, [], ◌∷◌, ◌++◌, ◌≡◌, ◌↔◌, ◌⊎◌,
  inl, inr, refl, sym, ap, ap₂, ◌∙◌, all, arith, ◌==◌, Bool-cases, is_empty, take, Text, codes,
  lines,
}
use smartdns_plus_ui.Config.Model.{BeginnerConfig}
use smartdns_plus_ui.Config.Validate.{
  GroupLine, opens, closes, other, group_line, group_errors, when, is_blank,
  validate_beginner_config,
}

abbrev opened : GroupLine → ℕ
opened opens = 1
opened _ = 0

abbrev closed : GroupLine → ℕ
closed closes = 1
closed _ = 0

-- the lines that open, and that close, a group
abbrev pub begins : List Text → ℕ
begins [] = 0
begins (l ∷ ls) = opened (group_line l) + begins ls

abbrev pub ends : List Text → ℕ
ends [] = 0
ends (l ∷ ls) = closed (group_line l) + ends ls

-- From `depth` open groups, no prefix closes more groups than are open, and all are closed.
pub record IsBalanced (depth : ℕ) (ls : List Text) : Type 0 where
  pub prefixes : (n : ℕ) → ends (take n ls) ≤ depth + begins (take n ls)
  pub total : ends ls ≡ depth + begins ls

GroupLine-cases : (g : GroupLine) → (g ≡ opens) ⊎ ((g ≡ closes) ⊎ (g ≡ other))
GroupLine-cases opens = inl refl
GroupLine-cases closes = inr (inl refl)
GroupLine-cases other = inr (inr refl)

-- the rule for one more line in front
IsBalanced-cons :
    (depth depth' : ℕ) (l : Text) (ls : List Text)
    → depth + opened (group_line l) ≡ depth' + closed (group_line l)
    → IsBalanced depth' ls
    → IsBalanced depth (l ∷ ls)
IsBalanced-cons depth depth' l ls e b = record { prefixes = go; total = omega (arith, b.total) }
  where
    go : (n : ℕ) → ends (take n (l ∷ ls)) ≤ depth + begins (take n (l ∷ ls))
    go zero = omega arith
    go (suc n) = omega (arith, b.prefixes n)

IsBalanced-tail :
    (depth depth' : ℕ) (l : Text) (ls : List Text)
    → depth + opened (group_line l) ≡ depth' + closed (group_line l)
    → IsBalanced depth (l ∷ ls)
    → IsBalanced depth' ls
IsBalanced-tail depth depth' l ls e b = record {
  prefixes = λ n. omega (arith, b.prefixes (suc n));
  total = omega (arith, b.total);
}

sound : (ls : List Text) (index depth : ℕ) → group_errors index depth ls ≡ [] → IsBalanced depth ls
unfolding group_errors
sound [] index depth h = record { prefixes = λ n. go n; total = ground arith }
  where
    go : (n : ℕ) → ends (take n []) ≤ depth + begins (take n [])
    go zero = omega arith
    go (suc n) = omega arith
sound (l ∷ ls) index depth h = elim (GroupLine-cases (group_line l)) [
  | inl e ↦
      IsBalanced-cons depth (depth + 1) l ls (rw e (omega arith))
        (sound ls (index + 1) (depth + 1) (rw (e, group_errors) at h))
  | inr (inl e) ↦ elim (Bool-cases (depth == 0)) [
    | inl none_open ↦ cc (rw (e, group_errors, none_open) at h)
    | inr some_open ↦
        IsBalanced-cons depth (depth - 1) l ls (rw e (ground arith))
          (sound ls (index + 1) (depth - 1) (rw (e, group_errors, some_open) at h))
  ]
  | inr (inr e) ↦
      IsBalanced-cons depth depth l ls (rw e refl)
        (sound ls (index + 1) depth (rw (e, group_errors) at h))
]

complete :
    (ls : List Text) (index depth : ℕ) → IsBalanced depth ls → group_errors index depth ls ≡ []
unfolding group_errors
complete [] index depth b = ground (arith, b.total)
complete (l ∷ ls) index depth b = elim (GroupLine-cases (group_line l)) [
  | inl e ↦
      rw (e, group_errors)
        (complete ls (index + 1) (depth + 1)
          (IsBalanced-tail depth (depth + 1) l ls (rw e (omega arith)) b))
  | inr (inl e) ↦
      let first : closed (group_line l) + 0 ≤ depth + (opened (group_line l) + 0) = b.prefixes 1 in
      let first' : 1 ≤ depth = omega (arith, rw e at first) in
      let some_open : (depth == 0) ≡ false = ground arith in
      rw (e, group_errors, some_open)
        (complete ls (index + 1) (depth - 1)
          (IsBalanced-tail depth (depth - 1) l ls (rw e (omega arith)) b))
  | inr (inr e) ↦
      rw (e, group_errors)
        (complete ls (index + 1) depth (IsBalanced-tail depth depth l ls (rw e refl) b))
]

empty_iff : (xs : List Text) → (is_empty xs ≡ true) ↔ (xs ≡ [])
empty_iff [] = (λ _. refl, λ _. refl)
empty_iff (x ∷ xs) = (λ h. cc, λ h. cc)

is_empty-append : (xs ys : List Text) → is_empty (xs ++ ys) ≡ (is_empty xs && is_empty ys)
is_empty-append [] ys = refl
is_empty-append (x ∷ xs) ys = refl

is_empty-when : (b : Bool) (t : Text) → is_empty (when b t) ≡ not b
is_empty-when true t = refl
is_empty-when false t = refl

accepted : (a b c : Bool) → (not a && not b && c) ≡ true → (a ≡ false) × (b ≡ false) × (c ≡ true)
accepted a b c h = ground arith

-- A beginner configuration is accepted exactly when some upstream has a value, the response mode
-- is not blank, and the `group-begin` and `group-end` lines of the rules balance: no prefix ends
-- more groups than it began, and as many are ended as are begun.
pub validate_beginner_config_iff :
    (config : BeginnerConfig) (rules_text : Text)
    → ((validate_beginner_config config rules_text).is_ok ≡ true) ↔ (
        (all (λ u. is_blank u.value) config.upstreams ≡ false)
        × (is_blank config.response_mode ≡ false)
        × IsBalanced 0 (lines rules_text))
unfolding validate_beginner_config
validate_beginner_config_iff config rules_text =
    let none_set = all (λ u. is_blank u.value) config.upstreams in
    let no_mode = is_blank config.response_mode in
    let groups = group_errors 0 0 (lines rules_text) in
    let ok_eq =
      is_empty-append
        (when none_set (codes "至少需要配置一个上游 DNS 服务器。") ++ when no_mode (codes "response-mode 不能为空。"))
        groups
      ∙ ap (λ b. b && is_empty groups)
          (is_empty-append (when none_set (codes "至少需要配置一个上游 DNS 服务器。"))
              (when no_mode (codes "response-mode 不能为空。"))
            ∙ ap₂ (λ a b. a && b) (is_empty-when none_set _) (is_empty-when no_mode _)) in
    (
      λ h.
          let (u, m, g) = accepted none_set no_mode (is_empty groups) (sym ok_eq ∙ h) in
          (u, m, sound (lines rules_text) 0 0 ((empty_iff groups).0 g)),
      λ (u, m, b). ok_eq ∙ rw (u, m) ((empty_iff groups).1 (complete (lines rules_text) 0 0 b)),
    )
