-- ===== src/Config/Upstream/Options.antt =====
-- The options of an upstream server are read back as they were written (src/config_ui.rs).
use smartdns_plus_ui.Base.{
  Bool, true, false, ◌||◌, ◌&&◌, List, [], ◌∷◌, ◌++◌, ◌≡◌, inl, inr, refl, ap, sym, ◌∙◌, arith,
  append-nil, append_assoc, if◌then◌else◌, is_empty, flat_map, all, all-append, Text, codes, trim,
  trim-token, is_token, is_whitespace, drop_while, drop_end, drop_end-append, trim_end,
  trim_end-token, subst, split_whitespace, split_whitespace-cons, split_whitespace-token, join,
  &&-eq-true, Bool-cases, words_from,
}
use smartdns_plus_ui.Config.Model.{UpstreamConfig}
use smartdns_plus_ui.Config.Upstream.{
  text_part, flag_part, plain_part, option_parts, render_upstream_options, TokenKind, other,
  token_kind,
}

-- texts joined by spaces, in which some stand for several tokens
data Spells : List Text → List Text → Type 0 where
  end : Spells [] []
  two :
      {parts tokens : List Text} (a b : Text)
      → Spells parts tokens
      → Spells ((a ++ b' ' ∷ b) ∷ parts) (a ∷ b ∷ tokens)
  many :
      {parts tokens : List Text} (t : Text) (ts : List Text)
      → Spells parts tokens
      → Spells (join (b' ' ∷ []) (t ∷ ts) ∷ parts) (t ∷ (ts ++ tokens))

Spells-append :
    {ps ts qs us : List Text} → Spells ps ts → Spells qs us → Spells (ps ++ qs) (ts ++ us)
Spells-append end k = k
Spells-append (two a b h) k = two a b (Spells-append h k)
Spells-append {us} (many {tokens} t ts h) k =
    rw (append_assoc ts tokens us) (many t ts (Spells-append h k))

Spells-is_empty : {ps ts : List Text} → Spells ps ts → is_empty ps ≡ is_empty ts
Spells-is_empty end = refl
Spells-is_empty (two a b h) = refl
Spells-is_empty (many t ts h) = refl

join-append :
    (t : Text) (ts us : List Text)
    → join (b' ' ∷ []) (t ∷ (ts ++ us)) ≡ (
        if is_empty us
        then join (b' ' ∷ []) (t ∷ ts)
        else join (b' ' ∷ []) (t ∷ ts) ++ b' ' ∷ [] ++ join (b' ' ∷ []) us)
unfolding join
join-append t [] us = refl
join-append t (u ∷ ts) us =
    ap (λ (rest : Text). t ++ b' ' ∷ [] ++ rest) (join-append u ts us)
    ∙ elim (Bool-cases (is_empty us)) [
      | inl none_left ↦ rw none_left refl
      | inr more ↦ rw more (simp append_assoc)
    ]

join-Spells : {ps ts : List Text} → Spells ps ts → join (b' ' ∷ []) ps ≡ join (b' ' ∷ []) ts
unfolding join
join-Spells end = refl
join-Spells (two {parts} {tokens} a b h) =
    rw (Spells-is_empty h, join-Spells h)
      (elim (Bool-cases (is_empty tokens)) [
        | inl last ↦ rw last (simp append_assoc)
        | inr more ↦ rw more (simp append_assoc)
      ])
join-Spells (many {parts} {tokens} t ts h) =
    rw (Spells-is_empty h, join-Spells h) (sym (join-append t ts tokens))

split_whitespace-join :
    (ts : List Text) → all is_token ts ≡ true → split_whitespace (join (b' ' ∷ []) ts) ≡ ts
unfolding join
split_whitespace-join [] h = unfold words_from in refl
split_whitespace-join (t ∷ []) h = split_whitespace-token t (ground arith)
split_whitespace-join (t ∷ u ∷ ts) h =
    let (first, rest) = &&-eq-true (is_token t) (all is_token (u ∷ ts)) h in
    ap split_whitespace (append_assoc t (b' ' ∷ []) (join (b' ' ∷ []) (u ∷ ts)))
    ∙ split_whitespace-cons t (join (b' ' ∷ []) (u ∷ ts)) first
    ∙ ap (λ l. t ∷ l) (split_whitespace-join (u ∷ ts) rest)

-- a text that is empty or a token
abbrev pub is_operand : Text → Bool
is_operand v = is_empty v || is_token v

unfoldable pub text_tokens : Text → Text → List Text
text_tokens name [] = []
text_tokens name (c ∷ v) = name ∷ (c ∷ v) ∷ []

-- the tokens of the options of a server, those behind the groups first
abbrev pub named_tokens : UpstreamConfig → List Text → List Text
named_tokens u passed =
    text_tokens (codes "-proxy") u.proxy_name
    ++ (text_tokens (codes "-bootstrap-dns") u.bootstrap_dns
        ++ (text_tokens (codes "-host-ip") u.host_ip
            ++ (text_tokens (codes "-subnet") u.subnet
                ++ (flag_part (codes "-fallback") u.fallback ++ passed))))

unfoldable pub option_tokens : UpstreamConfig → List Text → List Text
option_tokens u passed =
    flat_map (text_tokens (codes "-group")) u.groups
    ++ (flag_part (codes "-exclude-default-group") u.exclude_default_group ++ named_tokens u passed)

text_part-Spells :
    (name v : Text) → is_operand v ≡ true → Spells (text_part name v) (text_tokens name v)
unfolding text_part text_tokens
text_part-Spells name [] h = end
text_part-Spells name (c ∷ v) h = rw (trim-token (c ∷ v) h) (two name (c ∷ v) end)

group_parts-Spells :
    (groups : List Text)
    → all is_token groups ≡ true
    → Spells
        (flat_map (text_part (codes "-group")) groups)
        (flat_map (text_tokens (codes "-group")) groups)
group_parts-Spells [] h = end
group_parts-Spells (g ∷ groups) h =
    let (first, rest) = &&-eq-true (is_token g) (all is_token groups) h in
    Spells-append (text_part-Spells (codes "-group") g (ground arith))
      (group_parts-Spells groups rest)

flag_part-Spells : (name : Text) (on : Bool) → Spells (flag_part name on) (flag_part name on)
unfolding flag_part join
flag_part-Spells name true = many name [] end
flag_part-Spells name false = end

abbrev pub is_other : TokenKind → Bool
is_other other = true
is_other _ = false

-- a token that is none of the options that are known
abbrev pub is_passed : Text → Bool
is_passed t = is_token t && is_other (token_kind t)

pub join-is_empty :
    (t : Text) (ts : List Text) → is_token t ≡ true → is_empty (join (b' ' ∷ []) (t ∷ ts)) ≡ false
unfolding join
join-is_empty [] ts h = cc
join-is_empty (c ∷ t) ts h = ground arith

pub trim_end-join :
    (t : Text) (ts : List Text)
    → all is_token (t ∷ ts) ≡ true
    → trim_end (join (b' ' ∷ []) (t ∷ ts)) ≡ join (b' ' ∷ []) (t ∷ ts)
unfolding join
trim_end-join t [] h = trim_end-token [] t (ground arith)
trim_end-join t (u ∷ ts) h =
    let (first, rest) = &&-eq-true (is_token t) (all is_token (u ∷ ts)) h in
    let (second, others) = &&-eq-true (is_token u) (all is_token ts) rest in
    let kept = trim_end-join u ts rest in
    drop_end-append is_whitespace (t ++ b' ' ∷ []) (join (b' ' ∷ []) (u ∷ ts))
      (ap is_empty kept ∙ join-is_empty u ts second)
    ∙ ap (λ (r : Text). t ++ b' ' ∷ [] ++ r) kept

pub trim-join :
    (t : Text) (ts : List Text)
    → all is_token (t ∷ ts) ≡ true
    → trim (join (b' ' ∷ []) (t ∷ ts)) ≡ join (b' ' ∷ []) (t ∷ ts)
unfolding join drop_while
trim-join [] ts h = cc
trim-join (c ∷ t) ts h = rw (trim_end-join (c ∷ t) ts h) (ground arith)

plain_part-Spells :
    (ts : List Text) → all is_token ts ≡ true → Spells (plain_part (join (b' ' ∷ []) ts)) ts
unfolding plain_part
plain_part-Spells [] h = unfold join drop_while drop_end in end
plain_part-Spells (t ∷ ts) h =
    let (first, rest) = &&-eq-true (is_token t) (all is_token ts) h in
    rw (trim-join t ts h, join-is_empty t ts first)
      (subst (λ l. Spells (join (b' ' ∷ []) (t ∷ ts) ∷ []) (t ∷ l)) (append-nil ts) (many t ts end))

-- A server whose groups are tokens, whose named options are tokens or empty, and whose other
-- options are tokens of which none is a known option.
pub record IsCleanUpstream (u : UpstreamConfig) (passed : List Text) : Type 0 where
  pub groups : all is_token u.groups ≡ true
  pub proxy_name : is_operand u.proxy_name ≡ true
  pub bootstrap_dns : is_operand u.bootstrap_dns ≡ true
  pub host_ip : is_operand u.host_ip ≡ true
  pub subnet : is_operand u.subnet ≡ true
  pub are_passed : all is_passed passed ≡ true
  pub options : u.options ≡ join (b' ' ∷ []) passed

passed_tokens : (ts : List Text) → all is_passed ts ≡ true → all is_token ts ≡ true
passed_tokens [] h = refl
passed_tokens (t ∷ ts) h = ground (arith, passed_tokens ts)

option_parts-Spells :
    (u : UpstreamConfig) (passed : List Text)
    → IsCleanUpstream u passed
    → Spells (option_parts u) (option_tokens u passed)
unfolding option_parts option_tokens
option_parts-Spells u passed h = Spells-append (group_parts-Spells u.groups h.groups) (
    Spells-append (flag_part-Spells (codes "-exclude-default-group") u.exclude_default_group) (
      Spells-append (text_part-Spells (codes "-proxy") u.proxy_name h.proxy_name) (
        Spells-append (text_part-Spells (codes "-bootstrap-dns") u.bootstrap_dns h.bootstrap_dns) (
          Spells-append (text_part-Spells (codes "-host-ip") u.host_ip h.host_ip) (
            Spells-append (text_part-Spells (codes "-subnet") u.subnet h.subnet) (
              Spells-append (flag_part-Spells (codes "-fallback") u.fallback)
                (rw h.options (plain_part-Spells passed (passed_tokens passed h.are_passed)))))))))

text_tokens_lem :
    (name v : Text)
    → is_token name ≡ true
    → is_operand v ≡ true
    → all is_token (text_tokens name v) ≡ true
unfolding text_tokens
text_tokens_lem name [] h k = refl
text_tokens_lem name (c ∷ v) h k = ground arith

flag_part_tokens :
    (name : Text) (on : Bool) → is_token name ≡ true → all is_token (flag_part name on) ≡ true
unfolding flag_part
flag_part_tokens name true h = ground arith
flag_part_tokens name false h = refl

group_tokens :
    (groups : List Text)
    → all is_token groups ≡ true
    → all is_token (flat_map (text_tokens (codes "-group")) groups) ≡ true
unfolding is_whitespace
group_tokens [] h = refl
group_tokens (g ∷ groups) h =
    let (first, rest) = &&-eq-true (is_token g) (all is_token groups) h in
    simp
      (all-append, text_tokens_lem (codes "-group") g refl (ground arith), group_tokens groups rest)

pub option_tokens_lem :
    (u : UpstreamConfig) (passed : List Text)
    → IsCleanUpstream u passed
    → all is_token (option_tokens u passed) ≡ true
unfolding option_tokens is_whitespace
option_tokens_lem u passed h = simp (
  all-append,
  group_tokens u.groups h.groups,
  flag_part_tokens (codes "-exclude-default-group") u.exclude_default_group refl,
  text_tokens_lem (codes "-proxy") u.proxy_name refl h.proxy_name,
  text_tokens_lem (codes "-bootstrap-dns") u.bootstrap_dns refl h.bootstrap_dns,
  text_tokens_lem (codes "-host-ip") u.host_ip refl h.host_ip,
  text_tokens_lem (codes "-subnet") u.subnet refl h.subnet,
  flag_part_tokens (codes "-fallback") u.fallback refl,
  passed_tokens passed h.are_passed,
)

pub render_upstream_options-join :
    (u : UpstreamConfig) (passed : List Text)
    → IsCleanUpstream u passed
    → render_upstream_options u ≡ join (b' ' ∷ []) (option_tokens u passed)
unfolding render_upstream_options
render_upstream_options-join u passed h = join-Spells (option_parts-Spells u passed h)

-- The tokens of the text that is written for the options of a server.
pub render_upstream_options_lem :
    (u : UpstreamConfig) (passed : List Text)
    → IsCleanUpstream u passed
    → split_whitespace (render_upstream_options u) ≡ option_tokens u passed
unfolding render_upstream_options
render_upstream_options_lem u passed h =
    ap split_whitespace (render_upstream_options-join u passed h)
    ∙ split_whitespace-join (option_tokens u passed) (option_tokens_lem u passed h)
