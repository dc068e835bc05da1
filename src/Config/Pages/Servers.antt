-- ===== src/Config/Pages/Servers.antt =====
-- The servers that were written to their page are read back, in the order of their groups
-- (src/config_ui.rs).
use smartdns_plus_ui.Base.{
  true, false, not, List, [], ◌∷◌, ◌++◌, ◌≡◌, inl, inr, refl, ap, ap₂, sym, subst, ◌∙◌, arith,
  append_assoc, some, if◌then◌else◌, ◌==◌, is_empty, all, All, Text, codes, text_eq, text_eq_iff,
  trim, trim-token, is_token, is_black, is_line, is_token-is_line, is_line-append, is_whitespace,
  drop_while, drop_end, starts_with, ends_with_char, join, splitn2, &&-eq-true, Bool-cases,
}
use smartdns_plus_ui.Config.Model.{UpstreamConfig}
use smartdns_plus_ui.Config.Lines.{directive}
use smartdns_plus_ui.Config.Managed.{one_of}
use smartdns_plus_ui.Config.Upstream.{upstream_key, render_upstream_options}
use smartdns_plus_ui.Config.Upstream.Options.{
  IsCleanUpstream, option_tokens, option_tokens_lem, render_upstream_options-join, trim-join,
  trim_end-join, join-is_empty,
}
use smartdns_plus_ui.Config.RoundTrip.Text.{IsEntry, directive-IsEntry}
use smartdns_plus_ui.Config.Pages.{server_line}

-- the keys that are written and read alike
abbrev pub written_keys : List Text
written_keys =
    codes "server"
    ∷ codes "server-tcp"
    ∷ codes "server-tls"
    ∷ codes "server-https"
    ∷ codes "server-quic"
    ∷ codes "server-http3"
    ∷ []

-- A server of one of the kinds that are written, whose value is a token and whose options are clean;
-- no backslash stands in its line.
pub record IsCleanServer (u : UpstreamConfig) : Type 0 where
  pub kind : one_of u.kind written_keys ≡ true
  pub value : is_token u.value ≡ true
  pub passed : List Text
  pub options : IsCleanUpstream u passed
  pub no_backslash : all (λ c. not (c == b'\\')) (server_line u) ≡ true

-- what holds of every key holds of one of them
pub one_of_elim :
    (P : Text → Type 0) (key : Text) (keys : List Text)
    → All P keys
    → one_of key keys ≡ true
    → P key
one_of_elim P key [] h e = cc
one_of_elim P key (k ∷ keys) h e = elim (Bool-cases (text_eq key k)) [
  | inl same ↦ subst P (sym ((text_eq_iff key k).0 same)) h.0
  | inr other ↦ one_of_elim P key keys h.1 (rw other at e)
]

IsWritten : Text → Type 0
IsWritten kind =
    (upstream_key kind ≡ kind) × (is_token kind ≡ true) × (starts_with kind (b'#' ∷ []) ≡ false)

written_keys_lem : (kind : Text) → one_of kind written_keys ≡ true → IsWritten kind
unfolding upstream_key is_whitespace starts_with IsWritten
written_keys_lem kind h =
    one_of_elim IsWritten kind written_keys
      (
        (refl, refl, refl),
        (
          (refl, refl, refl),
          (
            (refl, refl, refl),
            ((refl, refl, refl), ((refl, refl, refl), ((refl, refl, refl), tt))),
          ),
        ),
      )
      h

server_line-join :
    (u : UpstreamConfig) (passed tokens : List Text)
    → IsWritten u.kind
    → is_token u.value ≡ true
    → all is_token tokens ≡ true
    → render_upstream_options u ≡ join (b' ' ∷ []) tokens
    → server_line u ≡ join (b' ' ∷ []) (u.kind ∷ u.value ∷ tokens)
unfolding server_line IsWritten join
server_line-join u passed [] w v h e =
    rw (e, server_line, w.0, trim-token u.value v) (sym (append_assoc u.kind (b' ' ∷ []) u.value))
server_line-join u passed (t ∷ ts) w v h e =
    let (first, rest) = &&-eq-true (is_token t) (all is_token ts) h in
    rw (e, server_line, trim-join t ts h, join-is_empty t ts first, w.0, trim-token u.value v)
      (simp append_assoc)

join-is_line : (ts : List Text) → all is_token ts ≡ true → is_line (join (b' ' ∷ []) ts) ≡ true
unfolding join
join-is_line [] h = refl
join-is_line (t ∷ []) h = is_token-is_line t (ground arith)
join-is_line (t ∷ u ∷ ts) h =
    let (first, rest) = &&-eq-true (is_token t) (all is_token (u ∷ ts)) h in
    is_line-append (t ++ b' ' ∷ []) (join (b' ' ∷ []) (u ∷ ts))
      (is_line-append t (b' ' ∷ []) (is_token-is_line t first) refl) (join-is_line (u ∷ ts) rest)

ends_with_char-none :
    (l : Text) → all (λ c. not (c == b'\\')) l ≡ true → ends_with_char l b'\\' ≡ false
unfolding ends_with_char
ends_with_char-none [] h = refl
ends_with_char-none (c ∷ l) h = ground (arith, ends_with_char-none l)

splitn2-black : (s rest : Text) → all is_black s ≡ true → splitn2 (s ++ b' ' ∷ rest) ≡ (s, rest)
unfolding splitn2
splitn2-black [] rest h = unfold is_whitespace in refl
splitn2-black (c ∷ s) rest h = ground (arith, splitn2-black s rest)

splitn2-all_black : (s : Text) → all is_black s ≡ true → splitn2 s ≡ (s, [])
unfolding splitn2
splitn2-all_black [] h = refl
splitn2-all_black (c ∷ s) h = ground (arith, splitn2-all_black s)

-- what stands behind the key of a server
unfoldable pub server_value : UpstreamConfig → Text
server_value u =
    let opts = render_upstream_options u in
    if is_empty opts then u.value else u.value ++ b' ' ∷ opts

server_value-join :
    (u : UpstreamConfig) (tokens : List Text)
    → all is_token tokens ≡ true
    → render_upstream_options u ≡ join (b' ' ∷ []) tokens
    → server_value u ≡ join (b' ' ∷ []) (u.value ∷ tokens)
unfolding server_value join
server_value-join u [] h e = rw (e, server_value) refl
server_value-join u (t ∷ ts) h e =
    let (first, rest) = &&-eq-true (is_token t) (all is_token ts) h in
    rw (e, server_value, join-is_empty t ts first) (simp append_assoc)

starts_with-join :
    (t : Text) (ts : List Text)
    → is_token t ≡ true
    → starts_with (join (b' ' ∷ []) (t ∷ ts)) (b'#' ∷ []) ≡ starts_with t (b'#' ∷ [])
unfolding join starts_with
starts_with-join [] ts h = cc
starts_with-join (c ∷ t) ts h = ground arith

is_token-all_black : (t : Text) → is_token t ≡ true → all is_black t ≡ true
is_token-all_black [] h = refl
is_token-all_black (c ∷ t) h = h

-- what `splitn(2, …)` gives, trimmed
abbrev pub split_trimmed : Text → Text × Text
split_trimmed l = (trim (splitn2 l).0, trim (splitn2 l).1)

-- a line of tokens is split behind the first one
split_tokens :
    (t v : Text) (ts : List Text)
    → all is_token (t ∷ v ∷ ts) ≡ true
    → split_trimmed (join (b' ' ∷ []) (t ∷ v ∷ ts)) ≡ (t, join (b' ' ∷ []) (v ∷ ts))
unfolding join
split_tokens t v ts h =
    let (first, rest) = &&-eq-true (is_token t) (all is_token (v ∷ ts)) h in
    ap split_trimmed (append_assoc t (b' ' ∷ []) (join (b' ' ∷ []) (v ∷ ts)))
    ∙ ap (λ (parts : Text × Text). (trim parts.0, trim parts.1))
        (splitn2-black t (join (b' ' ∷ []) (v ∷ ts)) (is_token-all_black t first))
    ∙ ap₂ (λ (x y : Text). (x, y)) (trim-token t first) (trim-join v ts rest)

trim_nil : trim [] ≡ []
unfolding drop_while drop_end
trim_nil = refl

split_value :
    (v : Text) (ts : List Text)
    → all is_token (v ∷ ts) ≡ true
    → split_trimmed (join (b' ' ∷ []) (v ∷ ts)) ≡ (v, join (b' ' ∷ []) ts)
unfolding join
split_value v [] h =
    let token = (&&-eq-true (is_token v) true h).0 in
    ap (λ (parts : Text × Text). (trim parts.0, trim parts.1))
      (splitn2-all_black v (is_token-all_black v token))
    ∙ ap₂ (λ (x y : Text). (x, y)) (trim-token v token) trim_nil
split_value v (t ∷ ts) h = split_tokens v t ts h

module _ (u : UpstreamConfig) (h : IsCleanServer u) where
  tokens_of : List Text
  tokens_of = option_tokens u h.passed

  are_tokens : all is_token tokens_of ≡ true
  unfolding tokens_of
  are_tokens = option_tokens_lem u h.passed h.options

  options_of : render_upstream_options u ≡ join (b' ' ∷ []) tokens_of
  unfolding tokens_of
  options_of = render_upstream_options-join u h.passed h.options

  line_of_server : server_line u ≡ join (b' ' ∷ []) (u.kind ∷ u.value ∷ tokens_of)
  line_of_server =
      server_line-join u h.passed tokens_of (written_keys_lem u.kind h.kind) h.value are_tokens
        options_of

  all_tokens : all is_token (u.kind ∷ u.value ∷ tokens_of) ≡ true
  unfolding IsWritten
  all_tokens =
      let (key, token, comment) = written_keys_lem u.kind h.kind in
      rw (token, h.value, are_tokens) refl

  pub server_line-IsEntry : IsEntry (server_line u)
  unfolding IsWritten starts_with
  server_line-IsEntry =
      let (key, token, comment) = written_keys_lem u.kind h.kind in
      (
        record {
          line = ap is_line line_of_server ∙ join-is_line _ all_tokens;
          trimmed = rw line_of_server (trim-join u.kind (u.value ∷ tokens_of) all_tokens);
          trimmed_end = rw line_of_server (trim_end-join u.kind (u.value ∷ tokens_of) all_tokens);
          no_backslash = ends_with_char-none (server_line u) h.no_backslash;
        },
        rw line_of_server (starts_with-join u.kind (u.value ∷ tokens_of) token ∙ comment),
        rw line_of_server (join-is_empty u.kind (u.value ∷ tokens_of) token),
      )

  value_of_server : server_value u ≡ join (b' ' ∷ []) (u.value ∷ tokens_of)
  value_of_server = server_value-join u tokens_of are_tokens options_of

  pub directive-server_line : directive (server_line u) ≡ some (u.kind, server_value u)
  directive-server_line =
      directive-IsEntry (server_line u) server_line-IsEntry
      ∙ ap (λ (l : Text). some (trim (splitn2 l).0, trim (splitn2 l).1)) line_of_server
      ∙ ap (λ (parts : Text × Text). some parts) (split_tokens u.kind u.value tokens_of all_tokens)
      ∙ ap (λ (v : Text). some (u.kind, v)) (sym value_of_server)

  pub split-server_value : split_trimmed (server_value u) ≡ (u.value, render_upstream_options u)
  split-server_value =
      ap split_trimmed value_of_server
      ∙ split_value u.value tokens_of (rw (h.value, are_tokens) refl)
      ∙ ap (λ (o : Text). (u.value, o)) (sym options_of)
