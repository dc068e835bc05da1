-- ===== src/Config/Upstream/Reading.antt =====
-- What the loop of `parse_upstream_config` does with each kind of token (src/config_ui.rs).
use smartdns_plus_ui.Base.{
  Bool, true, false, List, [], ◌∷◌, ◌++◌, ◌≡◌, refl, ap, sym, ◌∙◌, arith, append-nil, append_assoc,
  if◌then◌else◌, flat_map, all, Text, codes, starts_with, is_token, &&-eq-true, Bool-cases, inl,
  inr,
}
use smartdns_plus_ui.Config.Model.{UpstreamConfig}
use smartdns_plus_ui.Config.Upstream.{
  OptionName, FlagName, TokenKind, named, flag, other, token_kind, set_option, set_flag, flag_part,
  read_options,
}
use smartdns_plus_ui.Config.Upstream.Options.{text_tokens, is_passed, is_other}

TokenKind-other : (k : TokenKind) → is_other k ≡ true → k ≡ other
TokenKind-other (named n) h = cc
TokenKind-other (flag f) h = cc
TokenKind-other other h = refl

module _ (cfg : UpstreamConfig) (p : List Text) where
  -- an option with its value, or without one
  pub read_options-text_tokens :
      (n : OptionName) (name v : Text) (rest : List Text)
      → token_kind name ≡ named n
      → set_option n [] cfg ≡ cfg
      → read_options (text_tokens name v ++ rest) (cfg, p)
        ≡ read_options rest (set_option n v cfg, p)
  unfolding text_tokens read_options
  read_options-text_tokens n name [] rest k e =
      ap (λ (c : UpstreamConfig). read_options rest (c, p)) (sym e)
  read_options-text_tokens n name (c ∷ v) rest k e = rw (k, read_options) refl

  pub read_options-flag_part :
      (f : FlagName) (name : Text) (on : Bool) (rest : List Text)
      → token_kind name ≡ flag f
      → read_options (flag_part name on ++ rest) (cfg, p)
        ≡ read_options rest (if on then set_flag f cfg else cfg, p)
  unfolding flag_part read_options
  read_options-flag_part f name false rest k = refl
  read_options-flag_part f name true [] k = rw (k, read_options) refl
  read_options-flag_part f name true (next ∷ rest) k = rw (k, read_options) refl

pub read_options-groups :
    (groups rest : List Text) (cfg : UpstreamConfig) (p : List Text)
    → all is_token groups ≡ true
    → read_options (flat_map (text_tokens (codes "-group")) groups ++ rest) (cfg, p)
      ≡ read_options rest (record cfg { groups = cfg.groups ++ groups }, p)
unfolding text_tokens read_options
read_options-groups [] rest cfg p h =
    ap (λ (l : List Text). read_options rest (record cfg { groups = l }, p))
      (sym (append-nil cfg.groups))
read_options-groups ([] ∷ groups) rest cfg p h = cc
read_options-groups ((c ∷ g) ∷ groups) rest cfg p h =
    read_options-groups groups rest (record cfg { groups = cfg.groups ++ (c ∷ g) ∷ [] }) p
      (ground arith)
    ∙ ap (λ (l : List Text). read_options rest (record cfg { groups = l }, p))
        (append_assoc cfg.groups ((c ∷ g) ∷ []) groups)

-- tokens that are none of the known options are passed through
pub read_options-passed :
    (ts : List Text) (cfg : UpstreamConfig) (p : List Text)
    → all is_passed ts ≡ true
    → read_options ts (cfg, p) ≡ (cfg, p ++ ts)
unfolding read_options
read_options-passed [] cfg p h = rw append-nil
read_options-passed (t ∷ []) cfg p h =
    let (first, end) = &&-eq-true (is_passed t) true h in
    let (token, kind) = &&-eq-true (is_token t) (is_other (token_kind t)) first in
    rw (TokenKind-other (token_kind t) kind, read_options) refl
read_options-passed (t ∷ next ∷ rest) cfg p h =
    let (first, others) = &&-eq-true (is_passed t) (all is_passed (next ∷ rest)) h in
    let (token, kind) = &&-eq-true (is_token t) (is_other (token_kind t)) first in
    let (second, left) = &&-eq-true (is_passed next) (all is_passed rest) others in
    rw (TokenKind-other (token_kind t) kind, read_options)
      (elim (Bool-cases (starts_with next (codes "-"))) [
        | inl dashed ↦ rw dashed (
            read_options-passed (next ∷ rest) cfg (p ++ t ∷ []) others
            ∙ ap (λ (l : List Text). (cfg, l)) (append_assoc p (t ∷ []) (next ∷ rest)))
        | inr value ↦ rw value (
            read_options-passed rest cfg (p ++ t ∷ next ∷ []) left
            ∙ ap (λ (l : List Text). (cfg, l)) (append_assoc p (t ∷ next ∷ []) rest))
      ])
