-- ===== src/Config/RoundTrip/Sets.antt =====
-- `parse_managed_assets_from_text` after `render_sets_text`: the sets of a managed file come back.
use smartdns_plus_ui.Base.{
  List, [], ◌∷◌, ◌++◌, ◌≡◌, refl, sym, ap, ap₂, ◌∙◌, none, some, All, map, filter_map, Text, codes,
  is_whitespace, ends_with_char, starts_with, drop_while, drop_end, All-append, All-map_lem,
  append_assoc, append-nil,
}
use smartdns_plus_ui.Config.Model.{ManagedDomainSet, ManagedIpSet, ManagedAssets, no_assets}
use smartdns_plus_ui.Config.Lines.{directive, directives}
use smartdns_plus_ui.Config.Managed.{
  ParseState, parse_step, parse_loop, parse_managed_assets_from_text,
}
use smartdns_plus_ui.Config.Render.{domain_set_line, ip_set_line, titled, or_note, render_sets_text}
use smartdns_plus_ui.Config.RoundTrip.Text.{
  IsPlain, IsEntry, kept, kept-append, blank-IsPlain, titled-IsPlain, kept-titled, or_note-IsPlain,
  kept-or_note, filter_map-append, directives-join, filter_map-map,
}
use smartdns_plus_ui.Config.RoundTrip.DomainSet.{
  IsCleanDomainSet, domain_set_value, domain_set_line-IsEntry, directive-domain_set_line,
  push-domain_set,
}
use smartdns_plus_ui.Config.RoundTrip.IpSet.{
  IsCleanIpSet, ip_set_value, ip_set_line-IsEntry, directive-ip_set_line, push-ip_set,
}

-- the titles of `render_sets_text`
header-IsPlain :
    IsPlain (codes "# Generated by smartdns-plus-ui")
    × IsPlain (codes "# 集合管理（domain-set / ip-set）")
unfolding drop_while drop_end is_whitespace ends_with_char
header-IsPlain = (
  record { line = refl; trimmed = refl; trimmed_end = refl; no_backslash = refl },
  record { line = refl; trimmed = refl; trimmed_end = refl; no_backslash = refl },
)

titles-IsPlain :
    IsPlain (codes "# ── 域名集合 ──")
    × IsPlain (codes "# ── IP 集合 ──")
    × IsPlain (codes "# 还没有任何集合定义。")
unfolding drop_while drop_end is_whitespace ends_with_char
titles-IsPlain = (
  record { line = refl; trimmed = refl; trimmed_end = refl; no_backslash = refl },
  record { line = refl; trimmed = refl; trimmed_end = refl; no_backslash = refl },
  record { line = refl; trimmed = refl; trimmed_end = refl; no_backslash = refl },
)

domain_entries :
    (dss : List ManagedDomainSet) → All IsCleanDomainSet dss → All IsEntry (map domain_set_line dss)
domain_entries [] h = tt
domain_entries (ds ∷ dss) h = (domain_set_line-IsEntry ds h.0, domain_entries dss h.1)

ip_entries : (ipss : List ManagedIpSet) → All IsCleanIpSet ipss → All IsEntry (map ip_set_line ipss)
ip_entries [] h = tt
ip_entries (ips ∷ ipss) h = (ip_set_line-IsEntry ips h.0, ip_entries ipss h.1)

abbrev domain_directive : ManagedDomainSet → Text × Text
domain_directive ds = (codes "domain-set", domain_set_value ds)

abbrev ip_directive : ManagedIpSet → Text × Text
ip_directive ips = (codes "ip-set", ip_set_value ips)

module _ (a : ManagedAssets) (hd : All IsCleanDomainSet a.domain_sets)
    (hi : All IsCleanIpSet a.ip_sets) where
  abbrev domain_block : List Text
  domain_block = titled (codes "# ── 域名集合 ──") (map domain_set_line a.domain_sets)

  abbrev ip_block : List Text
  ip_block = titled (codes "# ── IP 集合 ──") (map ip_set_line a.ip_sets)

  abbrev body : List Text
  body =
      codes "# Generated by smartdns-plus-ui"
      ∷ codes "# 集合管理（domain-set / ip-set）"
      ∷ []
      ∷ (domain_block ++ ip_block)

  body-IsPlain : All IsPlain body
  body-IsPlain = (
    header-IsPlain.0,
    (
      header-IsPlain.1,
      (
        blank-IsPlain,
        All-append IsPlain domain_block ip_block
            (titled-IsPlain _ titles-IsPlain.0 (unfold starts_with in refl) _
              (domain_entries a.domain_sets hd))
            (titled-IsPlain _ titles-IsPlain.1 (unfold starts_with in refl) _
              (ip_entries a.ip_sets hi)),
      ),
    ),
  )

  kept-body : kept body ≡ map domain_set_line a.domain_sets ++ map ip_set_line a.ip_sets
  unfolding starts_with
  kept-body =
      kept-append domain_block ip_block
      ∙ ap₂ (λ x y. x ++ y)
          (kept-titled _ titles-IsPlain.0 refl _ (domain_entries a.domain_sets hd))
          (kept-titled _ titles-IsPlain.1 refl _ (ip_entries a.ip_sets hi))

  directives-render_sets_text :
      directives (render_sets_text a)
      ≡ map domain_directive a.domain_sets ++ map ip_directive a.ip_sets
  unfolding render_sets_text starts_with
  directives-render_sets_text =
      directives-join (or_note (codes "# 还没有任何集合定义。") body)
        (or_note-IsPlain _ titles-IsPlain.2 refl body body-IsPlain)
      ∙ ap (λ ls. filter_map directive ls)
          (kept-or_note (codes "# 还没有任何集合定义。") titles-IsPlain.2 refl body ∙ kept-body)
      ∙ filter_map-append (map domain_set_line a.domain_sets) (map ip_set_line a.ip_sets)
      ∙ ap₂ (λ x y. x ++ y)
          (filter_map-map domain_set_line domain_directive a.domain_sets (
            All-map_lem IsCleanDomainSet
              (λ ds. directive (domain_set_line ds) ≡ some (domain_directive ds))
              directive-domain_set_line a.domain_sets hd))
          (filter_map-map ip_set_line ip_directive a.ip_sets (
            All-map_lem IsCleanIpSet (λ ips. directive (ip_set_line ips) ≡ some (ip_directive ips))
              directive-ip_set_line a.ip_sets hi))

parse_loop-domain :
    (dss : List ManagedDomainSet) (rest : List (Text × Text)) (s : ParseState)
    → All IsCleanDomainSet dss
    → parse_loop s (map domain_directive dss ++ rest)
      ≡ parse_loop
          (record s { assets = record s.assets { domain_sets = s.assets.domain_sets ++ dss } })
          rest
unfolding parse_loop parse_step
parse_loop-domain [] rest s h = rw append-nil
parse_loop-domain (ds ∷ dss) rest s h =
    ap (λ a. parse_loop (record s { assets = a }) (map domain_directive dss ++ rest))
      (push-domain_set ds h.0 s.assets)
    ∙ parse_loop-domain dss rest _ h.1
    ∙ rw append_assoc

parse_loop-ip :
    (ipss : List ManagedIpSet) (rest : List (Text × Text)) (s : ParseState)
    → All IsCleanIpSet ipss
    → parse_loop s (map ip_directive ipss ++ rest)
      ≡ parse_loop
          (record s { assets = record s.assets { ip_sets = s.assets.ip_sets ++ ipss } })
          rest
unfolding parse_loop parse_step
parse_loop-ip [] rest s h = rw append-nil
parse_loop-ip (ips ∷ ipss) rest s h =
    ap (λ a. parse_loop (record s { assets = a }) (map ip_directive ipss ++ rest))
      (push-ip_set ips h.0 s.assets)
    ∙ parse_loop-ip ipss rest _ h.1
    ∙ rw append_assoc

-- Reading the sets file that the editor wrote gives back its domain sets and IP sets, in order,
-- and nothing else: for sets whose names, types and files are tokens that start with no dash,
-- and whose files do not end in a backslash.
pub parse-render_sets_text :
    (a : ManagedAssets)
    → All IsCleanDomainSet a.domain_sets
    → All IsCleanIpSet a.ip_sets
    → parse_managed_assets_from_text (render_sets_text a)
      ≡ record no_assets { domain_sets = a.domain_sets; ip_sets = a.ip_sets }
unfolding parse_managed_assets_from_text
parse-render_sets_text a hd hi =
    let start : ParseState = record { assets = no_assets; in_group = none } in
    let with_domains : ParseState = record {
      assets = record no_assets { domain_sets = a.domain_sets };
      in_group = none;
    } in
    ap (parse_loop start) (directives-render_sets_text a hd hi)
    ∙ parse_loop-domain a.domain_sets (map ip_directive a.ip_sets) start hd
    ∙ ap (parse_loop with_domains) (sym (append-nil (map ip_directive a.ip_sets)))
    ∙ parse_loop-ip a.ip_sets [] with_domains hi
