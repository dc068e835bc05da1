-- ===== src/Config/RoundTrip/DomainSet.antt =====
-- One `domain-set` line, written and read (src/config_ui.rs).
use smartdns_plus_ui.Base.{
  true, List, [], ◌∷◌, ◌++◌, ◌≡◌, refl, ap, ◌∙◌, some, Text, codes, is_whitespace, is_line, trim,
  starts_with, drop_while, drop_end, splitn2, split_whitespace, append_assoc, trim-cons,
  is_line-append, split_whitespace-cons, split_whitespace-token,
}
use smartdns_plus_ui.Config.Model.{ManagedDomainSet, ManagedAssets}
use smartdns_plus_ui.Config.Lines.{directive, parse_named_option, option_in}
use smartdns_plus_ui.Config.Managed.{push_domain_set}
use smartdns_plus_ui.Config.Render.{domain_set_line}
use smartdns_plus_ui.Config.RoundTrip.Operand.{
  IsOperand, IsFile, operand-token, line-IsPlain, option_in-skip, operand-not-empty,
  operand-is_line,
}
use smartdns_plus_ui.Config.RoundTrip.Text.{IsEntry, directive-IsEntry}

pub record IsCleanDomainSet (ds : ManagedDomainSet) : Type 0 where
  pub name : IsOperand ds.name
  pub set_type : IsOperand ds.set_type
  pub file : IsFile ds.file

abbrev pub domain_set_value : ManagedDomainSet → Text
domain_set_value ds =
    codes "-name "
    ++ (ds.name ++ (codes " -type " ++ (ds.set_type ++ (codes " -file " ++ ds.file))))

abbrev domain_set_options : ManagedDomainSet → List Text
domain_set_options ds =
    codes "-name" ∷ ds.name ∷ codes "-type" ∷ ds.set_type ∷ codes "-file" ∷ ds.file ∷ []

module _ (ds : ManagedDomainSet) (h : IsCleanDomainSet ds) where
  words-domain_set_value : split_whitespace (domain_set_value ds) ≡ domain_set_options ds
  words-domain_set_value =
      split_whitespace-cons (codes "-name") _ (unfold is_whitespace in refl)
      ∙ ap (λ l. codes "-name" ∷ l)
          (split_whitespace-cons ds.name _ (operand-token ds.name h.name)
            ∙ ap (λ l. ds.name ∷ l)
                (split_whitespace-cons (codes "-type") _ (unfold is_whitespace in refl)
                  ∙ ap (λ l. codes "-type" ∷ l)
                      (split_whitespace-cons ds.set_type _ (operand-token ds.set_type h.set_type)
                        ∙ ap (λ l. ds.set_type ∷ l)
                            (split_whitespace-cons (codes "-file") _ (unfold is_whitespace in refl)
                              ∙ ap (λ l. codes "-file" ∷ l)
                                  (split_whitespace-token ds.file
                                    (operand-token ds.file h.file.0))))))

  named-domain_set :
      (name : Text)
      → parse_named_option (domain_set_value ds) name ≡ option_in (domain_set_options ds) name
  unfolding parse_named_option
  named-domain_set name = ap (λ l. option_in l name) words-domain_set_value

  file-domain_set : parse_named_option (domain_set_value ds) (codes "-file") ≡ some ds.file
  unfolding option_in
  file-domain_set =
      named-domain_set (codes "-file")
      ∙ option_in-skip ds.name (codes "-type" ∷ ds.set_type ∷ codes "-file" ∷ ds.file ∷ [])
          (codes "file") h.name
      ∙ option_in-skip ds.set_type (codes "-file" ∷ ds.file ∷ []) (codes "file") h.set_type

  type-domain_set : parse_named_option (domain_set_value ds) (codes "-type") ≡ some ds.set_type
  unfolding option_in
  type-domain_set =
      named-domain_set (codes "-type")
      ∙ option_in-skip ds.name (codes "-type" ∷ ds.set_type ∷ codes "-file" ∷ ds.file ∷ [])
          (codes "type") h.name

  name-domain_set : parse_named_option (domain_set_value ds) (codes "-name") ≡ some ds.name
  name-domain_set = named-domain_set (codes "-name") ∙ unfold option_in in refl

  pub push-domain_set :
      (a : ManagedAssets)
      → push_domain_set (domain_set_value ds) a
        ≡ record a { domain_sets = a.domain_sets ++ ds ∷ [] }
  unfolding push_domain_set
  push-domain_set a =
      rw (name-domain_set, file-domain_set, type-domain_set, operand-not-empty ds.name h.name)

  -- the front of the written line, up to the file name
  abbrev domain_set_front : Text
  domain_set_front =
      codes "omain-set -name " ++ (ds.name ++ (codes " -type " ++ (ds.set_type ++ codes " -file ")))

  domain_set_line-split : domain_set_line ds ≡ b'd' ∷ (domain_set_front ++ ds.file)
  unfolding domain_set_line
  domain_set_line-split = simp append_assoc

  domain_set_front-is_line : is_line (b'd' ∷ domain_set_front) ≡ true
  domain_set_front-is_line =
      let tail = ds.set_type ++ codes " -file " in
      is_line-append (codes "domain-set -name ") (ds.name ++ (codes " -type " ++ tail)) refl (
        is_line-append ds.name (codes " -type " ++ tail) (operand-is_line ds.name h.name) (
          is_line-append (codes " -type ") tail refl (
            is_line-append ds.set_type (codes " -file ") (operand-is_line ds.set_type h.set_type)
              refl)))

  pub domain_set_line-IsEntry : IsEntry (domain_set_line ds)
  domain_set_line-IsEntry = rw domain_set_line-split (
    line-IsPlain b'd' domain_set_front ds.file (unfold is_whitespace in refl)
        domain_set_front-is_line h.file,
    unfold starts_with in refl,
    refl,
  )

  abbrev value_front : Text
  value_front = codes "name " ++ (ds.name ++ (codes " -type " ++ (ds.set_type ++ codes " -file ")))

  value-trimmed : trim (domain_set_value ds) ≡ domain_set_value ds
  value-trimmed =
      let split : domain_set_value ds ≡ b'-' ∷ (value_front ++ ds.file) = simp append_assoc in
      rw split (
        trim-cons b'-' value_front ds.file (unfold is_whitespace in refl)
          (operand-token ds.file h.file.0))

  pub directive-domain_set_line :
      directive (domain_set_line ds) ≡ some (codes "domain-set", domain_set_value ds)
  unfolding domain_set_line splitn2 is_whitespace drop_while drop_end
  directive-domain_set_line =
      directive-IsEntry (domain_set_line ds) domain_set_line-IsEntry
      ∙ ap (λ v. some (codes "domain-set", v)) value-trimmed
