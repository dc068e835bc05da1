-- ===== src/Config/RoundTrip/IpSet.antt =====
-- One `ip-set` line, written and read (src/config_ui.rs).
use smartdns_plus_ui.Base.{
  List, [], ◌∷◌, ◌++◌, ◌≡◌, refl, ap, ◌∙◌, some, Text, codes, is_whitespace, trim, starts_with,
  drop_while, drop_end, splitn2, split_whitespace, append_assoc, trim-cons, is_line-append,
  split_whitespace-cons, split_whitespace-token,
}
use smartdns_plus_ui.Config.Model.{ManagedIpSet, ManagedAssets}
use smartdns_plus_ui.Config.Lines.{directive, parse_named_option, option_in}
use smartdns_plus_ui.Config.Managed.{push_ip_set}
use smartdns_plus_ui.Config.Render.{ip_set_line}
use smartdns_plus_ui.Config.RoundTrip.Operand.{
  IsOperand, IsFile, operand-token, line-IsPlain, option_in-skip, operand-not-empty,
  operand-is_line,
}
use smartdns_plus_ui.Config.RoundTrip.Text.{IsEntry, directive-IsEntry}

pub record IsCleanIpSet (ips : ManagedIpSet) : Type 0 where
  pub name : IsOperand ips.name
  pub file : IsFile ips.file

abbrev pub ip_set_value : ManagedIpSet → Text
ip_set_value ips = codes "-name " ++ (ips.name ++ (codes " -file " ++ ips.file))

abbrev ip_set_options : ManagedIpSet → List Text
ip_set_options ips = codes "-name" ∷ ips.name ∷ codes "-file" ∷ ips.file ∷ []

module _ (ips : ManagedIpSet) (h : IsCleanIpSet ips) where
  words-ip_set_value : split_whitespace (ip_set_value ips) ≡ ip_set_options ips
  words-ip_set_value =
      split_whitespace-cons (codes "-name") _ (unfold is_whitespace in refl)
      ∙ ap (λ l. codes "-name" ∷ l)
          (split_whitespace-cons ips.name _ (operand-token ips.name h.name)
            ∙ ap (λ l. ips.name ∷ l)
                (split_whitespace-cons (codes "-file") _ (unfold is_whitespace in refl)
                  ∙ ap (λ l. codes "-file" ∷ l)
                      (split_whitespace-token ips.file (operand-token ips.file h.file.0))))

  named-ip_set :
      (name : Text)
      → parse_named_option (ip_set_value ips) name ≡ option_in (ip_set_options ips) name
  unfolding parse_named_option
  named-ip_set name = ap (λ l. option_in l name) words-ip_set_value

  file-ip_set : parse_named_option (ip_set_value ips) (codes "-file") ≡ some ips.file
  unfolding option_in
  file-ip_set =
      named-ip_set (codes "-file")
      ∙ option_in-skip ips.name (codes "-file" ∷ ips.file ∷ []) (codes "file") h.name

  name-ip_set : parse_named_option (ip_set_value ips) (codes "-name") ≡ some ips.name
  name-ip_set = named-ip_set (codes "-name") ∙ unfold option_in in refl

  pub push-ip_set :
      (a : ManagedAssets)
      → push_ip_set (ip_set_value ips) a ≡ record a { ip_sets = a.ip_sets ++ ips ∷ [] }
  unfolding push_ip_set
  push-ip_set a = rw (name-ip_set, file-ip_set, operand-not-empty ips.name h.name)

  abbrev ip_set_front : Text
  ip_set_front = codes "p-set -name " ++ (ips.name ++ codes " -file ")

  ip_set_line-split : ip_set_line ips ≡ b'i' ∷ (ip_set_front ++ ips.file)
  unfolding ip_set_line
  ip_set_line-split = simp append_assoc

  pub ip_set_line-IsEntry : IsEntry (ip_set_line ips)
  ip_set_line-IsEntry =
      let front =
        is_line-append (codes "ip-set -name ") (ips.name ++ codes " -file ") refl
          (is_line-append ips.name (codes " -file ") (operand-is_line ips.name h.name) refl) in
      rw ip_set_line-split (
        line-IsPlain b'i' ip_set_front ips.file (unfold is_whitespace in refl) front h.file,
        unfold starts_with in refl,
        refl,
      )

  abbrev value_front : Text
  value_front = codes "name " ++ (ips.name ++ codes " -file ")

  value-trimmed : trim (ip_set_value ips) ≡ ip_set_value ips
  value-trimmed =
      let split : ip_set_value ips ≡ b'-' ∷ (value_front ++ ips.file) = simp append_assoc in
      rw split (
        trim-cons b'-' value_front ips.file (unfold is_whitespace in refl)
          (operand-token ips.file h.file.0))

  pub directive-ip_set_line : directive (ip_set_line ips) ≡ some (codes "ip-set", ip_set_value ips)
  unfolding ip_set_line splitn2 is_whitespace drop_while drop_end
  directive-ip_set_line =
      directive-IsEntry (ip_set_line ips) ip_set_line-IsEntry
      ∙ ap (λ v. some (codes "ip-set", v)) value-trimmed
