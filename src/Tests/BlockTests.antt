-- ===== src/Tests/BlockTests.antt =====
-- The managed block of src/config_ui.rs on small texts.
use smartdns_plus_ui.Base.{
  false, [], ◌∷◌, ◌++◌, ◌≡◌, refl, none, some, Text, codes, is_whitespace, find_text, text_eq,
}
use smartdns_plus_ui.Config.Paths.{parent, managed_conf_dir, resolve_include_path}
use smartdns_plus_ui.Config.Block.{ensure_managed_block, render_effective_config_preview}
use smartdns_plus_ui.Config.Block.Again.{ensure_managed_block_twice}

parents :
    (parent (codes "/etc/a//b/./") ≡ some (codes "/etc/a"))
    × (parent (codes "/a") ≡ some (codes "/"))
    × (parent (codes "a") ≡ some [])
    × (parent (codes "/") ≡ none)
    × (parent (codes "./b") ≡ some (codes "."))
unfolding parent
parents = (refl, refl, refl, refl, refl)

include_paths :
    (resolve_include_path (codes "/etc/smartdns/m.conf") (codes "conf.d/a.conf")
      ≡ codes "/etc/smartdns/conf.d/a.conf")
    × (resolve_include_path (codes "/etc/m.conf") (codes "/a.conf") ≡ codes "/a.conf")
unfolding resolve_include_path
include_paths = (refl, refl)

-- a text with an older block, a blank line behind it and a rule
abbrev older : Text
older =
    codes "user nobody\n\n# BEGIN smartdns-plus-ui managed\nconf-file x\n"
    ++ codes "# END smartdns-plus-ui managed\n\n\nbind :53\n"

ensure_managed_block_twice_example :
    ensure_managed_block (ensure_managed_block older (codes "/etc/rules")) (codes "/etc/rules")
    ≡ ensure_managed_block older (codes "/etc/rules")
unfolding managed_conf_dir find_text
ensure_managed_block_twice_example = ensure_managed_block_twice older (codes "/etc/rules") refl refl

-- A first marker without a last one: the block is put at the end of the text, and the next call
-- takes the text from that first marker on for the block, so that the rule behind it is lost.
abbrev stray : Text
stray = codes "# BEGIN smartdns-plus-ui managed\nbind :53\n"

stray_first :
    text_eq (ensure_managed_block stray (codes "/r")) (ensure_managed_block [] (codes "/r")) ≡ false
unfolding ensure_managed_block is_whitespace text_eq
stray_first = refl

stray_lost :
    ensure_managed_block (ensure_managed_block stray (codes "/r")) (codes "/r")
    ≡ ensure_managed_block [] (codes "/r")
unfolding ensure_managed_block is_whitespace
stray_lost = refl

preview :
    render_effective_config_preview (codes "bind :53\n" ∷ [] ∷ codes "cache-size 1" ∷ []) (
      codes
        "user a\n# BEGIN smartdns-plus-ui managed\nconf-file x\n# END smartdns-plus-ui managed\nuser b")
    ≡ codes
        "user a\n# BEGIN smartdns-plus-ui managed\n\nbind :53\n\ncache-size 1\n# END smartdns-plus-ui managed\nuser b\n"
unfolding render_effective_config_preview is_whitespace
preview = refl
