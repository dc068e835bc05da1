-- ===== src/Config/Block.antt =====
-- The managed block of the main configuration (src/config_ui.rs): `ensure_managed_block` and
-- `render_effective_config_preview`.
pub mod Finding
pub mod Trimming
pub mod Shape
pub mod Again
use smartdns_plus_ui.Base.{
  Bool, true, false, not, ◌&&◌, ◌||◌, List, [], ◌∷◌, ◌++◌, map, Option, none, some, if◌then◌else◌,
  ◌==◌, is_empty, flat_map, unwrap_or, Text, codes, text_eq, trim, trim_end, drop_while, drop_end,
  strip_prefix, find_text, lines, lines_from, join,
}
use smartdns_plus_ui.Config.Paths.{path_join, managed_conf_dir}

abbrev pub managed_begin : Text
managed_begin = codes "# BEGIN smartdns-plus-ui managed"

abbrev pub managed_end : Text
managed_end = codes "# END smartdns-plus-ui managed"

abbrev pub managed_file_names : List Text
managed_file_names =
    codes "10-basic.conf"
    ∷ codes "20-upstreams.conf"
    ∷ codes "30-cache.conf"
    ∷ codes "60-sets.conf"
    ∷ codes "40-nameserver.conf"
    ∷ codes "50-rules.conf"
    ∷ codes "70-logging.conf"
    ∷ codes "80-network.conf"
    ∷ []

unfoldable pub include_line : Text → Text → Text
unfolding path_join
include_line managed_dir name = codes "conf-file " ++ path_join managed_dir name

unfoldable pub managed_block : Text → Text
unfolding include_line join
managed_block managed_dir =
    join (b'\n' ∷ [])
      (managed_begin ∷ (map (include_line managed_dir) managed_file_names ++ managed_end ∷ []))

abbrev pub line_feeds : Text
line_feeds = b'\n' ∷ b'\n' ∷ []

-- what stands before the block, up to it
abbrev pub opened : Text → Text
opened kept = if is_empty kept then kept else kept ++ line_feeds

abbrev pub opening : Text → Text
opening before = opened (trim_end before)

-- what stands behind the block
abbrev pub closed : Text → Text
closed kept = if is_empty (trim kept) then b'\n' ∷ [] else line_feeds ++ kept

abbrev pub drop_line_ends : Text → Text
drop_line_ends = drop_while (λ c. c == b'\r' || c == b'\n')

abbrev pub closing : Text → Text
closing after = closed (drop_line_ends after)

-- the block at the end of a text that has none
abbrev pub append_block : Text → Text → Text
append_block block text = opening text ++ (block ++ b'\n' ∷ [])

unfoldable pub ensure_block : Text → Text → Text
unfolding find_text strip_prefix drop_while drop_end
ensure_block block text = elim (find_text text managed_begin) [
  | none ↦ append_block block text
  | some (before, from) ↦ elim (find_text from managed_end) [
    | none ↦ append_block block text
    | some (old, rest) ↦
        opening before ++ (block ++ closing (unwrap_or (strip_prefix rest managed_end) []))
  ]
]

unfoldable pub ensure_managed_block : Text → Text → Text
unfolding ensure_block managed_block managed_conf_dir
ensure_managed_block main_config_text rules_dir =
    ensure_block (managed_block (managed_conf_dir rules_dir)) main_config_text

-- the lines of the managed pages, each page behind an empty line
unfoldable pub page_lines : List Text → List Text
unfolding drop_while drop_end lines_from
page_lines managed_texts =
    flat_map (λ text. if is_empty (trim text) then [] else [] ∷ lines text) managed_texts

-- the loop over the lines of the main configuration
unfoldable pub preview_lines : List Text → Bool → List Text → List Text
unfolding page_lines text_eq drop_while drop_end
preview_lines managed_texts in_managed_block [] = []
preview_lines managed_texts in_managed_block (line ∷ ls) =
    let begun = (line ∷ page_lines managed_texts) ++ preview_lines managed_texts true ls in
    let ended = line ∷ preview_lines managed_texts false ls in
    let skipped = preview_lines managed_texts true ls in
    if text_eq (trim line) managed_begin
    then begun
    else if in_managed_block && not (text_eq (trim line) managed_end)
    then skipped
    else ended

-- `managed_texts` are the pages in the order of the preview
unfoldable pub render_effective_config_preview : List Text → Text → Text
unfolding preview_lines join lines_from
render_effective_config_preview managed_texts main_config_text =
    let ls = preview_lines managed_texts false (lines main_config_text) in
    join (b'\n' ∷ []) (if is_empty ls then [] else ls ++ [] ∷ [])
