-- ===== src/Config/Lines.antt =====
-- From text to directives: `logical_lines`, the split of a line into key and value, and the
-- readers of a value (src/config_ui.rs).
use smartdns_plus_ui.Base.{
  not, ◌||◌, List, [], ◌∷◌, ◌++◌, Option, none, some, if◌then◌else◌, ◌==◌, unwrap_or, is_empty,
  filter_map, get_elem?, Text, codes, text_eq, drop_while, drop_end, trim, trim_end, starts_with,
  strip_prefix, ends_with_char, find_text, rsplit_once, lines_from, lines, words_from,
  split_whitespace, splitn2,
}

-- the lines merged so far, and the continued line that is being built
pub record Merge : Type 0 where
  pub merged : List Text
  pub current : Text

abbrev space_before : Text → Text
space_before current = if is_empty current then current else current ++ b' ' ∷ []

-- the body of the loop of `logical_lines`
unfoldable pub logical_step : Merge → Text → Merge
unfolding drop_while drop_end starts_with ends_with_char
logical_step m raw_line =
    let trimmed_end = trim_end raw_line in
    let trimmed = trim trimmed_end in
    let piece = trim_end (drop_end (λ c. c == b'\\') trimmed_end) in
    if starts_with trimmed (b'#' ∷ [])
    then m
    else if ends_with_char trimmed_end b'\\'
    then (if is_empty piece then m else record m { current = space_before m.current ++ trim piece })
    else if not (is_empty trimmed)
    then (if is_empty m.current then record m { merged = m.merged ++ trimmed ∷ [] } else record {
      merged = m.merged ++ trim (space_before m.current ++ trimmed) ∷ [];
      current = [];
    })
    else if is_empty m.current
    then m
    else record { merged = m.merged ++ trim m.current ∷ []; current = [] }

unfoldable pub logical_loop : Merge → List Text → List Text
logical_loop m [] = if is_empty m.current then m.merged else m.merged ++ trim m.current ∷ []
logical_loop m (l ∷ ls) = logical_loop (logical_step m l) ls

unfoldable pub logical_lines : Text → List Text
unfolding logical_step logical_loop lines_from
logical_lines text = logical_loop (record { merged = []; current = [] }) (lines text)

-- The start of every loop over logical lines: a blank line or a comment is skipped, any other is
-- split at its first white space.
unfoldable pub directive : Text → Option (Text × Text)
unfolding drop_while drop_end starts_with splitn2
directive line =
    let trimmed = trim line in
    let parts = splitn2 trimmed in
    if is_empty trimmed || starts_with trimmed (b'#' ∷ [])
    then none
    else some (trim parts.0, trim parts.1)

unfoldable pub directives : Text → List (Text × Text)
unfolding directive logical_lines
directives text = filter_map directive (logical_lines text)

-- the loop of `parse_named_option` over the tokens
unfoldable pub option_in : List Text → Text → Option Text
unfolding text_eq
option_in [] name = none
option_in (t ∷ ts) name =
    let rest = option_in ts name in if text_eq t name then get_elem? ts 0 else rest

unfoldable pub parse_named_option : Text → Text → Option Text
unfolding option_in words_from
parse_named_option value name = option_in (split_whitespace value) name

-- `value.split_whitespace().next().unwrap_or("").trim()`
unfoldable pub first_word : Text → Text
unfolding words_from drop_while drop_end
first_word value = trim (unwrap_or (get_elem? (split_whitespace value) 0) [])

abbrev split_at_space : Text → Text × Text
split_at_space trimmed = let parts = splitn2 trimmed in (trim parts.0, trim parts.1)

unfoldable pub split_target_options : Text → Text × Text
unfolding drop_while drop_end strip_prefix find_text splitn2
split_target_options value =
    let trimmed = trim value in
    elim (strip_prefix trimmed (b'/' ∷ [])) [
      | none ↦ split_at_space trimmed
      | some rest ↦ elim (find_text rest (codes "/ ")) [
        | none ↦ split_at_space trimmed
        | some (before, from) ↦
            (b'/' ∷ before, trim (unwrap_or (strip_prefix from (codes "/ ")) []))
      ]
    ]

unfoldable pub split_target_value : Text → Text × Text
unfolding split_target_options rsplit_once
split_target_value value = elim (strip_prefix (trim value) (b'/' ∷ [])) [
  | none ↦ split_target_options value
  | some rest ↦ elim (rsplit_once rest b'/') [
    | none ↦ split_target_options value
    | some (before, after) ↦ (b'/' ∷ before, trim after)
  ]
]
