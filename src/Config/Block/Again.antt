-- ===== src/Config/Block/Again.antt =====
-- `ensure_managed_block` of src/config_ui.rs, applied to what it made.
use smartdns_plus_ui.Base.{
  Bool, true, [], ◌∷◌, ◌++◌, append-nil, append_assoc, ◌≡◌, refl, sym, ap, ap₂, ◌∙◌, Option, none,
  some, is_empty, is_some, unwrap_or, Option-cases, inl, inr, Text, codes, is_whitespace,
  starts_with, strip_prefix, find_text, drop_while, drop_end, trim_end,
}
use smartdns_plus_ui.Config.Paths.{managed_conf_dir}
use smartdns_plus_ui.Config.Block.{
  managed_begin, managed_end, managed_block, line_feeds, opened, opening, closing, append_block,
  ensure_block, ensure_managed_block,
}
use smartdns_plus_ui.Config.Block.Finding.{
  shift, has_no, find_text-newline, find_text-before, find_text-IsFirst, find_text-skip,
  find_text-cons, find_text-here, starts_with_self, strip_prefix_self,
}
use smartdns_plus_ui.Config.Block.Trimming.{drop_end-prefix, opening_twice, closing_twice}
use smartdns_plus_ui.Config.Block.Shape.{IsBlock, managed_block-IsBlock}

abbrev begin_rest : Text
begin_rest = codes " BEGIN smartdns-plus-ui managed"

abbrev end_rest : Text
end_rest = codes " END smartdns-plus-ui managed"

ensure_block_appended :
    (block text : Text)
    → find_text text managed_begin ≡ none
    → ensure_block block text ≡ append_block block text
unfolding ensure_block
ensure_block_appended block text h = rw (h, ensure_block) refl

ensure_block_replaced :
    (block text : Text) (place last : Text × Text)
    → find_text text managed_begin ≡ some place
    → find_text place.1 managed_end ≡ some last
    → ensure_block block text
      ≡ opening place.0 ++ (block ++ closing (unwrap_or (strip_prefix last.1 managed_end) []))
unfolding ensure_block
ensure_block_replaced block text place last h k = rw (h, ensure_block) (rw k refl)

-- Either no marker stands in the text, or the block that its first marker begins is ended.
abbrev pub is_ended : Option (Text × Text) → Bool
is_ended none = true
is_ended (some (before, from)) = is_some (find_text from managed_end)

abbrev pub has_ended_block : Text → Bool
has_ended_block text = is_ended (find_text text managed_begin)

has_ended_block-some :
    (text : Text) (place : Text × Text)
    → has_ended_block text ≡ true
    → find_text text managed_begin ≡ some place
    → is_some (find_text place.1 managed_end) ≡ true
has_ended_block-some text place ended found =
    sym (ap (λ (o : Option (Text × Text)). is_ended o) found) ∙ ended

module _ (block : Text) (b : IsBlock block) where
  block_lem : (rest : Text) → block ++ rest ≡ managed_begin ++ (b.between ++ (managed_end ++ rest))
  block_lem rest =
      ap (λ l. l ++ rest) b.text
      ∙ append_assoc managed_begin (b.between ++ managed_end) rest
      ∙ ap (λ l. managed_begin ++ l) (append_assoc b.between managed_end rest)

  find_text-block :
      (rest : Text) → find_text (block ++ rest) managed_begin ≡ some ([], block ++ rest)
  find_text-block rest =
      find_text-here (block ++ rest) managed_begin
        (ap (λ l. starts_with l managed_begin) (block_lem rest)
          ∙ starts_with_self managed_begin (b.between ++ (managed_end ++ rest)))
        (ap is_empty (block_lem rest))

  -- where the first marker is found
  find_text-opened :
      (kept rest : Text)
      → find_text kept managed_begin ≡ none
      → find_text (opened kept ++ (block ++ rest)) managed_begin ≡ some (opened kept, block ++ rest)
  find_text-opened [] rest h = find_text-block rest
  find_text-opened (c ∷ kept) rest h =
      let blank_line : find_text (b'\n' ∷ b'\n' ∷ (block ++ rest)) managed_begin
          ≡ some (line_feeds, block ++ rest) =
        find_text-cons b'#' begin_rest b'\n' (b'\n' ∷ (block ++ rest)) (unfold starts_with in refl)
        ∙ ap (shift (b'\n' ∷ [])) (
            find_text-cons b'#' begin_rest b'\n' (block ++ rest) (unfold starts_with in refl)
            ∙ ap (shift (b'\n' ∷ [])) (find_text-block rest)) in
      ap (λ l. find_text l managed_begin) (append_assoc (c ∷ kept) line_feeds (block ++ rest))
      ∙ find_text-newline b'#' begin_rest (c ∷ kept) (b'\n' ∷ (block ++ rest)) refl h
      ∙ ap (shift (c ∷ kept)) blank_line

  -- where the last marker is found
  find_text-block_end :
      (rest : Text)
      → find_text (block ++ rest) managed_end
        ≡ some (managed_begin ++ b.between, managed_end ++ rest)
  find_text-block_end rest =
      ap (λ l. find_text l managed_end) (block_lem rest)
      ∙ find_text-cons b'#' end_rest b'#' (begin_rest ++ (b.between ++ (managed_end ++ rest)))
          (unfold starts_with in refl)
      ∙ ap (shift (b'#' ∷ [])) (
          find_text-skip b'#' end_rest (begin_rest ++ b.between) (managed_end ++ rest) b.no_marker
          ∙ ap (shift (begin_rest ++ b.between)) (
              find_text-here (managed_end ++ rest) managed_end (starts_with_self managed_end rest)
                refl))
      ∙ ap (λ l. some (managed_begin ++ l, managed_end ++ rest)) (append-nil b.between)

  ensure_block-made :
      (before after : Text)
      → find_text before managed_begin ≡ none
      → ensure_block block (opening before ++ (block ++ after))
        ≡ opening before ++ (block ++ closing after)
  ensure_block-made before after h =
      let (w, whole) = drop_end-prefix is_whitespace before in
      let kept_none =
        find_text-before b'#' begin_rest (trim_end before) w
          (ap (λ l. find_text l managed_begin) whole ∙ h) in
      ensure_block_replaced block (opening before ++ (block ++ after))
        (opening before, block ++ after) (managed_begin ++ b.between, managed_end ++ after)
        (find_text-opened (trim_end before) after kept_none) (find_text-block_end after)
      ∙ ap₂ (λ front back. front ++ (block ++ closing back)) (opening_twice before)
          (ap (λ o. unwrap_or o []) (strip_prefix_self managed_end after))

  ensure_block_again :
      (text : Text)
      → has_ended_block text ≡ true
      → ensure_block block (ensure_block block text) ≡ ensure_block block text
  ensure_block_again text ended = elim (Option-cases (find_text text managed_begin)) [
    | inl nowhere ↦
        let made = ensure_block_appended block text nowhere in
        ap (ensure_block block) made
        ∙ ensure_block-made text (b'\n' ∷ []) nowhere
        ∙ unfold drop_while drop_end in sym made
    | inr (place, found) ↦ elim (Option-cases (find_text place.1 managed_end)) [
      | inl open_block ↦ absurd (cc (has_ended_block-some text place ended found, open_block))
      | inr (last, found_end) ↦
          let after = unwrap_or (strip_prefix last.1 managed_end) [] in
          let made = ensure_block_replaced block text place last found found_end in
          ap (ensure_block block) made
          ∙ ensure_block-made place.0 (closing after)
              (find_text-IsFirst b'#' begin_rest text place found).1
          ∙ ap (λ back. opening place.0 ++ (block ++ back)) (closing_twice after)
          ∙ sym made
    ]
  ]

-- A main configuration that has its managed block is left as it is: a second `ensure_managed_block`
-- adds no block, no marker and no blank line, for a directory without `#` in its name, unless the
-- text had a first marker without a last one behind it.
pub ensure_managed_block_twice :
    (main_config_text rules_dir : Text)
    → has_no b'#' (managed_conf_dir rules_dir) ≡ true
    → has_ended_block main_config_text ≡ true
    → ensure_managed_block (ensure_managed_block main_config_text rules_dir) rules_dir
      ≡ ensure_managed_block main_config_text rules_dir
unfolding ensure_managed_block
ensure_managed_block_twice main_config_text rules_dir h ended =
    ensure_block_again (managed_block (managed_conf_dir rules_dir))
      (managed_block-IsBlock (managed_conf_dir rules_dir) h) main_config_text ended
