-- ===== src/Config/Block/Shape.antt =====
-- The managed block of src/config_ui.rs, as `find` meets it.
use smartdns_plus_ui.Base.{
  ℕ, true, not, List, [], ◌∷◌, ◌++◌, append-nil, append_assoc, map, ◌≡◌, refl, sym, ap, ◌∙◌, ◌==◌,
  All, all-append, flat_map, Text, join, arith,
}
use smartdns_plus_ui.Config.Paths.{path_join}
use smartdns_plus_ui.Config.Block.{
  managed_begin, managed_end, managed_file_names, include_line, managed_block,
}
use smartdns_plus_ui.Config.Block.Finding.{has_no}

-- The block as it is read: it starts with the first marker, and no other marker stands before the
-- last.
pub record IsBlock (block : Text) : Type 0 where
  pub between : Text
  pub text : block ≡ managed_begin ++ (between ++ managed_end)
  pub no_marker : has_no b'#' between ≡ true

-- The lines of the block, each ended by a line feed.
abbrev ended_lines : List Text → Text
ended_lines = flat_map (λ l. l ++ b'\n' ∷ [])

join-last_line :
    (ls : List Text) (l : Text) → join (b'\n' ∷ []) (ls ++ l ∷ []) ≡ ended_lines ls ++ l
unfolding join
join-last_line [] l = refl
join-last_line (m ∷ []) l = ap (λ front. front ++ l) (sym (append-nil (m ++ b'\n' ∷ [])))
join-last_line (m ∷ n ∷ ls) l =
    ap (λ rest. (m ++ b'\n' ∷ []) ++ rest) (join-last_line (n ∷ ls) l)
    ∙ sym (append_assoc (m ++ b'\n' ∷ []) (ended_lines (n ∷ ls)) l)

has_no-append :
    (k : ℕ) (a c : Text) → has_no k a ≡ true → has_no k c ≡ true → has_no k (a ++ c) ≡ true
has_no-append k a c h e = ground (arith, all-append (λ x. not (x == k)) a c)

has_no-path_join :
    (dir name : Text)
    → has_no b'#' dir ≡ true
    → has_no b'#' name ≡ true
    → has_no b'#' (path_join dir name) ≡ true
unfolding path_join
has_no-path_join dir name h e =
    ground (arith, has_no-append b'#' dir name, has_no-append b'#' dir (b'/' ∷ name))

has_no-ended_lines :
    (dir : Text) (names : List Text)
    → has_no b'#' dir ≡ true
    → All (λ name. has_no b'#' name ≡ true) names
    → has_no b'#' (ended_lines (map (include_line dir) names)) ≡ true
unfolding include_line
has_no-ended_lines dir [] h all_names = refl
has_no-ended_lines dir (name ∷ names) h all_names =
    has_no-append b'#' (include_line dir name ++ b'\n' ∷ [])
      (ended_lines (map (include_line dir) names))
      (has_no-append b'#' (include_line dir name) (b'\n' ∷ [])
        (has_no-path_join dir name h all_names.0) refl)
      (has_no-ended_lines dir names h all_names.1)

pub managed_block-IsBlock : (dir : Text) → has_no b'#' dir ≡ true → IsBlock (managed_block dir)
unfolding managed_block
managed_block-IsBlock dir h = record {
  between = b'\n' ∷ ended_lines (map (include_line dir) managed_file_names);
  text = join-last_line (managed_begin ∷ map (include_line dir) managed_file_names) managed_end;
  no_marker =
      has_no-ended_lines dir managed_file_names h
        (refl, (refl, (refl, (refl, (refl, (refl, (refl, (refl, tt))))))));
}
