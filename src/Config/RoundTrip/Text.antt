-- ===== src/Config/RoundTrip/Text.antt =====
-- The lines that the writer makes, as `logical_lines` and `directive` read them.
use smartdns_plus_ui.Base.{
  Bool, true, false, List, [], ◌∷◌, ◌++◌, ◌≡◌, refl, sym, ap, ◌∙◌, arith, some, if◌then◌else◌, All,
  is_empty, filter_map, Text, is_line, trim, trim_end, ends_with_char, starts_with, drop_while,
  drop_end, join, splitn2, lines-join, append_assoc, append-nil, map, length, leb, inl, inr,
  Bool-cases, Option-cases, All-append, All-map_lem,
}
use smartdns_plus_ui.Config.Render.{titled, or_note}
use smartdns_plus_ui.Config.Lines.{logical_step, logical_loop, logical_lines, directive, directives}

-- A line whose last character is neither white space nor a backslash, and is not the first one.
pub record IsPlain (l : Text) : Type 0 where
  pub line : is_line l ≡ true
  pub trimmed : trim l ≡ l
  pub trimmed_end : trim_end l ≡ l
  pub no_backslash : ends_with_char l b'\\' ≡ false

abbrev pub is_comment : Text → Bool
is_comment l = starts_with l (b'#' ∷ [])

-- what `logical_lines` keeps of plain lines
abbrev pub kept : List Text → List Text
kept [] = []
kept (l ∷ ls) =
    let rest = kept ls in if is_comment l then rest else if is_empty l then rest else l ∷ rest

logical_step-plain :
    (done : List Text) (l : Text)
    → IsPlain l
    → logical_step (record { merged = done; current = [] }) l ≡ record {
      merged = if is_comment l then done else if is_empty l then done else done ++ l ∷ [];
      current = [];
    }
unfolding logical_step
logical_step-plain done [] p = unfold starts_with drop_while drop_end ends_with_char in refl
logical_step-plain done (c ∷ l) p = rw (p.trimmed_end, p.trimmed, p.no_backslash) (ground arith)

logical_loop-plain :
    (ls done : List Text)
    → All IsPlain ls
    → logical_loop (record { merged = done; current = [] }) ls ≡ done ++ kept ls
unfolding logical_loop
logical_loop-plain [] done h = sym (append-nil done)
logical_loop-plain (l ∷ ls) done h =
    ap (λ m. logical_loop m ls) (logical_step-plain done l h.0)
    ∙ logical_loop-plain ls
        (if is_comment l then done else if is_empty l then done else done ++ l ∷ []) h.1
    ∙ ground (arith, append_assoc done (l ∷ []) (kept ls))

All-line : (ls : List Text) → All IsPlain ls → All (λ l. is_line l ≡ true) ls
All-line [] h = tt
All-line (l ∷ ls) h = (h.0.line, All-line ls h.1)

-- The directives of a written file are those of its lines that are neither blank nor comments.
pub directives-join :
    (ls : List Text)
    → All IsPlain ls
    → directives (join (b'\n' ∷ []) (ls ++ [] ∷ [])) ≡ filter_map directive (kept ls)
unfolding directives logical_lines
directives-join ls h =
    ap
      (λ (x : List Text).
        filter_map directive (logical_loop (record { merged = []; current = [] }) x))
      (lines-join ls (All-line ls h))
    ∙ ap (λ (x : List Text). filter_map directive x) (logical_loop-plain ls [] h)

pub kept-append : (a b : List Text) → kept (a ++ b) ≡ kept a ++ kept b
kept-append [] b = refl
kept-append (l ∷ a) b = ground (arith, kept-append a b)

-- A line that is no comment and not empty.
abbrev pub IsEntry : Text → Type 0
IsEntry l = IsPlain l × (is_comment l ≡ false) × (is_empty l ≡ false)

pub kept-IsEntry : (ls : List Text) → All IsEntry ls → kept ls ≡ ls
kept-IsEntry [] h = refl
kept-IsEntry (l ∷ ls) h = ground (arith, kept-IsEntry ls h.1)

pub blank-IsPlain : IsPlain []
unfolding drop_while drop_end ends_with_char
blank-IsPlain = record { line = refl; trimmed = refl; trimmed_end = refl; no_backslash = refl }

-- A block under a title: what is kept of it are its entries.
module _ (title : Text) (is_plain : IsPlain title) (is_title : is_comment title ≡ true) where
  pub titled-IsPlain : (ls : List Text) → All IsEntry ls → All IsPlain (titled title ls)
  titled-IsPlain [] h = tt
  titled-IsPlain (l ∷ ls) h = (
    is_plain,
    All-append IsPlain (l ∷ ls) ([] ∷ []) (All-map_lem IsEntry IsPlain (λ x e. e.0) (l ∷ ls) h)
        (blank-IsPlain, tt),
  )

  pub kept-titled : (ls : List Text) → All IsEntry ls → kept (titled title ls) ≡ ls
  unfolding starts_with
  kept-titled [] h = refl
  kept-titled (l ∷ ls) h =
      rw is_title
        (kept-append (l ∷ ls) ([] ∷ []) ∙ append-nil (kept (l ∷ ls)) ∙ kept-IsEntry (l ∷ ls) h)

  pub or_note-IsPlain : (ls : List Text) → All IsPlain ls → All IsPlain (or_note title ls)
  or_note-IsPlain ls h = elim (Bool-cases (leb (length ls) 3)) [
    | inl few ↦ rw few (All-append IsPlain ls (title ∷ []) h (is_plain, tt))
    | inr many ↦ rw many h
  ]

  pub kept-or_note : (ls : List Text) → kept (or_note title ls) ≡ kept ls
  kept-or_note ls = elim (Bool-cases (leb (length ls) 3)) [
    | inl few ↦ rw few (kept-append ls (title ∷ []) ∙ rw is_title (append-nil (kept ls)))
    | inr many ↦ rw many
  ]

pub filter_map-map {ℓ} :
    {A : Type ℓ} (f : A → Text) (g : A → Text × Text) (xs : List A)
    → All (λ x. directive (f x) ≡ some (g x)) xs
    → filter_map directive (map f xs) ≡ map g xs
filter_map-map f g [] h = refl
filter_map-map f g (x ∷ xs) h = rw (h.0, filter_map) (ap (λ l. g x ∷ l) (filter_map-map f g xs h.1))

pub filter_map-append :
    (a b : List Text)
    → filter_map directive (a ++ b) ≡ filter_map directive a ++ filter_map directive b
filter_map-append [] b = refl
filter_map-append (l ∷ a) b = elim (Option-cases (directive l)) [
  | inl skip ↦ rw (skip, filter_map) (filter_map-append a b)
  | inr (d, e) ↦ rw (e, filter_map) (ap (λ l. d ∷ l) (filter_map-append a b))
]

-- A plain entry is split at its first white space.
pub directive-IsEntry :
    (l : Text) → IsEntry l → directive l ≡ some (trim (splitn2 l).0, trim (splitn2 l).1)
unfolding directive
directive-IsEntry l (p, comment, empty) = rw p.trimmed (ground arith)
