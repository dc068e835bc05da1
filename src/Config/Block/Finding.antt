-- ===== src/Config/Block/Finding.antt =====
-- Laws of `find` and of trimming that the block of src/config_ui.rs rests on.
use smartdns_plus_ui.Base.{
  ℕ, Bool, true, false, not, [], ◌∷◌, ◌++◌, ◌≡◌, refl, sym, ap, ◌∙◌, Option, none, some, ◌==◌,
  is_empty, all, subst, Bool-cases, Option-cases, inl, inr, Text, starts_with, strip_prefix,
  find_text, arith,
}

-- a place found in a text that stands behind another text
abbrev pub shift : Text → Option (Text × Text) → Option (Text × Text)
shift a none = none
shift a (some (before, from)) = some (a ++ before, from)

abbrev pub has_no : ℕ → Text → Bool
has_no k = all (λ c. not (c == k))

-- A text without line feed that starts at a place before a line feed ends before it too.
starts_with-newline :
    (a rest p : Text) → has_no b'\n' p ≡ true → starts_with (a ++ b'\n' ∷ rest) p ≡ starts_with a p
unfolding starts_with
starts_with-newline [] rest [] h = refl
starts_with-newline [] rest (q ∷ p) h = ground arith
starts_with-newline (c ∷ a) rest [] h = refl
starts_with-newline (c ∷ a) rest (q ∷ p) h = ground (arith, starts_with-newline a rest p)

starts_with-append : (a rest p : Text) → starts_with (a ++ rest) p ≡ false → starts_with a p ≡ false
unfolding starts_with
starts_with-append [] rest [] h = h
starts_with-append [] rest (q ∷ p) h = refl
starts_with-append (c ∷ a) rest [] h = h
starts_with-append (c ∷ a) rest (q ∷ p) h = ground (arith, starts_with-append a rest p)

-- the empty text is found everywhere, so that the texts looked for have a first character
module _ (q : ℕ) (p : Text) where
  pub find_text-cons :
      (c : ℕ) (s : Text)
      → starts_with (c ∷ s) (q ∷ p) ≡ false
      → find_text (c ∷ s) (q ∷ p) ≡ shift (c ∷ []) (find_text s (q ∷ p))
  unfolding find_text
  find_text-cons c s h = elim (Option-cases (find_text s (q ∷ p))) [
    | inl e ↦ rw (h, e)
    | inr (place, e) ↦ rw (h, e)
  ]

  find_text-none :
      (c : ℕ) (s : Text)
      → find_text (c ∷ s) (q ∷ p) ≡ none
      → (starts_with (c ∷ s) (q ∷ p) ≡ false) × (find_text s (q ∷ p) ≡ none)
  unfolding find_text
  find_text-none c s e = (ground arith, ground arith)

  shift-shift :
      (c : ℕ) (a : Text) (o : Option (Text × Text)) → shift (c ∷ []) (shift a o) ≡ shift (c ∷ a) o
  shift-shift c a none = refl
  shift-shift c a (some (before, from)) = refl

  shift-nil : (o : Option (Text × Text)) → shift [] o ≡ o
  shift-nil none = refl
  shift-nil (some (before, from)) = refl

  -- What was not found before a line feed is looked for behind it.
  pub find_text-newline :
      (a rest : Text)
      → has_no b'\n' (q ∷ p) ≡ true
      → find_text a (q ∷ p) ≡ none
      → find_text (a ++ b'\n' ∷ rest) (q ∷ p) ≡ shift a (find_text (b'\n' ∷ rest) (q ∷ p))
  find_text-newline [] rest h e = sym (shift-nil (find_text (b'\n' ∷ rest) (q ∷ p)))
  find_text-newline (c ∷ a) rest h e =
      let (other, later) = find_text-none c a e in
      find_text-cons c (a ++ b'\n' ∷ rest) (starts_with-newline (c ∷ a) rest (q ∷ p) h ∙ other)
      ∙ ap (shift (c ∷ [])) (find_text-newline a rest h later)
      ∙ shift-shift c a (find_text (b'\n' ∷ rest) (q ∷ p))

  pub find_text-before :
      (a rest : Text) → find_text (a ++ rest) (q ∷ p) ≡ none → find_text a (q ∷ p) ≡ none
  find_text-before [] rest e = unfold find_text starts_with in refl
  find_text-before (c ∷ a) rest e =
      let (other, later) = find_text-none c (a ++ rest) e in
      find_text-cons c a (starts_with-append (c ∷ a) rest (q ∷ p) other)
      ∙ ap (shift (c ∷ [])) (find_text-before a rest later)

  abbrev pub IsFirst : Text → Text × Text → Type 0
  IsFirst t (before, from) =
      (t ≡ before ++ from) × (find_text before (q ∷ p) ≡ none) × (starts_with from (q ∷ p) ≡ true)

  some_inj : (x y : Text × Text) → some x ≡ some y → x ≡ y
  some_inj x y e = cc

  IsFirst-cons :
      (c : ℕ) (s : Text) (place : Text × Text)
      → starts_with (c ∷ s) (q ∷ p) ≡ false
      → IsFirst s place
      → IsFirst (c ∷ s) (c ∷ place.0, place.1)
  IsFirst-cons c s (b, f) other (split, first, start) =
      let e : ◌≡◌ {A = Text} (c ∷ s) (c ∷ b ++ f) = ap (λ l. c ∷ l) split in
      (
        e,
        find_text-cons c b (
              starts_with-append (c ∷ b) f (q ∷ p)
                (ap (λ l. starts_with l (q ∷ p)) (sym e) ∙ other))
            ∙ ap (shift (c ∷ [])) first,
        start,
      )

  -- Before the first place there is no other.
  pub find_text-IsFirst :
      (t : Text) (place : Text × Text) → find_text t (q ∷ p) ≡ some place → IsFirst t place
  find_text-IsFirst [] place e = absurd (unfold find_text starts_with in cc e)
  find_text-IsFirst (c ∷ s) place e = elim (Bool-cases (starts_with (c ∷ s) (q ∷ p))) [
    | inl here ↦
        subst (IsFirst (c ∷ s)) (some_inj ([], c ∷ s) place (unfold find_text in sym (rw here) ∙ e))
          (refl, (unfold find_text starts_with in refl), here)
    | inr there ↦ elim (Option-cases (find_text s (q ∷ p))) [
      | inl nowhere ↦ absurd (cc (find_text-cons c s there ∙ ap (shift (c ∷ [])) nowhere, e))
      | inr (later, found) ↦
          subst (IsFirst (c ∷ s))
            (some_inj (c ∷ later.0, later.1) place
              (sym (find_text-cons c s there ∙ ap (shift (c ∷ [])) found) ∙ e))
            (IsFirst-cons c s later there (find_text-IsFirst s later found))
    ]
  ]

  -- A text without the first character of what is looked for is passed over.
  pub find_text-skip :
      (a rest : Text)
      → has_no q a ≡ true
      → find_text (a ++ rest) (q ∷ p) ≡ shift a (find_text rest (q ∷ p))
  find_text-skip [] rest h = sym (shift-nil (find_text rest (q ∷ p)))
  find_text-skip (c ∷ a) rest h =
      find_text-cons c (a ++ rest) (unfold starts_with in ground arith)
      ∙ ap (shift (c ∷ [])) (find_text-skip a rest (ground arith))
      ∙ shift-shift c a (find_text rest (q ∷ p))

-- `find` where the text starts with what is looked for
pub find_text-here :
    (s p : Text) → starts_with s p ≡ true → is_empty s ≡ false → find_text s p ≡ some ([], s)
unfolding find_text
find_text-here [] p h e = cc
find_text-here (c ∷ s) p h e = rw h

pub starts_with_self : (p rest : Text) → starts_with (p ++ rest) p ≡ true
unfolding starts_with
starts_with_self [] rest = refl
starts_with_self (c ∷ p) rest = ground (arith, starts_with_self p rest)

pub strip_prefix_self : (p rest : Text) → strip_prefix (p ++ rest) p ≡ some rest
unfolding strip_prefix
strip_prefix_self [] rest = refl
strip_prefix_self (c ∷ p) rest = ground (arith, strip_prefix_self p rest)
