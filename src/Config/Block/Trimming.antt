-- ===== src/Config/Block/Trimming.antt =====
-- What stands before and behind the managed block of src/config_ui.rs, trimmed again.
use smartdns_plus_ui.Base.{
  ℕ, Bool, true, ◌&&◌, ◌||◌, [], ◌∷◌, ◌++◌, ◌≡◌, refl, ap, ◌∙◌, ◌==◌, is_empty, Bool-cases, inl,
  inr, Text, is_whitespace, drop_while, drop_end, trim, trim_end, arith,
}
use smartdns_plus_ui.Config.Block.{line_feeds, opened, opening, closed, drop_line_ends, closing}

is_empty-eq-nil : (s : Text) → is_empty s ≡ true → s ≡ []
is_empty-eq-nil [] h = refl
is_empty-eq-nil (c ∷ s) h = cc

-- trimming what was trimmed
drop_end-eq_nil :
    (p : ℕ → Bool) (a w : Text)
    → is_empty (drop_end p w) ≡ true
    → drop_end p (a ++ w) ≡ drop_end p a
unfolding drop_end
drop_end-eq_nil p [] w h = is_empty-eq-nil (drop_end p w) h
drop_end-eq_nil p (c ∷ a) w h = ground (arith, drop_end-eq_nil p a w h)

drop_end_twice : (p : ℕ → Bool) (a : Text) → drop_end p (drop_end p a) ≡ drop_end p a
unfolding drop_end
drop_end_twice p [] = refl
drop_end_twice p (c ∷ a) = ground (arith, drop_end_twice p a)

drop_while_twice : (p : ℕ → Bool) (a : Text) → drop_while p (drop_while p a) ≡ drop_while p a
unfolding drop_while
drop_while_twice p [] = refl
drop_while_twice p (c ∷ a) = ground (arith, drop_while_twice p a)

-- what `trim_end` takes away
pub drop_end-prefix : (p : ℕ → Bool) (a : Text) → (w : Text) × (drop_end p a ++ w ≡ a)
unfolding drop_end
drop_end-prefix p [] = ([], refl)
drop_end-prefix p (c ∷ a) = elim (Bool-cases (is_empty (drop_end p a) && p c)) [
  | inl e ↦ (c ∷ a, rw e)
  | inr e ↦ let (w, same) = drop_end-prefix p a in (w, rw e (ap (λ l. c ∷ l) same))
]

trim_end-opened : (kept : Text) → trim_end (opened kept) ≡ trim_end kept
trim_end-opened [] = refl
trim_end-opened (c ∷ kept) =
    drop_end-eq_nil is_whitespace (c ∷ kept) line_feeds (unfold drop_end is_whitespace in refl)

pub opening_twice : (before : Text) → opening (opening before) ≡ opening before
opening_twice before =
    ap opened (trim_end-opened (trim_end before) ∙ drop_end_twice is_whitespace before)

closing-closed : (kept : Text) → drop_line_ends kept ≡ kept → closing (closed kept) ≡ closed kept
unfolding drop_while drop_end
closing-closed kept h = elim (Bool-cases (is_empty (trim kept))) [
  | inl e ↦ rw e refl
  | inr e ↦
      let kept_whole : closed kept ≡ line_feeds ++ kept = rw e refl in
      ap closing kept_whole ∙ ap closed h
]

pub closing_twice : (after : Text) → closing (closing after) ≡ closing after
closing_twice after =
    closing-closed (drop_line_ends after) (drop_while_twice (λ c. c == b'\r' || c == b'\n') after)
