-- ===== src/Base/Trim.antt =====
-- Laws of trimming: what has no white space at an end is left as it is.
use Prim.Native.Nat.{ℕ}
use mathlib.Core.Path.{◌≡◌, refl, ap, ◌∙◌}
use mathlib.Core.Bool.{Bool, true, false, not}
use mathlib.Core.List.{[], ◌∷◌, ◌++◌}
use native.Mathlib.Omega.{arith}
use smartdns_plus_ui.Base.Lists.{is_empty, all}
use smartdns_plus_ui.Base.Texts.{
  Text, is_whitespace, drop_while, drop_end, trim, trim_end, ends_with_char,
}

abbrev pub is_black : ℕ → Bool
is_black c = not (is_whitespace c)

-- no white space, and not empty
abbrev pub is_token : Text → Bool
is_token [] = false
is_token (c ∷ s) = all is_black (c ∷ s)

pub drop_end-append :
    (p : ℕ → Bool) (a b : Text)
    → is_empty (drop_end p b) ≡ false
    → drop_end p (a ++ b) ≡ a ++ drop_end p b
unfolding drop_end
drop_end-append p [] b h = refl
drop_end-append p (c ∷ []) b h = ground arith
drop_end-append p (c ∷ d ∷ a) b h = ground (arith, drop_end-append p (d ∷ a) b h)

drop_end-all : (s : Text) → all is_black s ≡ true → trim_end s ≡ s
unfolding drop_end
drop_end-all [] h = refl
drop_end-all (c ∷ s) h = ground (arith, drop_end-all s)

-- A text that ends in a token has no white space at its end.
pub trim_end-token : (a t : Text) → is_token t ≡ true → trim_end (a ++ t) ≡ a ++ t
trim_end-token a [] h = cc
trim_end-token a (c ∷ t) h =
    let kept = drop_end-all (c ∷ t) h in
    drop_end-append is_whitespace a (c ∷ t) (ap is_empty kept) ∙ ap (λ s. a ++ s) kept

pub trim-cons :
    (c : ℕ) (a t : Text)
    → is_whitespace c ≡ false
    → is_token t ≡ true
    → trim (c ∷ (a ++ t)) ≡ c ∷ (a ++ t)
unfolding drop_while
trim-cons c a t h k = ground (arith, trim_end-token (c ∷ a) t k)

pub trim-token : (t : Text) → is_token t ≡ true → trim t ≡ t
unfolding drop_while
trim-token [] h = cc
trim-token (c ∷ t) h = ground (arith, drop_end-all (c ∷ t) h)

pub ends_with_char-append :
    (a : Text) (c : ℕ) (t : Text) (k : ℕ) → ends_with_char (a ++ c ∷ t) k ≡ ends_with_char (c ∷ t) k
unfolding ends_with_char
ends_with_char-append [] c t k = refl
ends_with_char-append (d ∷ []) c t k = refl
ends_with_char-append (d ∷ e ∷ a) c t k = ends_with_char-append (e ∷ a) c t k
