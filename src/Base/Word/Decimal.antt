-- ===== src/Base/Word/Decimal.antt =====
-- A decimal text is read back as the number that it was made from.
use Prim.Native.Nat.{ℕ, zero, suc, ◌+◌, ◌*◌, ◌/◌, ◌%◌, ◌≤◌, ◌<◌}
use mathlib.Core.Path.{◌≡◌, refl, ap, ◌∙◌, sym}
use mathlib.Core.Logic.{inl, inr}
use mathlib.Core.Bool.{Bool, true, false}
use mathlib.Core.List.{[], ◌∷◌, ◌++◌, append_assoc, append-nil}
use mathlib.Core.Option.{some}
use native.Mathlib.Omega.{arith}
use smartdns_plus_ui.Base.Tests.{ltb, Bool-cases, ltb→lt}
use smartdns_plus_ui.Base.Texts.{Text}
use smartdns_plus_ui.Base.Word.{digits_of, to_string, is_digit, parse_digits, parse_unsigned}

parse_digits-digit :
    (bound acc d : ℕ) (s : Text)
    → d < 10
    → acc * 10 + d < bound
    → parse_digits bound acc ((b'0' + d) ∷ s) ≡ parse_digits bound (acc * 10 + d) s
unfolding parse_digits
parse_digits-digit bound acc d s h k = ground arith

parse_digits-digits_of :
    (fuel bound n : ℕ) (s : Text)
    → n < fuel
    → n < bound
    → parse_digits bound 0 (digits_of fuel n ++ s) ≡ parse_digits bound n s
unfolding digits_of
parse_digits-digits_of zero bound n s h k = elim h [ ]
parse_digits-digits_of (suc fuel) bound n s h k = elim (Bool-cases (ltb n 10)) [
  | inl small ↦ rw small (
      parse_digits-digit bound 0 n s (ltb→lt n 10 small) (omega arith)
      ∙ ap (λ m. parse_digits bound m s) (omega arith))
  | inr large ↦
      let big : 10 ≤ n = ground arith in
      rw (large, append_assoc)
        (parse_digits-digits_of fuel bound (n / 10) ((b'0' + n % 10) ∷ s) (omega arith)
            (omega arith)
          ∙ parse_digits-digit bound (n / 10) (n % 10) s (omega arith) (omega arith)
          ∙ ap (λ m. parse_digits bound m s) (omega arith))
]

abbrev head_digit : Text → Bool
head_digit [] = false
head_digit (c ∷ s) = is_digit c

head_digit-append : (a b : Text) → head_digit a ≡ true → head_digit (a ++ b) ≡ true
head_digit-append [] b h = cc
head_digit-append (c ∷ a) b h = h

head_digit-digits_of : (fuel n : ℕ) → n < fuel → head_digit (digits_of fuel n) ≡ true
unfolding digits_of
head_digit-digits_of zero n h = elim h [ ]
head_digit-digits_of (suc fuel) n h = elim (Bool-cases (ltb n 10)) [
  | inl small ↦ rw small (ground arith)
  | inr large ↦ rw large (
      head_digit-append (digits_of fuel (n / 10)) ((b'0' + n % 10) ∷ [])
        (head_digit-digits_of fuel (n / 10) (ground arith)))
]

parse_unsigned-head_digit :
    (bound : ℕ) (t : Text) → head_digit t ≡ true → parse_unsigned bound t ≡ parse_digits bound 0 t
unfolding parse_unsigned
parse_unsigned-head_digit bound [] h = cc
parse_unsigned-head_digit bound (c ∷ s) h = ground arith

-- A number below the bound is read back from its decimal text.
pub parse_unsigned-to_string :
    (bound n : ℕ) → n < bound → parse_unsigned bound (to_string n) ≡ some n
unfolding to_string
parse_unsigned-to_string bound n h =
    parse_unsigned-head_digit bound (digits_of (suc n) n)
      (head_digit-digits_of (suc n) n (omega arith))
    ∙ ap (parse_digits bound 0) (sym (append-nil (digits_of (suc n) n)))
    ∙ parse_digits-digits_of (suc n) bound n [] (omega arith) h
    ∙ unfold parse_digits in refl
