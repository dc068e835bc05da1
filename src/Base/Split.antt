-- ===== src/Base/Split.antt =====
-- Laws of `lines`, `split_whitespace` and `join`: what was joined is split again.
use Prim.Native.Nat.{ℕ}
use mathlib.Core.Path.{◌≡◌, refl, ap, ◌∙◌, sym}
use mathlib.Core.Bool.{Bool, true, not, ◌&&◌}
use mathlib.Core.List.{List, [], ◌∷◌, ◌++◌, append_assoc, append-nil}
use native.Mathlib.Omega.{arith}
use smartdns_plus_ui.Base.Tests.{◌==◌}
use smartdns_plus_ui.Base.Lists.{all, All}
use smartdns_plus_ui.Base.Trim.{is_black, is_token}
use smartdns_plus_ui.Base.Texts.{
  Text, is_whitespace, strip_cr, lines_from, lines, words_from, split_whitespace, join,
}

-- no line feed and no carriage return
abbrev pub is_line : Text → Bool
is_line = all (λ c. not (c == b'\n') && not (c == b'\r'))

strip_cr-is_line : (s : Text) → is_line s ≡ true → strip_cr s ≡ s
unfolding strip_cr
strip_cr-is_line [] h = refl
strip_cr-is_line (c ∷ s) h = ground (arith, strip_cr-is_line s)

lines_from-newline :
    (acc l rest : Text)
    → is_line l ≡ true
    → lines_from acc (l ++ b'\n' ∷ rest) ≡ strip_cr (acc ++ l) ∷ lines rest
unfolding lines_from
lines_from-newline acc [] rest h = rw append-nil
lines_from-newline acc (c ∷ l) rest h =
    ground (arith, lines_from-newline (acc ++ c ∷ []) l rest, append_assoc acc (c ∷ []) l)

join-last :
    (sep l : Text) (ls : List Text)
    → join sep (l ∷ (ls ++ [] ∷ [])) ≡ l ++ sep ++ join sep (ls ++ [] ∷ [])
unfolding join
join-last sep l [] = refl
join-last sep l (m ∷ ls) = refl

-- The lines of the text that a writer made of a list of lines are that list.
pub lines-join :
    (ls : List Text)
    → All (λ l. is_line l ≡ true) ls
    → lines (join (b'\n' ∷ []) (ls ++ [] ∷ [])) ≡ ls
lines-join [] h = unfold join lines_from in refl
lines-join (l ∷ ls) h =
    ap lines (join-last (b'\n' ∷ []) l ls)
    ∙ ap lines (append_assoc l (b'\n' ∷ []) (join (b'\n' ∷ []) (ls ++ [] ∷ [])))
    ∙ lines_from-newline [] l (join (b'\n' ∷ []) (ls ++ [] ∷ [])) h.0
    ∙ ap (λ m. m ∷ lines (join (b'\n' ∷ []) (ls ++ [] ∷ []))) (strip_cr-is_line l h.0)
    ∙ ap (λ ms. l ∷ ms) (lines-join ls h.1)

words_from-black :
    (acc w rest : Text)
    → all is_black w ≡ true
    → words_from acc (w ++ rest) ≡ words_from (acc ++ w) rest
unfolding words_from
words_from-black acc [] rest h = rw append-nil
words_from-black acc (c ∷ w) rest h =
    ground (arith, words_from-black (acc ++ c ∷ []) w rest, append_assoc acc (c ∷ []) w)

pub split_whitespace-cons :
    (w rest : Text)
    → is_token w ≡ true
    → split_whitespace (w ++ b' ' ∷ rest) ≡ w ∷ split_whitespace rest
unfolding words_from is_whitespace
split_whitespace-cons [] rest h = cc
split_whitespace-cons (c ∷ w) rest h = words_from-black [] (c ∷ w) (b' ' ∷ rest) h

pub split_whitespace-token : (w : Text) → is_token w ≡ true → split_whitespace w ≡ w ∷ []
unfolding words_from
split_whitespace-token [] h = cc
split_whitespace-token (c ∷ w) h =
    ap split_whitespace (sym (append-nil (c ∷ w))) ∙ words_from-black [] (c ∷ w) [] h

is_black-is_line : (c : ℕ) → is_black c ≡ true → (not (c == b'\n') && not (c == b'\r')) ≡ true
unfolding is_whitespace
is_black-is_line c h = ground arith

pub all_black-is_line : (s : Text) → all is_black s ≡ true → is_line s ≡ true
all_black-is_line [] h = refl
all_black-is_line (c ∷ s) h = ground (arith, is_black-is_line c, all_black-is_line s)

pub is_token-is_line : (s : Text) → is_token s ≡ true → is_line s ≡ true
is_token-is_line [] h = cc
is_token-is_line (c ∷ s) h = all_black-is_line (c ∷ s) h

pub is_line-append : (a b : Text) → is_line a ≡ true → is_line b ≡ true → is_line (a ++ b) ≡ true
is_line-append [] b ha hb = hb
is_line-append (c ∷ a) b ha hb = ground (arith, is_line-append a b)
