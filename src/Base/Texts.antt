-- ===== src/Base/Texts.antt =====
-- Rust's `str` and `String` as lists of code points, with the methods that the program calls.
use Prim.Native.Nat.{ℕ, ◌+◌}
use Prim.Native.Char.{code}
use Prim.Native.String.{String}
use mathlib.Core.Path.{◌≡◌, refl}
use mathlib.Core.Logic.{◌↔◌}
use mathlib.Core.Bool.{Bool, true, false, ◌&&◌, ◌||◌}
use mathlib.Core.List.{List, [], ◌∷◌, ◌++◌, map}
use mathlib.Core.Option.{Option, none, some}
use native.Mathlib.Omega.{arith}
use smartdns_plus_ui.Base.Tests.{leb, ◌==◌, if◌then◌else◌}
use smartdns_plus_ui.Base.Lists.{is_empty}

abbrev pub Text : Type 0
Text = List ℕ

-- A string literal.
abbrev pub codes : String → Text
codes String.[] = []
codes (String.◌∷◌ c s) = code c ∷ codes s

-- `str == str`
unfoldable pub text_eq : Text → Text → Bool
text_eq [] [] = true
text_eq (x ∷ xs) (y ∷ ys) = x == y && text_eq xs ys
text_eq _ _ = false

-- `char::is_whitespace`: the code points with the property White_Space
unfoldable pub is_whitespace : ℕ → Bool
is_whitespace c =
    c == 0x20
    || leb 0x09 c && leb c 0x0d
    || c == 0x85
    || c == 0xa0
    || c == 0x1680
    || leb 0x2000 c && leb c 0x200a
    || c == 0x2028
    || c == 0x2029
    || c == 0x202f
    || c == 0x205f
    || c == 0x3000

-- `trim_start_matches(p)` for a predicate on characters
unfoldable pub drop_while : (ℕ → Bool) → Text → Text
drop_while p [] = []
drop_while p (c ∷ s) = let rest = drop_while p s in if p c then rest else c ∷ s

-- `trim_end_matches(p)`
unfoldable pub drop_end : (ℕ → Bool) → Text → Text
drop_end p [] = []
drop_end p (c ∷ s) = let rest = drop_end p s in if is_empty rest && p c then [] else c ∷ rest

abbrev pub trim_start : Text → Text
trim_start = drop_while is_whitespace

abbrev pub trim_end : Text → Text
trim_end = drop_end is_whitespace

abbrev pub trim : Text → Text
trim s = trim_start (trim_end s)

unfoldable pub starts_with : Text → Text → Bool
starts_with s [] = true
starts_with [] (p ∷ ps) = false
starts_with (c ∷ s) (p ∷ ps) = c == p && starts_with s ps

unfoldable pub strip_prefix : Text → Text → Option Text
strip_prefix s [] = some s
strip_prefix [] (p ∷ ps) = none
strip_prefix (c ∷ s) (p ∷ ps) = let rest = strip_prefix s ps in if c == p then rest else none

-- `ends_with` a character
unfoldable pub ends_with_char : Text → ℕ → Bool
ends_with_char [] k = false
ends_with_char (c ∷ s) k = if is_empty s then c == k else ends_with_char s k

-- `contains` a text
unfoldable pub contains_text : Text → Text → Bool
unfolding starts_with
contains_text [] p = starts_with [] p
contains_text (c ∷ s) p = starts_with (c ∷ s) p || contains_text s p

-- `s.find(p)`, as the texts before and from the place found
unfoldable pub find_text : Text → Text → Option (Text × Text)
unfolding starts_with
find_text [] p = if starts_with [] p then some ([], []) else none
find_text (c ∷ s) p =
    let rest = find_text s p in
    if starts_with (c ∷ s) p
    then some ([], c ∷ s)
    else elim rest [ none ↦ none | some (a, b) ↦ some (c ∷ a, b) ]

-- `s.rfind(k)`, as the texts before and after the character found
unfoldable pub rsplit_once : Text → ℕ → Option (Text × Text)
rsplit_once [] k = none
rsplit_once (c ∷ s) k = elim (rsplit_once s k) [
  | some (a, b) ↦ some (c ∷ a, b)
  | none ↦ if c == k then some ([], s) else none
]

-- one carriage return before the line feed belongs to the line ending
unfoldable pub strip_cr : Text → Text
strip_cr [] = []
strip_cr (c ∷ s) = let rest = strip_cr s in if is_empty s && c == b'\r' then [] else c ∷ rest

-- `lines()`, with the line read so far
unfoldable pub lines_from : Text → Text → List Text
unfolding strip_cr
lines_from acc [] = if is_empty acc then [] else acc ∷ []
lines_from acc (c ∷ s) =
    let next = strip_cr acc ∷ lines_from [] s in
    let more = lines_from (acc ++ c ∷ []) s in if c == b'\n' then next else more

abbrev pub lines : Text → List Text
lines = lines_from []

-- `split_whitespace()`, with the word read so far
unfoldable pub words_from : Text → Text → List Text
words_from acc [] = if is_empty acc then [] else acc ∷ []
words_from acc (c ∷ s) =
    let next = words_from [] s in
    let more = words_from (acc ++ c ∷ []) s in
    if is_whitespace c then (if is_empty acc then next else acc ∷ next) else more

abbrev pub split_whitespace : Text → List Text
split_whitespace = words_from []

-- `split(k)` at a character, with the piece read so far
unfoldable pub split_from : Text → ℕ → Text → List Text
split_from acc k [] = acc ∷ []
split_from acc k (c ∷ s) =
    let next = acc ∷ split_from [] k s in
    let more = split_from (acc ++ c ∷ []) k s in if c == k then next else more

-- `splitn(2, char::is_whitespace)`: the first piece, and the second or "" where there is none
unfoldable pub splitn2 : Text → Text × Text
splitn2 [] = ([], [])
splitn2 (c ∷ s) = let rest = splitn2 s in if is_whitespace c then ([], s) else (c ∷ rest.0, rest.1)

-- `parts.join(sep)`
unfoldable pub join : Text → List Text → Text
join sep [] = []
join sep (x ∷ xs) = let rest = join sep xs in if is_empty xs then x else x ++ sep ++ rest

-- `replace("\r\n", "\n")`
unfoldable pub replace_crlf : Text → Text
replace_crlf [] = []
replace_crlf (c ∷ s) =
    let rest = replace_crlf s in if c == b'\r' && starts_with s (b'\n' ∷ []) then rest else c ∷ rest

-- `char::to_ascii_lowercase`
unfoldable pub to_ascii_lowercase : ℕ → ℕ
to_ascii_lowercase c = if leb b'A' c && leb c b'Z' then c + 32 else c

unfoldable pub eq_ignore_ascii_case : Text → Text → Bool
unfolding text_eq to_ascii_lowercase
eq_ignore_ascii_case a b = text_eq (map to_ascii_lowercase a) (map to_ascii_lowercase b)

pub text_eq_iff : (a b : Text) → (text_eq a b ≡ true) ↔ (a ≡ b)
unfolding text_eq
text_eq_iff (x ∷ a) (y ∷ b) = ground (arith, text_eq_iff a b)
text_eq_iff _ _ = ground arith

pub text_eq_refl : (a : Text) → text_eq a a ≡ true
text_eq_refl a = (text_eq_iff a a).1 refl
