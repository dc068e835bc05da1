-- ===== src/Base/Word.antt =====
-- Unsigned machine words, and their decimal texts: `to_string` and `str::parse`.
pub mod Decimal
use smartdns_plus_ui.Base.Tests.{ltb, leb, ◌==◌, if◌then◌else◌}
use smartdns_plus_ui.Base.Lists.{is_empty}
use smartdns_plus_ui.Base.Texts.{Text}
use Prim.Native.Nat.{ℕ, zero, suc, ◌+◌, ◌-◌, ◌*◌, ◌/◌, ◌%◌, ◌^◌}
use mathlib.Core.Bool.{Bool, true, false, not, ◌&&◌}
use mathlib.Core.List.{List, [], ◌∷◌, ◌++◌}
use mathlib.Core.Option.{Option, none, some}

abbrev pub u16_mod : ℕ
u16_mod = 2 ^ 16

abbrev pub u32_mod : ℕ
u32_mod = 2 ^ 32

abbrev pub u64_mod : ℕ
u64_mod = 2 ^ 64

-- The decimal digits of a number, the last one first computed; `fuel` bounds their count.
unfoldable pub digits_of : ℕ → ℕ → Text
digits_of zero n = []
digits_of (suc fuel) n =
    let more = digits_of fuel (n / 10) in
    if ltb n 10 then (b'0' + n) ∷ [] else more ++ (b'0' + n % 10) ∷ []

-- `u64::to_string`: a number has at most as many digits as its value and one
unfoldable pub to_string : ℕ → Text
unfolding digits_of
to_string n = digits_of (suc n) n

abbrev pub is_digit : ℕ → Bool
is_digit c = leb b'0' c && leb c b'9'

-- the value of a text of digits, from the value read so far; `none` on another character and on
-- a value that does not fit below `bound`
unfoldable pub parse_digits : ℕ → ℕ → Text → Option ℕ
parse_digits bound acc [] = some acc
parse_digits bound acc (c ∷ s) =
    let next = acc * 10 + (c - b'0') in
    let rest = parse_digits bound next s in
    if not (is_digit c) then none else if ltb next bound then rest else none

-- `str::parse` of an unsigned integer below `bound`: a `+` in front is allowed, no digits are not
unfoldable pub parse_unsigned : ℕ → Text → Option ℕ
unfolding parse_digits
parse_unsigned bound [] = none
parse_unsigned bound (c ∷ s) =
    if c == b'+'
    then (if is_empty s then none else parse_digits bound 0 s)
    else parse_digits bound 0 (c ∷ s)
