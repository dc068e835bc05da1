-- ===== src/Config/RoundTrip/Operand.antt =====
-- Tokens that are no options, and lines that end in one (`parse_named_option`, src/config_ui.rs).
use smartdns_plus_ui.Base.{
  ℕ, Bool, true, false, not, ◌&&◌, List, [], ◌∷◌, ◌++◌, ◌≡◌, refl, ◌∙◌, arith, ◌==◌, is_empty, Text,
  is_whitespace, is_token, is_line, ends_with_char, trim_end-token, trim-cons,
  ends_with_char-append, is_line-append, is_token-is_line,
}
use smartdns_plus_ui.Config.Lines.{option_in}
use smartdns_plus_ui.Config.RoundTrip.Text.{IsPlain}

-- a token that cannot be taken for an option
abbrev pub is_operand : Text → Bool
is_operand [] = false
is_operand (c ∷ s) = not (c == b'-') && is_token (c ∷ s)

abbrev pub IsOperand : Text → Type 0
IsOperand t = is_operand t ≡ true

-- a token that does not continue its line
abbrev pub IsFile : Text → Type 0
IsFile t = (is_operand t ≡ true) × (ends_with_char t b'\\' ≡ false)

pub operand-token : (t : Text) → IsOperand t → is_token t ≡ true
operand-token [] h = cc
operand-token (c ∷ t) h = ground arith

-- Any line that ends in a file name and starts with a letter is plain.
pub line-IsPlain :
    (c : ℕ) (a t : Text)
    → is_whitespace c ≡ false
    → is_line (c ∷ a) ≡ true
    → IsFile t
    → IsPlain (c ∷ (a ++ t))
line-IsPlain c a [] black l h = cc
line-IsPlain c a (d ∷ t) black l h =
    let token = operand-token (d ∷ t) h.0 in
    record {
      line = is_line-append (c ∷ a) (d ∷ t) l (is_token-is_line (d ∷ t) token);
      trimmed = trim-cons c a (d ∷ t) black token;
      trimmed_end = trim_end-token (c ∷ a) (d ∷ t) token;
      no_backslash = ends_with_char-append (c ∷ a) d t b'\\' ∙ h.1;
    }

-- An option is found behind operands that are no options.
pub option_in-skip :
    (t : Text) (ts : List Text) (name : Text)
    → IsOperand t
    → option_in (t ∷ ts) (b'-' ∷ name) ≡ option_in ts (b'-' ∷ name)
unfolding option_in
option_in-skip [] ts name h = cc
option_in-skip (c ∷ t) ts name h = ground arith

pub operand-not-empty : (t : Text) → IsOperand t → is_empty t ≡ false
operand-not-empty [] k = cc
operand-not-empty (c ∷ t) k = refl

pub operand-is_line : (t : Text) → IsOperand t → is_line t ≡ true
operand-is_line t h = is_token-is_line t (operand-token t h)
