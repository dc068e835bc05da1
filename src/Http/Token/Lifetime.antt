-- ===== src/Http/Token/Lifetime.antt =====
-- How long a token is good for (src/http_jwt.rs).
use smartdns_plus_ui.Base.Word.{u64_mod}
use smartdns_plus_ui.Base.{ℕ, ◌+◌, ◌%◌, ◌≤◌, ◌<◌, ◌≡◌, refl, arith, true, some, Text, text_eq_refl}
use smartdns_plus_ui.Http.Token.{
  JwtClaims, JwtLibrary, Jwt, encode_token, is_token_valid, refresh_token,
}

-- What the library does with its own tokens: decoded with the secret they were encoded with, up to
-- the time in their claims, they give back the claims.
pub record IsFaithful (lib : JwtLibrary) : Type 0 where
  pub decode-encode :
      (secret : Text) (claims : JwtClaims) (now : ℕ)
      → now ≤ claims.exp
      → lib.decode secret now (lib.encode secret claims) ≡ some claims

is_token_valid_decoded :
    (lib : JwtLibrary) (jwt : Jwt) (now exp : ℕ) (text : Text)
    → lib.decode jwt.secret now text ≡ some (record { user = jwt.user; ip = jwt.ip; exp = exp })
    → is_token_valid lib jwt now text ≡ true
unfolding is_token_valid
is_token_valid_decoded lib jwt now exp text e =
    rw (e, is_token_valid) (rw (text_eq_refl jwt.user, text_eq_refl jwt.ip) refl)

-- A token is valid for the server that made it until it expires, and while it is valid the server
-- replaces it by one that is valid as long from then on.
pub token_lifetime :
    (lib : JwtLibrary) (jwt : Jwt) (now later last : ℕ)
    → IsFaithful lib
    → later ≤ now + jwt.expired_in
    → last ≤ later + jwt.expired_in
    → now + jwt.expired_in < u64_mod
    → later + jwt.expired_in < u64_mod
    → (is_token_valid lib jwt later (encode_token lib jwt now).0 ≡ true)
      × (refresh_token lib jwt later (encode_token lib jwt now).0
          ≡ some (encode_token lib jwt later))
      × (is_token_valid lib jwt last (encode_token lib jwt later).0 ≡ true)
unfolding encode_token refresh_token
token_lifetime lib jwt now later last h a b c d =
    let claims : ℕ → JwtClaims =
      λ t. record { user = jwt.user; ip = jwt.ip; exp = (t + jwt.expired_in) % u64_mod } in
    let old =
      is_token_valid_decoded lib jwt later ((now + jwt.expired_in) % u64_mod) _
        (h.decode-encode jwt.secret (claims now) later (omega arith)) in
    let new =
      is_token_valid_decoded lib jwt last ((later + jwt.expired_in) % u64_mod) _
        (h.decode-encode jwt.secret (claims later) last (omega arith)) in
    (old, rw old refl, new)
