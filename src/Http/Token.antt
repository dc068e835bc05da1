-- ===== src/Http/Token.antt =====
-- The token of a request, and whether it is valid: `get_token_from_header` and
-- `auth_token_is_valid` (src/http_server.rs), and `Jwt` (src/http_jwt.rs).
pub mod Lifetime
use smartdns_plus_ui.Base.{
  ℕ, ◌+◌, ◌%◌, Bool, true, false, not, ◌||◌, List, [], ◌∷◌, ◌++◌, Option, none, some, if◌then◌else◌,
  find, Text, codes, text_eq, trim, drop_while, drop_end, starts_with, strip_prefix, split_from,
}
use smartdns_plus_ui.Base.Word.{u64_mod, to_string}

-- The two headers that are read; a value that is no text of visible characters is `some none`.
pub record Headers : Type 0 where
  pub authorization : Option (Option Text)
  pub cookie : Option (Option Text)

-- the result of `get_token_from_header`, with `Err`, `Ok(None)` and `Ok(Some(…))`
pub data TokenResult : Type 0 where
  invalid_type no_token : TokenResult
  token : Text → TokenResult

-- the token behind the type
unfoldable pub strip_bearer : Text → TokenResult
unfolding strip_prefix drop_while drop_end
strip_bearer text = elim (strip_prefix text (codes "Bearer")) [
  | none ↦ invalid_type
  | some rest ↦ token (trim rest)
]

unfoldable pub is_token_cookie : Text → Bool
unfolding starts_with drop_while drop_end
is_token_cookie c = starts_with (trim c) (codes "token=")

-- the value of the first cookie that is called `token`
unfoldable pub token_cookie : Text → Option Text
unfolding is_token_cookie strip_prefix split_from
token_cookie cookies = elim (find is_token_cookie (split_from [] b';' cookies)) [
  | none ↦ none
  | some c ↦ strip_prefix (trim c) (codes "token=")
]

-- `urlencoding::decode`, `none` on an error
module _ (url_decode : Text → Option Text) where
  unfoldable pub get_token_from_header : Headers → TokenResult
  unfolding strip_bearer token_cookie
  get_token_from_header headers = elim headers.authorization [
    | some none ↦ no_token
    | some (some auth) ↦ strip_bearer auth
    | none ↦ elim headers.cookie [
      | none ↦ no_token
      | some none ↦ no_token
      | some (some cookies) ↦ elim (token_cookie cookies) [
        | none ↦ no_token
        | some value ↦ elim (url_decode value) [ none ↦ no_token | some t ↦ strip_bearer t ]
      ]
    ]
  ]

pub record JwtClaims : Type 0 where
  pub user : Text
  pub ip : Text
  pub exp : ℕ

-- `encode` and `decode` of the library, with a secret; `decode` is `none` on an error, such as
-- another secret or a time behind `exp`
pub record JwtLibrary : Type 0 where
  pub encode : Text → JwtClaims → Text
  pub decode : Text → ℕ → Text → Option JwtClaims

pub record Jwt : Type 0 where
  pub user : Text
  pub secret : Text
  pub ip : Text
  pub expired_in : ℕ

module _ (lib : JwtLibrary) where
  unfoldable pub encode_token : Jwt → ℕ → Text × Text
  unfolding to_string
  encode_token jwt now = (
    lib.encode jwt.secret
        (record { user = jwt.user; ip = jwt.ip; exp = (now + jwt.expired_in) % u64_mod }),
    to_string jwt.expired_in,
  )

  unfoldable pub is_token_valid : Jwt → ℕ → Text → Bool
  unfolding text_eq
  is_token_valid jwt now text = elim (lib.decode jwt.secret now text) [
    | none ↦ false
    | some claims ↦ not (not (text_eq claims.user jwt.user) || not (text_eq claims.ip jwt.ip))
  ]

  unfoldable pub refresh_token : Jwt → ℕ → Text → Option (Text × Text)
  unfolding is_token_valid encode_token
  refresh_token jwt now text =
      if is_token_valid jwt now text then some (encode_token jwt now) else none

module _ (url_decode : Text → Option Text) (lib : JwtLibrary) where
  -- `auth_token_is_valid`: `none` is its `Err`
  unfoldable pub auth_token_is_valid : Jwt → ℕ → Headers → Option Bool
  unfolding get_token_from_header is_token_valid
  auth_token_is_valid jwt now headers = elim (get_token_from_header url_decode headers) [
    | invalid_type ↦ none
    | no_token ↦ some false
    | token t ↦ some (is_token_valid lib jwt now t)
  ]
