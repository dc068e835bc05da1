-- ===== src/Tests/HttpTests.antt =====
-- The paths, logins, tokens and routes of the HTTP server on small inputs.
use smartdns_plus_ui.Base.{
  false, ℕ, ◌≡◌, ◌≢◌, ◌⊎◌, refl, arith, Bool, true, not, ◌&&◌, ◌||◌, List, [], ◌∷◌, ◌++◌, Option,
  none, some, if◌then◌else◌, leb, length, take, drop, take-append_length, drop-append_length,
  is_empty, all, any, is_whitespace, Text, codes, text_eq, text_eq_refl, ends_with_char,
}
use smartdns_plus_ui.Base.Word.{to_string}
use smartdns_plus_ui.Http.Path.{normalize_path, Files, served_file, with_html}
use smartdns_plus_ui.Http.Path.Safe.{IsInside, served_file-IsInside}
use smartdns_plus_ui.Http.Login.{LoginRequest, login_run}
use smartdns_plus_ui.Http.Login.Burst.{login_run_wrong, refused_after, is_wrong}
use smartdns_plus_ui.Http.Token.{
  JwtClaims, JwtLibrary, Jwt, encode_token, is_token_valid, refresh_token,
}
use smartdns_plus_ui.Http.Token.Lifetime.{IsFaithful, token_lifetime}
use smartdns_plus_ui.Http.Api.{
  MethodMap, ApiRequest, handled, method_not_allowed, api_not_found, server_handle_http_api_request,
}
use smartdns_plus_ui.Http.Api.Routes.{at_path}
use smartdns_plus_ui.Http.Api.Routes.Protected.{is_open, api_protected}
use smartdns_plus_ui.Http.Api.Guard.{IsLoggedIn, register_all, is_unregistered, api_never_405}

climbing : (normalize_path (codes "/a/../../b.js")).names ≡ codes "b.js" ∷ []
unfolding normalize_path
climbing = refl

abbrev www_root : List Text
www_root = codes "usr" ∷ codes "www" ∷ []

-- a directory of pages, and a file beside it
abbrev some_files : Files
some_files = record {
  exists = λ names. leb (length names) 3;
  is_dir = λ names. leb (length names) 2 && not (any (λ n. text_eq n (codes "www.html")) names);
}

page_request :
    not (is_empty (normalize_path (codes "/x/../login")).names)
      || ends_with_char (codes "/x/../login") b'/'
    ≡ true
unfolding normalize_path ends_with_char
page_request = refl

served_file-IsInside_example :
    IsInside www_root (served_file some_files www_root (codes "/x/../login")).filepath
served_file-IsInside_example =
    served_file-IsInside some_files www_root (codes "/x/../login") page_request

above : (normalize_path (codes "/x/..")).names ≡ []
unfolding normalize_path
above = refl

-- the root without a slash behind it: the file beside the pages is served
beside : (served_file some_files www_root (codes "/x/..")).filepath ≡ with_html www_root
unfolding served_file
beside = refl

abbrev verify_password : Text → Text → Bool
verify_password pass hash = text_eq pass hash

abbrev token_of : Text → ℕ → Text
token_of user now = user ++ to_string now

abbrev guess : ℕ → LoginRequest
guess time = record { time = time; userinfo = some (codes "admin", codes "guess") }

abbrev guesses : List LoginRequest
guesses =
    guess 100000
    ∷ guess 100010
    ∷ guess 110000
    ∷ guess 120000
    ∷ guess 130000
    ∷ record (guess 159000) { userinfo = some (codes "admin", codes "hash") }
    ∷ guess 159999
    ∷ []

first_guesses_are_wrong :
    all (is_wrong verify_password token_of (codes "admin") (codes "hash")) (take 5 guesses) ≡ true
unfolding text_eq
first_guesses_are_wrong = refl

login_run_wrong_example :
    login_run verify_password token_of
      (codes "admin")
      (codes "hash")
      guesses
      (record { count = 0; since = 7 })
    ≡ refused_after 5 guesses
login_run_wrong_example =
    login_run_wrong verify_password token_of (codes "admin") (codes "hash") 100000 guesses
      (record { count = 0; since = 7 }) refl first_guesses_are_wrong refl refl (omega arith)

-- a library that writes the claims and the secret in a row
abbrev plain_encode : Text → JwtClaims → Text
plain_encode secret claims =
    claims.exp ∷ length claims.user ∷ length claims.ip ∷ claims.user ++ (claims.ip ++ secret)

abbrev plain_decode : Text → ℕ → Text → Option JwtClaims
plain_decode secret now (e ∷ n ∷ k ∷ s) =
    if leb now e && text_eq secret (drop k (drop n s))
    then some (record { user = take n s; ip = take k (drop n s); exp = e })
    else none
plain_decode secret now text = none

abbrev plain : JwtLibrary
plain = record { encode = plain_encode; decode = plain_decode }

plain-IsFaithful : IsFaithful plain
plain-IsFaithful = record {
  decode-encode = λ secret claims now h.
      rw
        (
          drop-append_length claims.user (claims.ip ++ secret),
          drop-append_length claims.ip secret,
          take-append_length claims.user (claims.ip ++ secret),
          take-append_length claims.ip secret,
          text_eq_refl secret,
        )
        (ground arith);
}

abbrev some_jwt : Jwt
some_jwt = record { user = codes "admin"; secret = codes "s3cret"; ip = []; expired_in = 600 }

token_lifetime_example :
    (is_token_valid plain some_jwt 1500 (encode_token plain some_jwt 1000).0 ≡ true)
    × (refresh_token plain some_jwt 1500 (encode_token plain some_jwt 1000).0
        ≡ some (encode_token plain some_jwt 1500))
    × (is_token_valid plain some_jwt 2100 (encode_token plain some_jwt 1500).0 ≡ true)
token_lifetime_example =
    token_lifetime plain some_jwt 1000 1500 2100 plain-IsFaithful (omega arith) (omega arith)
      (omega arith) (omega arith)

abbrev some_routes : List (Text × Bool × Text)
some_routes = (codes "GET", true, codes "list") ∷ (codes "DELETE", true, codes "delete") ∷ []

abbrev at_domain : Text → Option MethodMap
at_domain path =
    if text_eq path (codes "/api/domain") then some (register_all some_routes) else none

abbrev same_text : Text → Option Text
same_text text = some text

abbrev get_request : ApiRequest
get_request = record {
  method = codes "GET";
  path = codes "/api/domain";
  headers = record {
    authorization = some (
        some (
          codes "Bearer "
          ++ plain_encode (codes "s3cret") (record { user = codes "admin"; ip = []; exp = 2000 })));
    cookie = none;
  };
}

api_never_405_example :
    (server_handle_http_api_request at_domain same_text plain some_jwt 1500
        (record get_request { method = codes "PUT" })
      ≢ method_not_allowed)
    × ((is_unregistered (codes "PUT") some_routes ≡ false)
        ⊎ (text_eq (codes "PUT") (codes "OPTIONS") ≡ true)
        ⊎ (server_handle_http_api_request at_domain same_text plain some_jwt 1500
              (record get_request { method = codes "PUT" })
            ≡ api_not_found))
api_never_405_example =
    api_never_405 at_domain same_text plain some_jwt 1500
      (record get_request { method = codes "PUT" }) some_routes (unfold text_eq in refl)

real_get_is_handled :
    server_handle_http_api_request (at_path same_text) same_text plain some_jwt 1500 get_request
    ≡ handled (codes "api_domain_get_list")
unfolding server_handle_http_api_request at_path is_whitespace
real_get_is_handled = refl

api_protected_example :
    (is_open (codes "api_domain_get_list") ≡ true)
    ⊎ IsLoggedIn same_text plain some_jwt 1500 get_request.headers
api_protected_example =
    api_protected same_text same_text plain some_jwt 1500 get_request (codes "api_domain_get_list")
      real_get_is_handled
