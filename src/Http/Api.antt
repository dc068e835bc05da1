-- ===== src/Http/Api.antt =====
-- The dispatch of the requests to the API: `register` and `get_router` (src/http_server_api.rs), and
-- `server_handle_http_api_request` (src/http_server.rs).
pub mod Guard
pub mod Routes
use smartdns_plus_ui.Base.{
  ℕ, Bool, true, false, not, ◌&&◌, List, [], ◌∷◌, Option, none, some, if◌then◌else◌, Text, codes,
  text_eq,
}
use smartdns_plus_ui.Http.Token.{Headers, JwtLibrary, Jwt, auth_token_is_valid}

-- a route, with its handler given by its name
pub record ApiRouter : Type 0 where
  pub method : Text
  pub auth : Bool
  pub handler : Text

-- the routes of a path, by their methods
abbrev pub MethodMap : Type 0
MethodMap = List (Text × ApiRouter)

unfoldable pub register_method : Text → Bool → Text → MethodMap → MethodMap
unfolding text_eq
register_method method auth handler [] =
    (method, record { method = method; auth = auth; handler = handler }) ∷ []
register_method method auth handler ((m, r) ∷ rest) =
    let more = register_method method auth handler rest in
    if text_eq m method
    then (method, record { method = method; auth = auth; handler = handler }) ∷ rest
    else (m, r) ∷ more

unfoldable pub route_of : Text → MethodMap → Option ApiRouter
unfolding text_eq
route_of method [] = none
route_of method ((m, r) ∷ rest) =
    let more = route_of method rest in if text_eq m method then some r else more

pub record ApiRequest : Type 0 where
  pub method : Text
  pub path : Text
  pub headers : Headers

-- what is answered: the errors with their status, or the answer of a handler
pub data ApiResponse : Type 0 where
  preflight bad_request unauthorized method_not_allowed api_not_found : ApiResponse
  handled : Text → ApiResponse

-- the part behind the check of the token
unfoldable pub run_handler : ApiRouter → ApiRequest → ApiResponse
unfolding text_eq
run_handler router req =
    if not (text_eq router.method req.method) then method_not_allowed else handled router.handler

-- `at` is the router of the library: the routes registered for the pattern that a path meets.
module _ (at : Text → Option MethodMap) where
  unfoldable pub get_router : Text → Text → Option ApiRouter
  unfolding route_of
  get_router method path = elim (at path) [ none ↦ none | some methods ↦ route_of method methods ]

module _ (at : Text → Option MethodMap) (url_decode : Text → Option Text) (lib : JwtLibrary) where
  unfoldable pub server_handle_http_api_request : Jwt → ℕ → ApiRequest → ApiResponse
  unfolding get_router auth_token_is_valid run_handler text_eq
  server_handle_http_api_request jwt now req =
      if text_eq req.method (codes "OPTIONS")
      then preflight
      else elim (get_router at req.method req.path) [
        | none ↦ api_not_found
        | some router ↦
            if router.auth
            then elim (auth_token_is_valid url_decode lib jwt now req.headers) [
              | none ↦ bad_request
              | some valid ↦ if valid then run_handler router req else unauthorized
            ]
            else run_handler router req
      ]
