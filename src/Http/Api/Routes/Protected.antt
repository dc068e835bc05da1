-- ===== src/Http/Api/Routes/Protected.antt =====
-- Which handlers run without a login (src/http_server_api.rs).
use smartdns_plus_ui.Base.{
  ℕ, Bool, true, ◌||◌, [], ◌∷◌, ◌≡◌, ◌⊎◌, inl, inr, refl, arith, Option, some, all, any, Text,
  codes, text_eq, &&-eq-true, Bool-cases, Option-cases,
}
use smartdns_plus_ui.Http.Token.{JwtLibrary, Jwt}
use smartdns_plus_ui.Http.Api.{
  ApiRouter, MethodMap, route_of, ApiRequest, handled, get_router, server_handle_http_api_request,
}
use smartdns_plus_ui.Http.Api.Guard.{IsLoggedIn, api_handled}
use smartdns_plus_ui.Http.Api.Routes.{RouteTable, new_api, routes_of, at_path}

-- the handlers that ask for no login
abbrev pub is_open : Text → Bool
is_open handler =
    any (text_eq handler)
      (codes "api_auth_login" ∷ codes "api_auth_logout" ∷ codes "api_server_version" ∷ [])

abbrev is_protected : Text × ApiRouter → Bool
is_protected entry = entry.1.auth || is_open entry.1.handler

all_protected : all (λ entry. all is_protected entry.1) new_api ≡ true
unfolding new_api
all_protected = refl

route_of_protected :
    (method : Text) (methods : MethodMap) (router : ApiRouter)
    → all is_protected methods ≡ true
    → route_of method methods ≡ some router
    → router.auth || is_open router.handler ≡ true
unfolding route_of
route_of_protected method [] router h e = cc
route_of_protected method ((m, r) ∷ rest) router h e =
    let (one, others) = &&-eq-true (is_protected (m, r)) (all is_protected rest) h in
    elim (Bool-cases (text_eq m method)) [
      | inl same ↦
          let e' : some r ≡ some router = rw same at e in
          let same_route : r ≡ router = cc in rw (← same_route) one
      | inr other ↦ route_of_protected method rest router others (rw other at e)
    ]

routes_of_protected :
    (pattern_text : Text) (table : RouteTable) (methods : MethodMap)
    → all (λ entry. all is_protected entry.1) table ≡ true
    → routes_of pattern_text table ≡ some methods
    → all is_protected methods ≡ true
unfolding routes_of
routes_of_protected pattern_text [] methods h e = cc
routes_of_protected pattern_text ((p, ms) ∷ table) methods h e =
    let (one, others) =
      &&-eq-true (all is_protected ms) (all (λ entry. all is_protected entry.1) table) h in
    elim (Bool-cases (text_eq p pattern_text)) [
      | inl same ↦
          let e' : some ms ≡ some methods = rw same at e in
          let same_routes : ms ≡ methods = cc in rw (← same_routes) one
      | inr other ↦ routes_of_protected pattern_text table methods others (rw other at e)
    ]

module _ (meets : Text → Option Text) (url_decode : Text → Option Text) (lib : JwtLibrary)
    (jwt : Jwt) (now : ℕ) (req : ApiRequest) where
  get_router_protected :
      (method path : Text) (router : ApiRouter)
      → get_router (at_path meets) method path ≡ some router
      → router.auth || is_open router.handler ≡ true
  unfolding get_router at_path
  get_router_protected method path router e = elim (Option-cases (meets path)) [
    | inl nowhere ↦ absurd (ground arith)
    | inr (pattern_text, p) ↦ elim (Option-cases (routes_of pattern_text new_api)) [
      | inl missing ↦ absurd (ground arith)
      | inr (methods, found) ↦
          route_of_protected method methods router
            (routes_of_protected pattern_text new_api methods all_protected found) (ground arith)
    ]
  ]

  -- Of the routes that the server registers, whatever pattern a path meets, only the handlers of the
  -- login, the logout and the version run without a token that the server's own secret decodes, now,
  -- to the user of the server.
  pub api_protected :
      (answer : Text)
      → server_handle_http_api_request (at_path meets) url_decode lib jwt now req ≡ handled answer
      → (is_open answer ≡ true) ⊎ IsLoggedIn url_decode lib jwt now req.headers
  api_protected answer h =
      let (router, e, same, login) =
        api_handled (at_path meets) url_decode lib jwt now req answer h in
      let safe = get_router_protected req.method req.path router e in
      elim login [
        | inl open_route ↦ inl (rw (← same) (ground arith))
        | inr logged_in ↦ inr logged_in
      ]
