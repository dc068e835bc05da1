-- ===== src/Http/Api/Guard.antt =====
-- No handler that asks for a login runs without one (src/http_server.rs).
use smartdns_plus_ui.Base.{
  ℕ, List, ◌∷◌, Bool, true, false, [], ◌≡◌, ◌≢◌, ◌⊎◌, inl, inr, refl, arith, Option, none, some,
  not, ◌∙◌, codes, all, Text, text_eq, text_eq_iff, Option-cases, Bool-cases,
}
use smartdns_plus_ui.Http.Token.{
  Headers, TokenResult, auth_token_is_valid, invalid_type, no_token, token, get_token_from_header,
  JwtClaims, JwtLibrary, Jwt, is_token_valid,
}
use smartdns_plus_ui.Http.Api.{
  ApiRouter, MethodMap, register_method, route_of, ApiRequest, method_not_allowed, handled,
  api_not_found, get_router, run_handler, server_handle_http_api_request,
}

-- every route stands under its own method, as `register` puts it
abbrev pub is_keyed : MethodMap → Bool
is_keyed methods = all (λ entry. text_eq entry.0 entry.1.method) methods

TokenResult-cases :
    (r : TokenResult) → ((r ≡ invalid_type) ⊎ (r ≡ no_token)) ⊎ ((t : Text) × (r ≡ token t))
TokenResult-cases invalid_type = inl (inl refl)
TokenResult-cases no_token = inl (inr refl)
TokenResult-cases (token t) = inr (t, refl)

module _ (url_decode : Text → Option Text) (lib : JwtLibrary) (jwt : Jwt) (now : ℕ)
    (headers : Headers) where
  -- the headers have a token that the secret of the server decodes to claims of its user
  pub record IsLoggedIn : Type 0 where
    pub text : Text
    pub claims : JwtClaims
    pub has_token : get_token_from_header url_decode headers ≡ token text
    pub decodes : lib.decode jwt.secret now text ≡ some claims
    pub user : claims.user ≡ jwt.user
    pub ip : claims.ip ≡ jwt.ip

  auth_token_is_valid-IsLoggedIn :
      auth_token_is_valid url_decode lib jwt now headers ≡ some true → IsLoggedIn
  unfolding auth_token_is_valid is_token_valid
  auth_token_is_valid-IsLoggedIn h =
      elim (TokenResult-cases (get_token_from_header url_decode headers)) [
        | inl bad ↦ absurd (ground arith)
        | inr (t, e) ↦ elim (Option-cases (lib.decode jwt.secret now t)) [
          | inl refused ↦ absurd (ground arith)
          | inr (claims, d) ↦ record {
            text = t;
            claims = claims;
            has_token = e;
            decodes = d;
            user = ground (arith, text_eq_iff claims.user jwt.user);
            ip = ground (arith, text_eq_iff claims.ip jwt.ip);
          }
        ]
      ]

register_method-is_keyed :
    (method : Text) (auth : Bool) (handler : Text) (methods : MethodMap)
    → is_keyed methods ≡ true
    → is_keyed (register_method method auth handler methods) ≡ true
unfolding register_method
register_method-is_keyed method auth handler [] h = ground (arith, text_eq_iff method method)
register_method-is_keyed method auth handler ((m, r) ∷ rest) h =
    ground (arith, text_eq_iff method method, register_method-is_keyed method auth handler rest)

-- registering one route after the other for a path
abbrev pub register_all : List (Text × Bool × Text) → MethodMap
register_all [] = []
register_all ((method, auth, handler) ∷ routes) =
    register_method method auth handler (register_all routes)

register_all-is_keyed : (routes : List (Text × Bool × Text)) → is_keyed (register_all routes) ≡ true
register_all-is_keyed [] = refl
register_all-is_keyed ((method, auth, handler) ∷ routes) =
    register_method-is_keyed method auth handler (register_all routes)
      (register_all-is_keyed routes)

route_of_method :
    (method : Text) (methods : MethodMap) (router : ApiRouter)
    → is_keyed methods ≡ true
    → route_of method methods ≡ some router
    → text_eq router.method method ≡ true
unfolding route_of
route_of_method method [] router h e = cc
route_of_method method ((m, r) ∷ rest) router h e =
    let ih = route_of_method method rest router in
    elim (Bool-cases (text_eq m method)) [
      | inl same ↦
          ground (arith, text_eq_iff m method, text_eq_iff m r.method, text_eq_iff r.method method)
      | inr other ↦ ih (ground arith) (rw other at e)
    ]

-- no route has the method
abbrev pub is_unregistered : Text → List (Text × Bool × Text) → Bool
is_unregistered method routes = all (λ r. not (text_eq r.0 method)) routes

route_of-register_method :
    (method wanted : Text) (auth : Bool) (handler : Text) (methods : MethodMap)
    → text_eq method wanted ≡ false
    → route_of wanted (register_method method auth handler methods) ≡ route_of wanted methods
unfolding route_of register_method
route_of-register_method method wanted auth handler [] h = ground arith
route_of-register_method method wanted auth handler ((m, r) ∷ rest) h =
    ground (arith, text_eq_iff m method, route_of-register_method method wanted auth handler rest)

route_of-register_all :
    (wanted : Text) (routes : List (Text × Bool × Text))
    → is_unregistered wanted routes ≡ true
    → route_of wanted (register_all routes) ≡ none
unfolding route_of
route_of-register_all wanted [] h = refl
route_of-register_all wanted ((method, auth, handler) ∷ routes) h =
    route_of-register_method method wanted auth handler (register_all routes) (ground arith)
    ∙ route_of-register_all wanted routes (ground arith)

module _ (at : Text → Option MethodMap) (url_decode : Text → Option Text) (lib : JwtLibrary)
    (jwt : Jwt) (now : ℕ) (req : ApiRequest) where
  -- A handler runs only for a route that is registered for the method and the path, and where the
  -- route asks for a login, only with a token that the server's own secret decodes, now, to the
  -- user of the server.
  pub api_handled :
      (answer : Text)
      → server_handle_http_api_request at url_decode lib jwt now req ≡ handled answer
      → (router : ApiRouter) × (get_router at req.method req.path ≡ some router)
        × (router.handler ≡ answer)
        × ((router.auth ≡ false) ⊎ IsLoggedIn url_decode lib jwt now req.headers)
  unfolding server_handle_http_api_request run_handler
  api_handled answer h = elim (Option-cases (get_router at req.method req.path)) [
    | inl missing ↦ absurd (ground arith)
    | inr (router, e) ↦ elim (Bool-cases router.auth) [
      | inr open_route ↦ (router, e, ground arith, inl open_route)
      | inl asks ↦ elim (Option-cases (auth_token_is_valid url_decode lib jwt now req.headers)) [
        | inl bad ↦ absurd (ground arith)
        | inr (valid, v) ↦ (
          router,
          e,
          ground arith,
          inr (auth_token_is_valid-IsLoggedIn url_decode lib jwt now req.headers (ground arith)),
        )
      ]
    ]
  ]

  never_405 :
      (routes : List (Text × Bool × Text))
      → at req.path ≡ some (register_all routes)
      → server_handle_http_api_request at url_decode lib jwt now req ≢ method_not_allowed
  unfolding server_handle_http_api_request run_handler get_router
  never_405 routes found h = elim (Option-cases (route_of req.method (register_all routes))) [
    | inl missing ↦ ground arith
    | inr (router, e) ↦
        let same =
          route_of_method req.method (register_all routes) router (register_all-is_keyed routes)
            e in
        elim (Bool-cases router.auth) [
          | inr open_route ↦ ground arith
          | inl asks ↦
              elim (Option-cases (auth_token_is_valid url_decode lib jwt now req.headers)) [
                | inl bad ↦ ground arith
                | inr (valid, v) ↦ ground arith
              ]
        ]
  ]

  -- Whatever routes are registered for a path, `Method Not Allowed` is never answered, to any
  -- method: a method that none of the routes has is answered as a path that does not exist, but
  -- for `OPTIONS`.
  pub api_never_405 :
      (routes : List (Text × Bool × Text))
      → at req.path ≡ some (register_all routes)
      → (server_handle_http_api_request at url_decode lib jwt now req ≢ method_not_allowed)
        × ((is_unregistered req.method routes ≡ false)
            ⊎ (text_eq req.method (codes "OPTIONS") ≡ true)
            ⊎ (server_handle_http_api_request at url_decode lib jwt now req ≡ api_not_found))
  unfolding server_handle_http_api_request get_router
  api_never_405 routes found = (
    never_405 routes found,
    elim (Bool-cases (is_unregistered req.method routes)) [
      | inr registered ↦ inl registered
      | inl missing ↦ elim (Bool-cases (text_eq req.method (codes "OPTIONS"))) [
        | inl options ↦ inr (inl options)
        | inr other ↦ inr (inr (ground (arith, route_of-register_all req.method routes missing)))
      ]
    ],
  )
