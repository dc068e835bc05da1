-- ===== src/Http/Login/Burst.antt =====
-- Guessing a password: what a burst of logins is answered (src/http_server_api.rs).
use smartdns_plus_ui.Base.{
  ℕ, zero, suc, ◌+◌, ◌-◌, ◌≤◌, ◌<◌, Bool, true, false, not, ◌||◌, ◌&&◌, List, [], ◌∷◌, ◌⊎◌, inl,
  inr, ◌≡◌, refl, ap₂, arith, none, some, leb, ltb, all, take, length, &&-eq-true, Text, text_eq,
}
use smartdns_plus_ui.Http.Login.{
  Attempts, login_attempts_check, LoginResponse, forbidden, unauthorized, LoginRequest,
  api_auth_login, login_run,
}

-- the first `left` logins are answered as wrong, all others as forbidden
abbrev pub refused_after : ℕ → List LoginRequest → List LoginResponse
refused_after left [] = []
refused_after zero (r ∷ rs) = forbidden ∷ refused_after zero rs
refused_after (suc left) (r ∷ rs) = unauthorized ∷ refused_after left rs

-- a body that has a user and a password, right or wrong
abbrev pub is_parsed : LoginRequest → Bool
is_parsed req = elim req.userinfo [ none ↦ false | some (user, pass) ↦ true ]

module _ (verify_password : Text → Text → Bool) (encode_token : Text → ℕ → Text)
    (username password : Text) where
  -- a guess of a user or a password that is wrong
  abbrev pub is_wrong : LoginRequest → Bool
  is_wrong req = elim req.userinfo [
    | none ↦ false
    | some (user, pass) ↦ not (text_eq user username) || not (verify_password pass password)
  ]

  abbrev pub is_within : ℕ → LoginRequest → Bool
  is_within start req = leb start req.time && ltb req.time (start + 60000)

  abbrev login : LoginRequest → Attempts → Attempts × LoginResponse
  login = api_auth_login verify_password encode_token username password

  abbrev run : List LoginRequest → Attempts → List LoginResponse
  run = login_run verify_password encode_token username password

  -- one wrong guess, with fewer than five counted
  login_wrong :
      (start : ℕ) (req : LoginRequest) (attempts : Attempts)
      → is_wrong req ≡ true
      → is_within start req ≡ true
      → (attempts.count ≡ 0) ⊎ (start ≤ attempts.since)
      → attempts.count < 5
      → (start ≤ (login req attempts).0.since)
        × ((login req attempts).0.count ≡ attempts.count + 1)
        × ((login req attempts).1 ≡ unauthorized)
  unfolding api_auth_login login_attempts_check
  login_wrong start req attempts w t s c = ground arith

  -- one login, right or wrong, with five or more counted since a time in the minute
  login_locked :
      (start : ℕ) (req : LoginRequest) (attempts : Attempts)
      → is_parsed req ≡ true
      → is_within start req ≡ true
      → start ≤ attempts.since
      → 5 ≤ attempts.count
      → attempts.count + 1 < 2147483648
      → (start ≤ (login req attempts).0.since)
        × ((login req attempts).0.count ≡ attempts.count + 1)
        × ((login req attempts).1 ≡ forbidden)
  unfolding api_auth_login login_attempts_check
  login_locked start req attempts w t s c b = ground arith

  login_run-refused_after :
      (start left : ℕ) (reqs : List LoginRequest) (attempts : Attempts)
      → all is_wrong (take left reqs) ≡ true
      → all is_parsed reqs ≡ true
      → all (is_within start) reqs ≡ true
      → (attempts.count ≡ 0) ⊎ (start ≤ attempts.since)
      → left ≡ 5 - attempts.count
      → attempts.count + length reqs < 2147483648
      → run reqs attempts ≡ refused_after left reqs
  unfolding login_run
  login_run-refused_after start left [] attempts w p t s e b = refl
  login_run-refused_after start zero (r ∷ rs) attempts w p t s e b =
      let (p1, p2) = &&-eq-true (is_parsed r) (all is_parsed rs) p in
      let (t1, t2) = &&-eq-true (is_within start r) (all (is_within start) rs) t in
      let (since, count, answer) =
        login_locked start r attempts p1 t1 (omega arith) (omega arith) (omega arith) in
      ap₂ (λ (x : LoginResponse) (xs : List LoginResponse). x ∷ xs) answer
        (login_run-refused_after start zero rs (login r attempts).0 refl p2 t2 (inr since)
          (omega arith) (omega arith))
  login_run-refused_after start (suc left) (r ∷ rs) attempts w p t s e b =
      let (w1, w2) = &&-eq-true (is_wrong r) (all is_wrong (take left rs)) w in
      let (p1, p2) = &&-eq-true (is_parsed r) (all is_parsed rs) p in
      let (t1, t2) = &&-eq-true (is_within start r) (all (is_within start) rs) t in
      let (since, count, answer) = login_wrong start r attempts w1 t1 s (omega arith) in
      ap₂ (λ (x : LoginResponse) (xs : List LoginResponse). x ∷ xs) answer
        (login_run-refused_after start left rs (login r attempts).0 w2 p2 t2 (inr since)
          (omega arith) (omega arith))

  -- Logins within one minute, after a reset, each with a user and a password in its body, of which
  -- the first five are wrong: these five are answered as wrong, and every later one is refused, also
  -- one with the right user and password, as long as there are fewer than 2^31 of them.
  pub login_run_wrong :
      (start : ℕ) (reqs : List LoginRequest) (attempts : Attempts)
      → attempts.count ≡ 0
      → all is_wrong (take 5 reqs) ≡ true
      → all is_parsed reqs ≡ true
      → all (is_within start) reqs ≡ true
      → length reqs < 2147483648
      → run reqs attempts ≡ refused_after 5 reqs
  login_run_wrong start reqs attempts e w p t b =
      login_run-refused_after start 5 reqs attempts w p t (inl e) (omega arith) (omega arith)
