-- ===== src/Http/Login.antt =====
-- Logging in: `login_attempts_check` and `login_attempts_reset` (src/http_server.rs), and
-- `api_auth_login` (src/http_server_api.rs). Times are in milliseconds. The count of attempts is an
-- i32: the model keeps its 32 bits, of which the upper half are the negative numbers.
pub mod Burst
use smartdns_plus_ui.Base.{
  ℕ, ◌+◌, ◌-◌, ◌/◌, ◌%◌, Bool, true, false, not, ◌||◌, ◌&&◌, List, [], ◌∷◌, Option, none, some,
  if◌then◌else◌, ◌==◌, ltb, Text, text_eq,
}
use smartdns_plus_ui.Base.Word.{u32_mod}

pub record Attempts : Type 0 where
  pub count : ℕ
  pub since : ℕ

unfoldable pub login_attempts_reset : ℕ → Attempts → Attempts
login_attempts_reset now attempts = record { count = 0; since = now }

-- `duration_since` stops at 0 where the time is not later
unfoldable pub login_attempts_check : ℕ → Attempts → Attempts × Bool
login_attempts_check now attempts =
    let since = if attempts.count == 0 then now else attempts.since in
    let count = (attempts.count + 1) % u32_mod in
    let secs = (now - since) / 1000 in
    if ltb 5 count && ltb count 2147483648
    then (if ltb secs 60
        then (record { count = count; since = if ltb secs 30 then now else since }, false)
        else (record { count = 0; since = now }, true))
    else (record { count = count; since = since }, true)

-- the answers, with the token of a login
pub data LoginResponse : Type 0 where
  bad_request forbidden unauthorized : LoginResponse
  logged_in : Text → LoginResponse

-- A request comes at a time, with the user and the password that were parsed from its body.
pub record LoginRequest : Type 0 where
  pub time : ℕ
  pub userinfo : Option (Text × Text)

-- `conf` has the name of the user and the hash of the password. The check of a password against a
-- hash, and the token of a user, are calls of libraries.
module _ (verify_password : Text → Text → Bool) (encode_token : Text → ℕ → Text)
    (username password : Text) where
  unfoldable pub api_auth_login : LoginRequest → Attempts → Attempts × LoginResponse
  unfolding login_attempts_check login_attempts_reset
  api_auth_login req attempts = elim req.userinfo [
    | none ↦ (attempts, bad_request)
    | some (user, pass) ↦
        let checked = login_attempts_check req.time attempts in
        if not checked.1
        then (checked.0, forbidden)
        else if not (text_eq user username) || not (verify_password pass password)
        then (checked.0, unauthorized)
        else (login_attempts_reset req.time checked.0, logged_in (encode_token user req.time))
  ]

  -- the answers to one request after the other
  unfoldable pub login_run : List LoginRequest → Attempts → List LoginResponse
  unfolding api_auth_login
  login_run [] attempts = []
  login_run (req ∷ reqs) attempts =
      let done = api_auth_login req attempts in done.1 ∷ login_run reqs done.0
