-- ===== src/Checks/Login.antt =====
-- Logins and their tokens at concrete inputs.
use crew_im.Prelude.{
  ℕ, ◌*◌, ◌≡◌, refl, true, false, ◌&&◌, ◌||◌, none, some, [], ◌∷◌, arith, ltb, ◌==◌, if◌then◌else◌,
  Bytes, bytes_eq, String, ◌-◌, ◌≤◌, Bool, ◌+◌, ◌/◌,
}
use crew_im.Sms.{new_code_store, second, verify_read}
use crew_im.World.{World, User}
use crew_im.World.Table.{find_by}
use crew_im.Middleware.{Jwt, jwt_auth, sign_token, expiry}
use crew_im.Middleware.Tokens.{IsJwt, bearer}
use crew_im.Auth.SendCode.{is_phone}
use crew_im.Auth.Login.{
  AuthHandler, LoginRequest, logged_in, bypass, login, enter, check_code, sign_in, grant,
  find_phone,
}
use crew_im.Auth.Login.Grants.{Enters, login_grants, jwt_auth-login}
use crew_im.Auth.Login.Grants.Phones.{log_in_all, log_in_all-login}
use crew_im.Checks.Data.{services, empty_world}

-- Signs for user 7 at the start of time only.
abbrev jwt : Jwt
jwt = record {
  sign = λ secret c. if c.user_id == 7 && c.exp == 604800 then some "t" else none;
  parse = λ secret now t.
      if ltb now (604800 * second) then some (record { valid = true; user_id = some 7 }) else none;
}

jwt-IsJwt : IsJwt jwt
jwt-IsJwt = record {
  accepts = λ secret c t now h k. ground arith;
  expires = λ secret c t now h k. ground arith;
}

-- "13800000000"
abbrev phone : Bytes
phone = b'1' ∷ b'3' ∷ b'8' ∷ b'0' ∷ b'0' ∷ b'0' ∷ b'0' ∷ b'0' ∷ b'0' ∷ b'0' ∷ b'0' ∷ []

abbrev pub handler : AuthHandler
handler = record { jwt_secret = "s"; mock_mode = true; jwt = jwt }

abbrev request : LoginRequest
request = record { phone = phone; code = bypass }

abbrev known : User
known = record { id = 7; phone = phone; created_at = 0 }

abbrev one_user : World
one_user = record empty_world { users = known ∷ [] }

login_done :
    (login services handler 0 (some request) new_code_store one_user).1
    ≡ logged_in "t" 7 phone false
unfolding login enter check_code sign_in grant sign_token expiry find_phone find_by is_phone
    bytes_eq
login_done = refl

login_grants_example :
    (is_phone phone ≡ true)
    × ((true && bytes_eq bypass bypass || verify_read new_code_store phone bypass 0) ≡ true)
    × (phone ≡ phone)
    × Enters services handler phone "t" 7
        (login services handler 0 (some request) new_code_store one_user).2
login_grants_example =
    login_grants services handler 0 request new_code_store one_user "t" 7 phone false login_done

jwt_auth-login_example :
    let last = (login services handler 0 (some request) new_code_store one_user).2.tick - 1 in
    (one_user.tick ≤ last)
    × (jwt_auth jwt "s" 5 (bearer "t") ≡ (
        if ltb 5 ((services.now last + 7 * 24 * 3600 * second) / second * second)
        then some 7
        else none))
jwt_auth-login_example =
    jwt_auth-login services handler 0 request new_code_store one_user "t" 7 phone false 5 jwt-IsJwt
      login_done

found : find_phone phone one_user.users ≡ some known
unfolding find_phone bytes_eq
found = refl

accepted : (check_code handler new_code_store request 0).1 ≡ true
unfolding check_code bytes_eq
accepted = refl

valid : is_phone phone ≡ true
unfolding is_phone
valid = refl

signs : (n : ℕ) → (t : String) × (sign_token jwt "s" 7 phone (services.now n) ≡ some t)
unfolding sign_token expiry
signs n = ("t", refl)

log_in_all-login_example :
    (t : String) × (b : Bool) × ((login services handler 0
        (some request)
        new_code_store
        (log_in_all services handler ((0, some request) ∷ []) new_code_store one_user)).1
      ≡ logged_in t 7 phone b)
log_in_all-login_example =
    log_in_all-login services services handler ((0, some request) ∷ []) new_code_store
      new_code_store one_user known 0 request found valid refl accepted (λ n. refl) signs
