-- ===== src/Middleware.antt =====
-- `JWTAuth` and `SignToken` of server/internal/middleware/auth.go. The package golang-jwt is a
-- parameter: how it signs claims and what it makes of a token. Times are nanoseconds, and the claim
-- `exp` is in seconds.
pub mod Tokens
pub mod Cors
use crew_im.Prelude.{
  ℕ, zero, suc, ◌+◌, ◌-◌, ◌*◌, ◌/◌, ◌%◌, ◌≤◌, ◌<◌, String, ◌≡◌, refl, sym, ap, ◌∙◌, ◌≢◌, ◌↔◌, ◌⊎◌,
  inl, inr, Bool, true, false, ◌&&◌, ◌||◌, not, Option, none, some, List, [], ◌∷◌, ◌++◌, map, arith,
  ltb, leb, ◌==◌, if◌then◌else◌, ltb→lt, lt→ltb, leb→le, ==_iff, Bool-cases, Option-cases, All,
  length, take, last?, keep, length-append, last?-append, length-keep-le, All-append, All-keep,
  All-map, Bytes, bytes_eq, bytes_eq_iff, bytes_eq_refl, eq_of_bytes_eq, bytes_ne, is_empty, join,
  ◌<>◌, decimal, str_eq, str_eq_iff, trim_space, trim_prefix, trim_suffix, Result, ok, err,
}
use crew_im.Sms.{second}
use crew_im.Hub.{Token}

-- `jwt.MapClaims` of SignToken
pub record Claims : Type 0 where
  pub user_id : ℕ
  pub phone : Bytes
  pub exp : ℕ

-- `SignedString` with HS256 and a secret, and `jwt.Parse` with a secret at a time: `none` is an error.
pub record Jwt : Type 0 where
  pub sign : String → Claims → Option String
  pub parse : String → ℕ → String → Option Token

-- `time.Now().Add(7 * 24 * time.Hour).Unix()`
unfoldable pub expiry : ℕ → ℕ
expiry now = (now + 7 * 24 * 3600 * second) / second

unfoldable pub sign_token : Jwt → String → ℕ → Bytes → ℕ → Option String
sign_token jwt secret user phone now =
    jwt.sign secret (record { user_id = user; phone = phone; exp = expiry now })

claimed_user : Option Token → Option ℕ
claimed_user none = none
claimed_user (some t) = if t.valid then t.user_id else none

-- `JWTAuth`: the user of a request with that header at that time; `none` is the reply 401.
unfoldable pub jwt_auth : Jwt → String → ℕ → String → Option ℕ
unfolding claimed_user
jwt_auth jwt secret now header =
    if is_empty header
    then none
    else (let token = trim_prefix header "Bearer " in
        if str_eq token header then none else claimed_user (jwt.parse secret now token))
