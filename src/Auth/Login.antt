-- ===== src/Auth/Login.antt =====
-- `Login` and `RefreshToken` of server/internal/handler/auth.go. The state is the store of codes and
-- the tables; `verified` is the time that `Verify` reads from the clock.
pub mod Grants
use crew_im.Prelude.{
  ℕ, zero, suc, ◌+◌, ◌-◌, ◌*◌, ◌/◌, ◌%◌, ◌≤◌, ◌<◌, String, ◌≡◌, refl, sym, ap, ◌∙◌, ◌≢◌, ◌↔◌, ◌⊎◌,
  inl, inr, Bool, true, false, ◌&&◌, ◌||◌, not, Option, none, some, List, [], ◌∷◌, ◌++◌, map, arith,
  ltb, leb, ◌==◌, if◌then◌else◌, ltb→lt, lt→ltb, leb→le, ==_iff, Bool-cases, Option-cases, All,
  length, take, last?, keep, length-append, last?-append, length-keep-le, All-append, All-keep,
  All-map, Bytes, bytes_eq, bytes_eq_iff, bytes_eq_refl, eq_of_bytes_eq, bytes_ne, is_empty, join,
  ◌<>◌, decimal, str_eq, str_eq_iff, trim_space, trim_prefix, trim_suffix, Result, ok, err,
}
use crew_im.Sms.{CodeStore, verify}
use crew_im.World.{
  World, Services, Io, User, UserProfile, query_row, insert_row, exec, clock, is_none, ◌>>=◌, pure,
}
use crew_im.World.Table.{find_by, map_option}
use crew_im.Middleware.{Jwt, sign_token}
use crew_im.Auth.SendCode.{is_phone}

pub record AuthHandler : Type 0 where
  pub jwt_secret : String
  pub mock_mode : Bool
  pub jwt : Jwt

pub record LoginRequest : Type 0 where
  pub phone : Bytes
  pub code : Bytes

pub data LoginReply : Type 0 where
  http_error : ℕ → LoginReply
  -- the token and the user: identifier, phone, whether the profile is initialized
  logged_in : String → ℕ → Bytes → Bool → LoginReply

-- "123456"
abbrev pub bypass : Bytes
bypass = b'1' ∷ b'2' ∷ b'3' ∷ b'4' ∷ b'5' ∷ b'6' ∷ []

-- The row of `users` with a phone.
unfoldable pub find_phone : Bytes → List User → Option User
find_phone phone [] = none
find_phone phone (u ∷ us) = if bytes_eq u.phone phone then some u else find_phone phone us

-- `COALESCE(p.initialized, false)`
initialized_of : Option UserProfile → Bool
initialized_of none = false
initialized_of (some p) = p.initialized

-- `SELECT … FROM users u LEFT JOIN user_profiles p … WHERE u.phone = $1`
select_user : Bytes → World → Option (User × Bool)
unfolding initialized_of
select_user phone w =
    map_option
      (λ (u : User).
        (u, initialized_of (find_by (λ (p : UserProfile). p.user_id) u.id w.user_profiles)))
      (find_phone phone w.users)

-- `INSERT INTO users (phone) VALUES ($1) RETURNING id, phone`: `phone` is unique.
unfoldable pub insert_user : Services → Bytes → Io (Option ℕ)
insert_user sv phone w =
    insert_row sv
      (λ id v.
        is_none (find_by (λ (u : User). u.id) id v.users) && is_none (find_phone phone v.users))
      (λ id v. record v {
        users = v.users ++ record { id = id; phone = phone; created_at = sv.now w.tick } ∷ [];
      })
      w

-- `INSERT INTO user_profiles (user_id) VALUES ($1)`, where the user has none yet; its error is dropped.
insert_profile : Services → ℕ → World → World
insert_profile sv id w =
    (exec sv
      (λ v.
        if is_none (find_by (λ (p : UserProfile). p.user_id) id v.user_profiles)
        then record v {
          user_profiles =
              v.user_profiles
              ++ record {
                user_id = id;
                profile = [];
                initialized = false;
                updated_at = sv.now w.tick;
              }
                ∷ [];
        }
        else v)
      w).1

-- From the token on.
reply_with : Option String → ℕ → Bytes → Bool → LoginReply
reply_with none id phone initialized = http_error 500
reply_with (some t) id phone initialized = logged_in t id phone initialized

unfoldable pub grant : Services → AuthHandler → ℕ → Bytes → Bool → Io LoginReply
unfolding reply_with
grant sv h id phone initialized w =
    let (now, w') = clock sv w in
    (reply_with (sign_token h.jwt h.jwt_secret id phone now) id phone initialized, w')

sign_up : Services → AuthHandler → Bytes → Option ℕ → Io LoginReply
unfolding grant insert_profile
sign_up sv h phone none w = (http_error 500, w)
sign_up sv h phone (some id) w = grant sv h id phone false (insert_profile sv id w)

unfoldable pub sign_in : Services → AuthHandler → Bytes → Option (User × Bool) → Io LoginReply
unfolding sign_up grant
sign_in sv h phone (some (u, initialized)) w = grant sv h u.id u.phone initialized w
sign_in sv h phone none w = let (id, w') = insert_user sv phone w in sign_up sv h phone id w'

-- What follows the verification.
unfoldable pub enter : Services → AuthHandler → Bytes → Io LoginReply
unfolding sign_in select_user
enter sv h phone w =
    let (found, w') = query_row sv (select_user phone) w in sign_in sv h phone found w'

-- Whether the code lets the phone in, and what is left of the codes.
unfoldable pub check_code : AuthHandler → CodeStore → LoginRequest → ℕ → CodeStore × Bool
check_code h codes r verified =
    if h.mock_mode && bytes_eq r.code bypass
    then (codes, true)
    else verify codes r.phone r.code verified

unfoldable pub login :
    Services
    → AuthHandler
    → ℕ
    → Option LoginRequest
    → CodeStore
    → World
    → CodeStore × LoginReply × World
login sv h verified none codes w = (codes, http_error 400, w)
login sv h verified (some r) codes w =
    if not (is_phone r.phone) || not (length r.code == 6)
    then (codes, http_error 400, w)
    else (let (codes', good) = check_code h codes r verified in
        if good
        then (let (reply, w') = enter sv h r.phone w in (codes', reply, w'))
        else (codes', http_error 401, w))

refreshed : Services → AuthHandler → Option User → Io (Option String)
refreshed sv h none w = (none, w)
refreshed sv h (some u) w =
    let (now, w') = clock sv w in (sign_token h.jwt h.jwt_secret u.id u.phone now, w')

-- `RefreshToken`: `none` is an error.
unfoldable pub refresh_token : Services → AuthHandler → ℕ → Io (Option String)
unfolding refreshed
refresh_token sv h user w =
    let (found, w') = query_row sv (λ v. find_by (λ (u : User). u.id) user v.users) w in
    refreshed sv h found w'
