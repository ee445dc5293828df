-- ===== src/Auth/Login/Grants.antt =====
-- What a login grants, and to whom: Login of auth.go.
pub mod Phones
pub mod Rows
use crew_im.Prelude.{
  ℕ, String, ◌≡◌, refl, inl, inr, Bool, none, some, List, [], ◌∷◌, ◌++◌, arith, if◌then◌else◌,
  Option-cases, Bytes, bytes_eq, bytes_eq_iff, ◌&&◌, Option, true, false, ap, Bool-cases, ◌∙◌,
  bytes_eq_refl, ◌||◌, not, length, ◌==◌, ltb, ◌*◌, ◌-◌, ◌+◌, ◌≤◌, ◌/◌,
}
use crew_im.World.{World, Services, User, ticked}
use crew_im.Middleware.{sign_token}
use crew_im.Auth.Login.{
  AuthHandler, LoginReply, http_error, logged_in, find_phone, grant, reply_with, login,
  insert_profile, sign_up, insert_user, enter, select_user, sign_in, check_code, LoginRequest,
  bypass,
}
use crew_im.Middleware.Tokens.{IsJwt, bearer, jwt_auth-sign_token}
use crew_im.Middleware.{jwt_auth, expiry}
use crew_im.Sms.{second, CodeStore, verify, verify_read}
use crew_im.World.{is_none}
use crew_im.World.Table.{find_by}
use crew_im.Auth.SendCode.{is_phone}

-- Whoever is logged in: the row of the phone has the identifier, and the token is signed for it.
pub record Enters (sv : Services) (h : AuthHandler) (phone : Bytes) (token : String) (id : ℕ)
    (w' : World) : Type 0 where
  pub user : User
  pub row : find_phone phone w'.users ≡ some user
  pub named : user.id ≡ id
  pub tick : ℕ
  -- the last request that the login makes is that of the clock
  pub last : tick + 1 ≡ w'.tick
  pub signed : sign_token h.jwt h.jwt_secret id phone (sv.now tick) ≡ some token

find_phone-phone :
    (phone : Bytes) (us : List User) (u : User) → find_phone phone us ≡ some u → u.phone ≡ phone
unfolding find_phone
find_phone-phone phone [] u h = cc
find_phone-phone phone (v ∷ vs) u h =
    ground (arith, bytes_eq_iff v.phone phone, find_phone-phone phone vs u)

find_phone-append :
    (phone : Bytes) (us : List User) (u : User)
    → find_phone phone us ≡ none
    → find_phone phone (us ++ u ∷ []) ≡ (if bytes_eq u.phone phone then some u else none)
unfolding find_phone
find_phone-append phone [] u h = refl
find_phone-append phone (v ∷ vs) u h = ground (arith, find_phone-append phone vs u)

-- What an answer means of the state that it leaves.
Meets : Services → AuthHandler → Bytes → LoginReply → World → Type 0
Meets sv h phone (http_error code) w' = Unit {0}
Meets sv h phone (logged_in token id phone' initialized) w' =
    Enters sv h phone token id w' × (phone' ≡ phone)

grant-Meets :
    (sv : Services) (h : AuthHandler) (u : User) (phone : Bytes) (initialized : Bool) (w : World)
    → find_phone phone w.users ≡ some u
    → Meets sv h phone
        (grant sv h u.id phone initialized w).0
        (grant sv h u.id phone initialized w).1
unfolding grant Meets reply_with
grant-Meets sv h u phone initialized w row =
    elim (Option-cases (sign_token h.jwt h.jwt_secret u.id phone (sv.now w.tick))) [
      | inl e ↦ rw e tt
      | inr (t, e) ↦ rw e (
        record { user = u; row = row; named = refl; tick = w.tick; last = refl; signed = e },
        refl,
      )
    ]

-- An insertion that succeeds has found the phone free.
Inserted : ℕ → Bytes → World → Option ℕ → World → Type 0
Inserted now phone w none w' = w'.users ≡ w.users
Inserted now phone w (some id) w' =
    (find_phone phone w.users ≡ none)
    × (w'.users ≡ w.users ++ record { id = id; phone = phone; created_at = now } ∷ [])

none_of : {A : Type 0} (o : Option A) → is_none o ≡ true → o ≡ none
none_of none h = refl
none_of (some a) h = cc

and_split : (a b c : Bool) → a && (b && c) ≡ true → c ≡ true
and_split true true c h = h
and_split true false c h = cc
and_split false b c h = cc

insert_user-Inserted :
    (sv : Services) (phone : Bytes) (w : World)
    → Inserted (sv.now w.tick) phone w (insert_user sv phone w).0 (insert_user sv phone w).1
unfolding insert_user Inserted
insert_user-Inserted sv phone w =
    let taken = is_none (find_by (λ (u : User). u.id) (sv.new_id w.tick) w.users) in
    let free = is_none (find_phone phone w.users) in
    elim (Bool-cases (sv.db_ok w.tick && (taken && free))) [
      | inl e ↦ rw e (none_of _ (and_split (sv.db_ok w.tick) taken free e), refl)
      | inr e ↦ rw e refl
    ]

insert_profile-users :
    (sv : Services) (id : ℕ) (w : World) → (insert_profile sv id w).users ≡ w.users
unfolding insert_profile
insert_profile-users sv id w = ground arith

sign_up-Meets :
    (sv : Services) (h : AuthHandler) (phone : Bytes) (now : ℕ) (id : Option ℕ) (w v : World)
    → Inserted now phone w id v
    → Meets sv h phone (sign_up sv h phone id v).0 (sign_up sv h phone id v).1
unfolding sign_up Inserted Meets
sign_up-Meets sv h phone now none w v i = tt
sign_up-Meets sv h phone now (some id) w v i =
    let u : User = record { id = id; phone = phone; created_at = now } in
    grant-Meets sv h u phone false (insert_profile sv id v) (
      ap (find_phone phone) (insert_profile-users sv id v ∙ i.1)
      ∙ find_phone-append phone w.users u i.0
      ∙ rw (bytes_eq_refl phone) refl)

sign_in-Meets :
    (sv : Services) (h : AuthHandler) (phone : Bytes) (found : Option (User × Bool)) (w : World)
    → ((u : User) (b : Bool) → found ≡ some (u, b) → find_phone phone w.users ≡ some u)
    → Meets sv h phone (sign_in sv h phone found w).0 (sign_in sv h phone found w).1
unfolding sign_in
sign_in-Meets sv h phone none w k =
    let (id, v) = insert_user sv phone w in
    sign_up-Meets sv h phone (sv.now w.tick) id w v (insert_user-Inserted sv phone w)
sign_in-Meets sv h phone (some (u, b)) w k =
    let row = k u b refl in
    rw (find_phone-phone phone w.users u row) (grant-Meets sv h u phone b w row)

selected :
    (sv : Services) (phone : Bytes) (w : World) (u : User) (b : Bool)
    → (if sv.db_ok w.tick then select_user phone w else none) ≡ some (u, b)
    → find_phone phone w.users ≡ some u
unfolding select_user
selected sv phone w u b h = ground arith

enter-Meets :
    (sv : Services) (h : AuthHandler) (phone : Bytes) (w : World)
    → Meets sv h phone (enter sv h phone w).0 (enter sv h phone w).1
unfolding enter
enter-Meets sv h phone w = sign_in-Meets sv h phone _ (ticked w) (selected sv phone w)

check_code-good :
    (h : AuthHandler) (codes : CodeStore) (r : LoginRequest) (verified : ℕ)
    → (check_code h codes r verified).1 ≡ true
    → (h.mock_mode && bytes_eq r.code bypass || verify_read codes r.phone r.code verified) ≡ true
unfolding check_code verify
check_code-good h codes r verified e = ground arith

-- Where a login succeeds, the phone is one, and its code is one that Verify accepts or, in mock
-- mode alone, the fixed one; the users then have a row of this phone, its
-- identifier is the one in the reply, and the token is signed for it.
pub login_grants :
    (sv : Services) (h : AuthHandler) (verified : ℕ) (r : LoginRequest) (codes : CodeStore)
    (w : World) (token : String) (id : ℕ) (phone : Bytes) (initialized : Bool)
    → (login sv h verified (some r) codes w).1 ≡ logged_in token id phone initialized
    → (is_phone r.phone ≡ true)
      × ((h.mock_mode && bytes_eq r.code bypass || verify_read codes r.phone r.code verified)
          ≡ true)
      × (phone ≡ r.phone)
      × Enters sv h r.phone token id (login sv h verified (some r) codes w).2
unfolding login Meets
login_grants sv h verified r codes w token id phone initialized e =
    elim (Bool-cases (not (is_phone r.phone) || not (length r.code == 6))) [
      | inl bad ↦ let no : http_error 400 ≡ logged_in token id phone initialized = rw bad at e in cc
      | inr fine ↦ elim (Bool-cases (check_code h codes r verified).1) [
        | inl good ↦
            let entered : (enter sv h r.phone w).0 ≡ logged_in token id phone initialized =
              rw (fine, good) at e in
            let meets : Meets sv h r.phone (logged_in token id phone initialized)
                (enter sv h r.phone w).1 =
              rw entered at (enter-Meets sv h r.phone w) in
            rw (fine, good)
              (ground arith, check_code-good h codes r verified good, meets.1, meets.0)
        | inr wrong ↦
            let no : http_error 401 ≡ logged_in token id phone initialized =
              rw (fine, wrong) at e in
            cc
      ]
    ]

insert_user-later :
    (sv : Services) (phone : Bytes) (w : World) → w.tick ≤ (insert_user sv phone w).1.tick
unfolding insert_user
insert_user-later sv phone w = ground arith

sign_up-later :
    (sv : Services) (h : AuthHandler) (phone : Bytes) (id : Option ℕ) (w : World)
    → w.tick ≤ (sign_up sv h phone id w).1.tick
unfolding sign_up grant insert_profile
sign_up-later sv h phone none w = omega arith
sign_up-later sv h phone (some id) w = ground arith

sign_in-later :
    (sv : Services) (h : AuthHandler) (phone : Bytes) (found : Option (User × Bool)) (w : World)
    → w.tick ≤ (sign_in sv h phone found w).1.tick
unfolding sign_in grant
sign_in-later sv h phone (some (u, b)) w = omega arith
sign_in-later sv h phone none w =
    let (id, v) = insert_user sv phone w in
    omega (arith, insert_user-later sv phone w, sign_up-later sv h phone id v)

enter-later :
    (sv : Services) (h : AuthHandler) (phone : Bytes) (w : World)
    → w.tick + 1 ≤ (enter sv h phone w).1.tick
unfolding enter
enter-later sv h phone w = sign_in-later sv h phone _ (ticked w)

login-later :
    (sv : Services) (h : AuthHandler) (verified : ℕ) (r : LoginRequest) (codes : CodeStore)
    (w : World) (token : String) (id : ℕ) (phone : Bytes) (initialized : Bool)
    → (login sv h verified (some r) codes w).1 ≡ logged_in token id phone initialized
    → w.tick ≤ (login sv h verified (some r) codes w).2.tick - 1
unfolding login
login-later sv h verified r codes w token id phone initialized e =
    elim (Bool-cases (not (is_phone r.phone) || not (length r.code == 6))) [
      | inl bad ↦ let no : http_error 400 ≡ logged_in token id phone initialized = rw bad at e in cc
      | inr fine ↦ elim (Bool-cases (check_code h codes r verified).1) [
        | inl good ↦ rw (fine, good) (omega (arith, enter-later sv h r.phone w))
        | inr wrong ↦
            let no : http_error 401 ≡ logged_in token id phone initialized =
              rw (fine, wrong) at e in
            cc
      ]
    ]

-- The token of a login lets its user in: with it as the bearer of a request, JWTAuth finds the user of
-- the login as long as seven days have not passed, the end cut down to a whole second, and nobody from
-- then on. They count from the clock that the login reads as the last thing it does.
pub jwt_auth-login :
    (sv : Services) (h : AuthHandler) (verified : ℕ) (r : LoginRequest) (codes : CodeStore)
    (w : World) (token : String) (id : ℕ) (phone : Bytes) (initialized : Bool) (later : ℕ)
    → IsJwt h.jwt
    → (login sv h verified (some r) codes w).1 ≡ logged_in token id phone initialized
    → let last = (login sv h verified (some r) codes w).2.tick - 1 in
      (w.tick ≤ last)
      × (jwt_auth h.jwt h.jwt_secret later (bearer token) ≡ (
          if ltb later ((sv.now last + 7 * 24 * 3600 * second) / second * second)
          then some id
          else none))
unfolding expiry
jwt_auth-login sv h verified r codes w token id phone initialized later law e =
    let entered = (login_grants sv h verified r codes w token id phone initialized e).3 in
    let last = (login sv h verified (some r) codes w).2.tick - 1 in
    let same : entered.tick ≡ last = omega (arith, entered.last) in
    (
      login-later sv h verified r codes w token id phone initialized e,
      rw (← same) (
          jwt_auth-sign_token h.jwt h.jwt_secret id r.phone (sv.now entered.tick) later token law
            entered.signed),
    )
