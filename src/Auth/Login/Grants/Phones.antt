-- ===== src/Auth/Login/Grants/Phones.antt =====
-- That a phone has one user, over any logins: auth.go.
use crew_im.Middleware.{sign_token}
use crew_im.Prelude.{
  ℕ, ◌≡◌, refl, ◌∙◌, ◌⊎◌, inl, inr, Bool, false, ◌||◌, not, Option, none, some, List, [], ◌∷◌, ◌++◌,
  arith, ◌==◌, Bool-cases, length, Bytes, bytes_eq_iff, true, String, ap,
}
use crew_im.Auth.SendCode.{is_phone}
use crew_im.Sms.{CodeStore}
use crew_im.World.{UserProfile, World, Services, User, ticked}
use crew_im.Auth.Login.{
  AuthHandler, LoginRequest, find_phone, enter, login, insert_user, insert_profile, sign_in,
  sign_up, grant, check_code, logged_in, reply_with, select_user, initialized_of, find_by,
}
use crew_im.Auth.Login.Grants.{
  Inserted, insert_user-Inserted, insert_profile-users, find_phone-append, find_phone-phone,
}

-- No two rows have the same phone.
unfoldable pub UniquePhones : List User → Type 0
UniquePhones [] = Unit {0}
UniquePhones (u ∷ us) = (find_phone u.phone us ≡ none) × UniquePhones us

-- Rows of other users stay, and a phone gets no second row.
UniquePhones-append :
    (us : List User) (u : User)
    → find_phone u.phone us ≡ none
    → UniquePhones us
    → UniquePhones (us ++ u ∷ [])
unfolding UniquePhones find_phone
UniquePhones-append [] u h k = (refl, tt)
UniquePhones-append (v ∷ vs) u h k = (
  ground (
    arith,
    find_phone-append v.phone vs u k.0,
    bytes_eq_iff u.phone v.phone,
    bytes_eq_iff v.phone u.phone,
  ),
  UniquePhones-append vs u (ground arith) k.1,
)

find_phone-kept :
    (phone : Bytes) (us : List User) (v u : User)
    → find_phone phone us ≡ some u
    → find_phone phone (us ++ v ∷ []) ≡ some u
unfolding find_phone
find_phone-kept phone [] v u h = cc
find_phone-kept phone (x ∷ xs) v u h = ground (arith, find_phone-kept phone xs v u)

-- The users after something: the same, or one more of a phone that none had.
Grown : List User → List User → Type 0
Grown us vs = (vs ≡ us) ⊎ ((u : User) × (find_phone u.phone us ≡ none) × (vs ≡ us ++ u ∷ []))

grant-users :
    (sv : Services) (h : AuthHandler) (id : ℕ) (phone : Bytes) (b : Bool) (w : World)
    → (grant sv h id phone b w).1.users ≡ w.users
unfolding grant
grant-users sv h id phone b w = refl

sign_up-Grown :
    (sv : Services) (h : AuthHandler) (phone : Bytes) (now : ℕ) (id : Option ℕ) (w v : World)
    → Inserted now phone w id v
    → Grown w.users (sign_up sv h phone id v).1.users
unfolding sign_up Inserted Grown
sign_up-Grown sv h phone now none w v i = inl i
sign_up-Grown sv h phone now (some id) w v i = inr (
  record { id = id; phone = phone; created_at = now },
  i.0,
  grant-users sv h id phone false (insert_profile sv id v) ∙ insert_profile-users sv id v ∙ i.1,
)

sign_in-Grown :
    (sv : Services) (h : AuthHandler) (phone : Bytes) (found : Option (User × Bool)) (w : World)
    → Grown w.users (sign_in sv h phone found w).1.users
unfolding sign_in Grown
sign_in-Grown sv h phone none w =
    let (id, v) = insert_user sv phone w in
    sign_up-Grown sv h phone (sv.now w.tick) id w v (insert_user-Inserted sv phone w)
sign_in-Grown sv h phone (some (u, b)) w = inl (grant-users sv h u.id u.phone b w)

login-Grown :
    (sv : Services) (h : AuthHandler) (verified : ℕ) (r : Option LoginRequest) (codes : CodeStore)
    (w : World)
    → Grown w.users (login sv h verified r codes w).2.users
unfolding login enter Grown
login-Grown sv h verified none codes w = inl refl
login-Grown sv h verified (some r) codes w =
    elim (Bool-cases (not (is_phone r.phone) || not (length r.code == 6))) [
      | inl bad ↦ rw bad (inl refl)
      | inr fine ↦ elim (Bool-cases (check_code h codes r verified).1) [
        | inl good ↦ rw (fine, good) (sign_in-Grown sv h r.phone _ (ticked w))
        | inr wrong ↦ rw (fine, wrong) (inl refl)
      ]
    ]

-- Requests to log in, each with the time of its verification.
unfoldable pub log_in_all :
    Services → AuthHandler → List (ℕ × Option LoginRequest) → CodeStore → World → World
log_in_all sv h [] codes w = w
log_in_all sv h ((verified, r) ∷ rs) codes w =
    let (codes', reply, w') = login sv h verified r codes w in log_in_all sv h rs codes' w'

find_phone-Grown :
    (phone : Bytes) (us vs : List User) (u : User)
    → Grown us vs
    → find_phone phone us ≡ some u
    → find_phone phone vs ≡ some u
unfolding Grown
find_phone-Grown phone us vs u (inl e) h = rw e h
find_phone-Grown phone us vs u (inr (v, free, e)) h = rw e (find_phone-kept phone us v u h)

UniquePhones-Grown : (us vs : List User) → Grown us vs → UniquePhones us → UniquePhones vs
unfolding Grown
UniquePhones-Grown us vs (inl e) k = rw e k
UniquePhones-Grown us vs (inr (u, free, e)) k = rw e (UniquePhones-append us u free k)

-- Over any requests to log in, and whichever statements fail: where no two users had the same phone,
-- none have afterwards.
log_in_all-UniquePhones :
    (sv : Services) (h : AuthHandler) (rs : List (ℕ × Option LoginRequest)) (codes : CodeStore)
    (w : World)
    → UniquePhones w.users
    → UniquePhones (log_in_all sv h rs codes w).users
unfolding log_in_all
log_in_all-UniquePhones sv h [] codes w k = k
log_in_all-UniquePhones sv h ((verified, r) ∷ rs) codes w k =
    let (codes', reply, w') = login sv h verified r codes w in
    log_in_all-UniquePhones sv h rs codes' w'
      (UniquePhones-Grown _ _ (login-Grown sv h verified r codes w) k)

log_in_all-find_phone :
    (sv : Services) (h : AuthHandler) (rs : List (ℕ × Option LoginRequest)) (codes : CodeStore)
    (w : World) (phone : Bytes) (u : User)
    → find_phone phone w.users ≡ some u
    → find_phone phone (log_in_all sv h rs codes w).users ≡ some u
unfolding log_in_all
log_in_all-find_phone sv h [] codes w phone u f = f
log_in_all-find_phone sv h ((verified, r) ∷ rs) codes w phone u f =
    let (codes', reply, w') = login sv h verified r codes w in
    log_in_all-find_phone sv h rs codes' w' phone u
      (find_phone-Grown phone _ _ u (login-Grown sv h verified r codes w) f)

grant-signed :
    (sv : Services) (h : AuthHandler) (id : ℕ) (phone : Bytes) (b : Bool) (w : World)
    → ((n : ℕ) → (t : String) × (sign_token h.jwt h.jwt_secret id phone (sv.now n) ≡ some t))
    → (t : String) × ((grant sv h id phone b w).0 ≡ logged_in t id phone b)
unfolding grant reply_with
grant-signed sv h id phone b w sign = let (t, e) = sign w.tick in (t, rw e refl)

select_user-some :
    (phone : Bytes) (u : User) (w : World)
    → find_phone phone w.users ≡ some u
    → (b : Bool) × (select_user phone w ≡ some (u, b))
unfolding select_user
select_user-some phone u w f =
    (initialized_of (find_by (λ (p : UserProfile). p.user_id) u.id w.user_profiles), rw f refl)

enter-known :
    (sv : Services) (h : AuthHandler) (phone : Bytes) (u : User) (w : World)
    → ((n : ℕ) → sv.db_ok n ≡ true)
    → ((n : ℕ) → (t : String) × (sign_token h.jwt h.jwt_secret u.id phone (sv.now n) ≡ some t))
    → find_phone phone w.users ≡ some u
    → (t : String) × (b : Bool) × ((enter sv h phone w).0 ≡ logged_in t u.id phone b)
unfolding enter sign_in
enter-known sv h phone u w up sign f =
    let (b, e) = select_user-some phone u w f in
    let (t, s) = grant-signed sv h u.id phone b (ticked w) sign in
    let same = find_phone-phone phone w.users u f in
    let entered : (sign_in sv h phone (some (u, b)) (ticked w)).0
        ≡ (grant sv h u.id phone b (ticked w)).0 =
      ap (λ (q : Bytes). (grant sv h u.id q b (ticked w)).0) same in
    (t, b, rw (up w.tick, e) (entered ∙ s))

-- Over any requests to log in, right or wrong, whichever of their statements fail: whoever had an
-- account with a phone gets into this account afterwards, by each login with the phone, which is of
-- the form that is asked for, and with a code of six bytes that is accepted, while the database works
-- and tokens can be signed.
pub log_in_all-login :
    (sv now : Services) (h : AuthHandler) (rs : List (ℕ × Option LoginRequest))
    (codes codes' : CodeStore) (w : World) (u : User) (verified : ℕ) (r : LoginRequest)
    → find_phone r.phone w.users ≡ some u
    → is_phone r.phone ≡ true
    → length r.code ≡ 6
    → (check_code h codes' r verified).1 ≡ true
    → ((n : ℕ) → now.db_ok n ≡ true)
    → ((n : ℕ) → (t : String) × (sign_token h.jwt h.jwt_secret u.id r.phone (now.now n) ≡ some t))
    → (t : String) × (b : Bool) × ((login now h verified
          (some r)
          codes'
          (log_in_all sv h rs codes w)).1
        ≡ logged_in t u.id r.phone b)
unfolding login
log_in_all-login sv now h rs codes codes' w u verified r f good six accepted up sign =
    let v = log_in_all sv h rs codes w in
    let there = log_in_all-find_phone sv h rs codes w r.phone u f in
    let (t, b, e) = enter-known now h r.phone u v up sign there in
    (t, b, rw good (let fits : (length r.code == 6) ≡ true = ground arith in rw (fits, accepted) e))
