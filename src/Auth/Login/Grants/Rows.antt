-- ===== src/Auth/Login/Grants/Rows.antt =====
-- What a login leaves alone: Login of auth.go.
use crew_im.Prelude.{
  ℕ, ◌≡◌, refl, inl, inr, Bool, none, some, arith, Bytes, Option, Bool-cases, ◌∙◌, ◌||◌, not,
  length, ◌==◌,
}
use crew_im.World.{World, Services, User, ticked}
use crew_im.Auth.Login.{
  AuthHandler, grant, login, insert_profile, sign_up, insert_user, enter, sign_in, check_code,
  LoginRequest,
}
use crew_im.Sms.{CodeStore}
use crew_im.Auth.SendCode.{is_phone}

insert_user-tasks :
    (sv : Services) (phone : Bytes) (w : World) → (insert_user sv phone w).1.tasks ≡ w.tasks
unfolding insert_user
insert_user-tasks sv phone w = ground arith

sign_up-tasks :
    (sv : Services) (h : AuthHandler) (phone : Bytes) (id : Option ℕ) (w : World)
    → (sign_up sv h phone id w).1.tasks ≡ w.tasks
unfolding sign_up grant insert_profile
sign_up-tasks sv h phone none w = refl
sign_up-tasks sv h phone (some id) w = ground arith

sign_in-tasks :
    (sv : Services) (h : AuthHandler) (phone : Bytes) (found : Option (User × Bool)) (w : World)
    → (sign_in sv h phone found w).1.tasks ≡ w.tasks
unfolding sign_in grant
sign_in-tasks sv h phone (some (u, b)) w = refl
sign_in-tasks sv h phone none w =
    let (id, v) = insert_user sv phone w in
    sign_up-tasks sv h phone id v ∙ insert_user-tasks sv phone w

-- No login changes a task.
pub login-tasks :
    (sv : Services) (h : AuthHandler) (verified : ℕ) (r : Option LoginRequest) (codes : CodeStore)
    (w : World)
    → (login sv h verified r codes w).2.tasks ≡ w.tasks
unfolding login enter
login-tasks sv h verified none codes w = refl
login-tasks sv h verified (some r) codes w =
    elim (Bool-cases (not (is_phone r.phone) || not (length r.code == 6))) [
      | inl bad ↦ rw bad refl
      | inr fine ↦ elim (Bool-cases (check_code h codes r verified).1) [
        | inl good ↦ rw (fine, good) (sign_in-tasks sv h r.phone _ (ticked w))
        | inr wrong ↦ rw (fine, wrong) refl
      ]
    ]
