-- ===== src/Middleware/Tokens.antt =====
-- What a token is good for: SignToken and JWTAuth of middleware/auth.go.
use crew_im.Prelude.{
  ℕ, ◌+◌, ◌*◌, ◌≤◌, ◌<◌, String, ◌≡◌, refl, ap, ◌∙◌, inl, inr, true, false, none, some, arith,
  Bool-cases, Bytes, is_empty, ◌<>◌, str_eq, str_eq_iff, trim_prefix, if◌then◌else◌, ltb, ltb→lt,
}
use Prim.Native.String.{len}
use text.Mathlib.TextPositions.{len-append, slice-append_right, starts_with-append}
use crew_im.Sms.{second}
use crew_im.Middleware.{Jwt, Claims, expiry, sign_token, jwt_auth, claimed_user}

-- What golang-jwt says of a token that it has signed: with the same secret it is valid, and has the
-- claims that were signed, before the second that `exp` names, and is an error from then on.
pub record IsJwt (jwt : Jwt) : Type 0 where
  pub accepts :
      (secret : String) (c : Claims) (t : String) (now : ℕ)
      → jwt.sign secret c ≡ some t
      → now < c.exp * second
      → jwt.parse secret now t ≡ some (record { valid = true; user_id = some c.user_id })
  pub expires :
      (secret : String) (c : Claims) (t : String) (now : ℕ)
      → jwt.sign secret c ≡ some t
      → c.exp * second ≤ now
      → jwt.parse secret now t ≡ none

trim_prefix-append : (p t : String) → trim_prefix (p <> t) p ≡ t
unfolding trim_prefix
trim_prefix-append p t = rw (starts_with-append p t) (rw (len-append p t) (slice-append_right p t))

bearer-ne : (t : String) → str_eq t ("Bearer " <> t) ≡ false
bearer-ne t = elim (Bool-cases (str_eq t ("Bearer " <> t))) [
  | inl e ↦
      absurd (omega (arith, ap len ((str_eq_iff t ("Bearer " <> t)).0 e), len-append "Bearer " t))
  | inr e ↦ e
]

len-is_empty : (s : String) → is_empty s ≡ true → len s ≡ 0
len-is_empty String.[] h = refl
len-is_empty (String.◌∷◌ c s) h = cc

bearer_not_empty : (t : String) → is_empty ("Bearer " <> t) ≡ false
bearer_not_empty t = elim (Bool-cases (is_empty ("Bearer " <> t))) [
  | inl e ↦ absurd (omega (arith, len-is_empty ("Bearer " <> t) e, len-append "Bearer " t))
  | inr e ↦ e
]

-- The header of a token.
abbrev pub bearer : String → String
bearer t = "Bearer " <> t

jwt_auth-bearer :
    (jwt : Jwt) (secret : String) (now : ℕ) (t : String)
    → jwt_auth jwt secret now (bearer t) ≡ claimed_user (jwt.parse secret now t)
unfolding jwt_auth
jwt_auth-bearer jwt secret now t =
    rw (bearer_not_empty t) (rw (trim_prefix-append "Bearer " t) (rw (bearer-ne t) refl))

-- A token that SignToken has made lets its user in with JWTAuth and the same secret until the second
-- in which seven days have passed, and nobody from then on.
pub jwt_auth-sign_token :
    (jwt : Jwt) (secret : String) (user : ℕ) (phone : Bytes) (now later : ℕ) (t : String)
    → IsJwt jwt
    → sign_token jwt secret user phone now ≡ some t
    → jwt_auth jwt secret later (bearer t)
      ≡ (if ltb later (expiry now * second) then some user else none)
unfolding sign_token claimed_user
jwt_auth-sign_token jwt secret user phone now later t law signed =
    let c : Claims = record { user_id = user; phone = phone; exp = expiry now } in
    jwt_auth-bearer jwt secret later t ∙ elim (Bool-cases (ltb later (expiry now * second))) [
      | inl h ↦ rw (h, law.accepts secret c t later signed (ltb→lt _ _ h)) refl
      | inr h ↦ rw (h, law.expires secret c t later signed (ground arith)) refl
    ]

-- The end of a token's time is within a second of seven days.
pub expiry_lem :
    (now : ℕ)
    → (expiry now * second ≤ now + 7 * 24 * 3600 * second)
      × (now + 7 * 24 * 3600 * second < expiry now * second + second)
unfolding expiry
expiry_lem now = omega arith
