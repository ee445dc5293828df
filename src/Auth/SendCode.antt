-- ===== src/Auth/SendCode.antt =====
-- `SendCode` of server/internal/handler/auth.go. `none` is a body that is no JSON; `checked` and
-- `generated` are the times that `CheckRateLimit` and `Generate` read from the clock, `roll` the
-- number that `rand.Intn` gave, `sent` whether the `sms.Sender` of the handler succeeded.
pub mod Runs
pub mod Pacing
pub mod Once
pub mod Alike
pub mod Cleanups
use crew_im.Prelude.{
  ℕ, zero, suc, ◌+◌, ◌-◌, ◌*◌, ◌/◌, ◌%◌, ◌≤◌, ◌<◌, String, ◌≡◌, refl, sym, ap, ◌∙◌, ◌≢◌, ◌↔◌, ◌⊎◌,
  inl, inr, Bool, true, false, ◌&&◌, ◌||◌, not, Option, none, some, List, [], ◌∷◌, ◌++◌, map, arith,
  ltb, leb, ◌==◌, if◌then◌else◌, ltb→lt, lt→ltb, leb→le, ==_iff, Bool-cases, Option-cases, All,
  length, take, last?, keep, length-append, last?-append, length-keep-le, All-append, All-keep,
  All-map, Bytes, bytes_eq, bytes_eq_iff, bytes_eq_refl, eq_of_bytes_eq,
}
use crew_im.Sms.{
  CodeStore, RateLimit, allowed, too_soon, too_many, six_digits, check_rate_limit, generate,
}

abbrev is_digit : ℕ → Bool
is_digit c = leb b'0' c && leb c b'9'

abbrev are_digits : Bytes → Bool
are_digits [] = true
are_digits (c ∷ cs) = is_digit c && are_digits cs

-- `phoneRegex`: `^1[3-9]\d{9}$`
unfoldable pub is_phone : Bytes → Bool
is_phone (a ∷ b ∷ rest) =
    a == b'1' && (leb b'3' b && leb b b'9') && (length rest == 9 && are_digits rest)
is_phone _ = false

pub data SendReply : Type 0 where
  invalid_body : SendReply
  invalid_phone : SendReply
  rate_limited : RateLimit → SendReply
  send_failed : SendReply
  -- the code is part of the reply in mock mode alone
  success : Option Bytes → SendReply

pub record SendRequest : Type 0 where
  pub phone : Option Bytes
  pub checked : ℕ
  pub generated : ℕ
  pub roll : ℕ
  pub sent : Bool

-- The handler from `Generate` on.
deliver : Bool → CodeStore → SendRequest → Bytes → CodeStore × SendReply
deliver mock_mode s r phone = (
  generate s phone r.generated r.roll,
  if r.sent then success (if mock_mode then some (six_digits r.roll) else none) else send_failed,
)

limit_or_deliver : RateLimit → Bool → CodeStore → SendRequest → Bytes → CodeStore × SendReply
unfolding deliver
limit_or_deliver allowed mock_mode s r phone = deliver mock_mode s r phone
limit_or_deliver limit mock_mode s r phone = (s, rate_limited limit)

send_to : Option Bytes → Bool → CodeStore → SendRequest → CodeStore × SendReply
unfolding limit_or_deliver
send_to none mock_mode s r = (s, invalid_body)
send_to (some phone) mock_mode s r =
    if not (is_phone phone)
    then (s, invalid_phone)
    else limit_or_deliver (check_rate_limit s phone r.checked) mock_mode s r phone

unfoldable pub send_code : Bool → CodeStore → SendRequest → CodeStore × SendReply
unfolding send_to
send_code mock_mode s r = send_to r.phone mock_mode s r
