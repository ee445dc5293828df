-- ===== src/Checks/Sms.antt =====
-- Verification codes and the rate limit at concrete inputs.
use crew_im.Prelude.{
  bytes_ne, ℕ, ◌+◌, ◌*◌, ◌≡◌, refl, ◌≢◌, true, false, some, List, [], ◌∷◌, arith, ltb, Bytes,
  bytes_eq, All,
}
use crew_im.Sms.{
  second, new_code_store, six_digits, generate, verify, verify_read, check_rate_limit, cleanup,
  count_recent,
}
use crew_im.Sms.Codes.{verify-generate}
use crew_im.Auth.SendCode.{is_phone, send_code}
use crew_im.Auth.SendCode.Runs.{
  run_from, Op, request, check_code, clean, sent_to, Paced, check_code,
}
use crew_im.Auth.SendCode.Cleanups.{seen, uncleaned, seen-uncleaned}
use crew_im.Auth.SendCode.Once.{asks_for, verify-run_from}
use crew_im.Auth.SendCode.Pacing.{sent_to-Paced}

abbrev alice : Bytes
alice = 49 ∷ 51 ∷ 56 ∷ 48 ∷ 48 ∷ 48 ∷ 48 ∷ 48 ∷ 48 ∷ 48 ∷ 49 ∷ []

abbrev bob : Bytes
bob = 49 ∷ 51 ∷ 56 ∷ 48 ∷ 48 ∷ 48 ∷ 48 ∷ 48 ∷ 48 ∷ 48 ∷ 50 ∷ []

alice-ne-bob : alice ≢ bob
unfolding bytes_eq
alice-ne-bob = bytes_ne alice bob refl

verify-generate_example :
    (verify_read (generate new_code_store alice 7 4711) alice (six_digits 4711) 8
      ≡ ltb 8 (7 + 5 * 60 * second + 1))
    × (verify_read (generate new_code_store alice 7 4711) bob [] 8
        ≡ verify_read new_code_store bob [] 8)
verify-generate_example = verify-generate new_code_store alice bob [] 7 8 4711 alice-ne-bob

accepted : (verify (generate new_code_store alice 7 4711) alice (six_digits 4711) 8).1 ≡ true
unfolding verify verify_read generate six_digits bytes_eq
accepted = refl

-- The number of somebody else gets a code, a cleanup runs, and the code is tried again.
abbrev meanwhile : List Op
meanwhile =
    request (record { phone = some bob; checked = 9; generated = 9; roll = 5; sent = true })
    ∷ check_code alice (six_digits 4711) 10
    ∷ clean 11
    ∷ []

none_for_alice : All (λ op. asks_for alice op ≡ false) meanwhile
unfolding bytes_eq
none_for_alice = (refl, (refl, (refl, tt)))

verify-run_from_example :
    (verify
      (run_from true alice
        (record {
          store = (verify (generate new_code_store alice 7 4711) alice (six_digits 4711) 8).0;
          log = [];
        })
        meanwhile).store
      alice
      (six_digits 4711)
      12).1
    ≡ false
verify-run_from_example =
    verify-run_from true (generate new_code_store alice 7 4711) alice (six_digits 4711)
      (six_digits 4711) 8 12 meanwhile accepted none_for_alice

-- A code at once, one too soon, one a minute later, and a cleanup in between.
abbrev ask : ℕ → Op
ask t =
    request (record { phone = some alice; checked = t; generated = t; roll = 4711; sent = true })

abbrev ops : List Op
ops = ask 5 ∷ ask (6 * second) ∷ clean (20 * second) ∷ ask (61 * second) ∷ []

ops_run : sent_to true alice ops ≡ ((61 * second) ∷ 5 ∷ [])
unfolding sent_to send_code generate check_rate_limit cleanup bytes_eq count_recent is_phone
ops_run = refl

sent_to-Paced_example : Paced (sent_to true alice ops)
sent_to-Paced_example = sent_to-Paced true alice ops (omega arith)

-- The same with a login whose code is right, before and after another cleanup.
abbrev sees : List Op
sees =
    ask 5
    ∷ clean (20 * second)
    ∷ check_code alice (six_digits 4711) (30 * second)
    ∷ clean (40 * second)
    ∷ check_code alice (six_digits 4711) (50 * second)
    ∷ []

seen-uncleaned_example : seen true new_code_store sees ≡ seen true new_code_store (uncleaned sees)
seen-uncleaned_example =
    seen-uncleaned true 0 sees
      (omega arith, (omega arith, (omega arith, (omega arith, (omega arith, tt)))))
