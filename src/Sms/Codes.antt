-- ===== src/Sms/Codes.antt =====
-- What a verification code is good for: `Generate`, `Verify` and the code's format in sms.go.
use crew_im.Prelude.{
  ℕ, ◌+◌, ◌-◌, ◌*◌, ◌≤◌, ◌<◌, ◌≡◌, ◌≢◌, true, false, [], ◌∷◌, arith, ltb, All, length, Bytes,
  bytes_eq_iff, bytes_eq_refl,
}
use crew_im.Sms.{
  CodeStore, second, six_digits, generate, verify, verify_read, verify_delete, cleanup,
}

abbrev pub IsDigit : ℕ → Type 0
IsDigit c = (48 ≤ c) × (c ≤ 57)

-- The number that six digits stand for.
pub value_of : Bytes → ℕ → ℕ
value_of [] acc = acc
value_of (c ∷ cs) acc = value_of cs (acc * 10 + (c - 48))

-- For every number below a million the code has six bytes, each a decimal digit, and read as a
-- decimal number it gives the number back: no two numbers share a code.
pub six_digits-exact :
    (n : ℕ)
    → n < 1000000
    → (length (six_digits n) ≡ 6) × All IsDigit (six_digits n) × (value_of (six_digits n) 0 ≡ n)
unfolding six_digits value_of
six_digits-exact n h = (omega arith, omega arith, omega arith)

-- A code that was sent is accepted within the five minutes after, the last nanosecond included,
-- and refused later; what is accepted for another number is what was accepted before.
pub verify-generate :
    (s : CodeStore) (phone other code : Bytes) (sent now roll : ℕ)
    → phone ≢ other
    → (verify_read (generate s phone sent roll) phone (six_digits roll) now
        ≡ ltb now (sent + 5 * 60 * second + 1))
      × (verify_read (generate s phone sent roll) other code now ≡ verify_read s other code now)
unfolding verify_read generate
verify-generate s phone other code sent now roll h = (
  ground (arith, bytes_eq_refl phone, bytes_eq_refl (six_digits roll)),
  ground (arith, bytes_eq_iff phone other),
)

-- A new code replaces the old one: any other code is refused from then on.
pub generate-replaces :
    (s : CodeStore) (phone code : Bytes) (sent now roll : ℕ)
    → six_digits roll ≢ code
    → verify_read (generate s phone sent roll) phone code now ≡ false
unfolding verify_read generate
generate-replaces s phone code sent now roll h =
    ground (arith, bytes_eq_refl phone, bytes_eq_iff (six_digits roll) code)

-- Once `Verify` has returned true for a number, the next call for the number returns false whatever
-- the code and the time.
pub verify_once :
    (s : CodeStore) (phone code again : Bytes) (now later : ℕ)
    → (verify s phone code now).1 ≡ true
    → (verify (verify s phone code now).0 phone again later).1 ≡ false
unfolding verify verify_read verify_delete
verify_once s phone code again now later h = ground (arith, bytes_eq_refl phone)

-- The cleanup cannot be told by `Verify`: at any time from the cleanup on, every code is accepted
-- or refused for every number as it would have been without it.
pub verify-cleanup :
    (s : CodeStore) (phone code : Bytes) (cleaned now : ℕ)
    → cleaned ≤ now
    → verify_read (cleanup s cleaned) phone code now ≡ verify_read s phone code now
unfolding verify_read cleanup
verify-cleanup s phone code cleaned now h = ground arith
