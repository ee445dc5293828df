-- ===== src/Auth/SendCode/Once.antt =====
-- That a code is good for one login: sms.go with the handlers of auth.go, one after the other.
use crew_im.Prelude.{
  refl, Option, inl, inr, ℕ, ◌≡◌, true, false, none, some, List, [], ◌∷◌, All, Bytes, bytes_eq,
  Bool, arith, bytes_eq_refl, Bool-cases, not,
}
use crew_im.Sms.{
  RateLimit, allowed, too_soon, too_many, check_rate_limit, CodeStore, verify, verify_read,
  verify_delete, cleanup, generate,
}
use crew_im.Auth.SendCode.{SendRequest, send_code, send_to, limit_or_deliver, deliver, is_phone}
use crew_im.Auth.SendCode.Runs.{Op, request, check_code, clean, Run, step, run_from}

-- Whether an operation is a request for a code to a number.
abbrev pub asks_for : Bytes → Op → Bool
asks_for phone (request r) = elim r.phone [ none ↦ false | some p ↦ bytes_eq p phone ]
asks_for phone (check_code p code now) = false
asks_for phone (clean now) = false

limit-none :
    (limit : RateLimit) (mock : Bool) (p phone : Bytes) (s : CodeStore) (r : SendRequest)
    → bytes_eq p phone ≡ false
    → s.codes phone ≡ none
    → (limit_or_deliver limit mock s r p).0.codes phone ≡ none
unfolding limit_or_deliver deliver generate
limit-none allowed mock p phone s r other h = ground arith
limit-none too_soon mock p phone s r other h = h
limit-none too_many mock p phone s r other h = h

send_to-none :
    (to : Option Bytes) (mock : Bool) (phone : Bytes) (s : CodeStore) (r : SendRequest)
    → (elim to [ none ↦ false | some p ↦ bytes_eq p phone ]) ≡ false
    → s.codes phone ≡ none
    → (send_to to mock s r).0.codes phone ≡ none
unfolding send_to
send_to-none none mock phone s r other h = h
send_to-none (some p) mock phone s r other h = elim (Bool-cases (not (is_phone p))) [
  | inl e ↦ rw e h
  | inr e ↦ rw e (limit-none (check_rate_limit s p r.checked) mock p phone s r other h)
]

step-none :
    (mock : Bool) (phone : Bytes) (run : Run) (op : Op)
    → asks_for phone op ≡ false
    → run.store.codes phone ≡ none
    → (step mock phone run op).store.codes phone ≡ none
unfolding step send_code verify verify_delete cleanup
step-none mock phone run (request r) other h = send_to-none r.phone mock phone run.store r other h
step-none mock phone run (check_code p code now) other h = ground arith
step-none mock phone run (clean now) other h = rw h refl

run_from-none :
    (mock : Bool) (phone : Bytes) (run : Run) (ops : List Op)
    → All (λ op. asks_for phone op ≡ false) ops
    → run.store.codes phone ≡ none
    → (run_from mock phone run ops).store.codes phone ≡ none
unfolding run_from
run_from-none mock phone run [] other h = h
run_from-none mock phone run (op ∷ ops) other h =
    run_from-none mock phone (step mock phone run op) ops other.1
      (step-none mock phone run op other.0 h)

-- Once `Verify` has returned true for a number, it returns false for it whatever the code and the
-- time, after any requests for codes to other numbers, logins of anybody and cleanups, as long as no
-- code is asked for to this number. The operations run one after the other.
pub verify-run_from :
    (mock : Bool) (s : CodeStore) (phone code again : Bytes) (now later : ℕ) (ops : List Op)
    → (verify s phone code now).1 ≡ true
    → All (λ op. asks_for phone op ≡ false) ops
    → (verify
        (run_from mock phone (record { store = (verify s phone code now).0; log = [] }) ops).store
        phone
        again
        later).1
      ≡ false
unfolding verify verify_read verify_delete
verify-run_from mock s phone code again now later ops h other =
    let run : Run = record { store = (verify s phone code now).0; log = [] } in
    let gone : run.store.codes phone ≡ none = ground (arith, bytes_eq_refl phone) in
    rw (run_from-none mock phone run ops other gone) refl
