-- ===== src/Auth/SendCode/Runs.antt =====
-- The rate limit over a whole run of the server: requests for codes, logins and cleanups, one
-- after the other, on a clock that never goes back.
use crew_im.Prelude.{
  ℕ, ◌+◌, ◌*◌, ◌≤◌, ◌<◌, Bool, true, false, ◌&&◌, none, some, List, [], ◌∷◌, if◌then◌else◌, All,
  Bytes, bytes_eq,
}
use crew_im.Sms.{CodeStore, second, new_code_store, count_recent, verify, cleanup}
use crew_im.Auth.SendCode.{SendRequest, SendReply, send_failed, success, send_code}

pub data Op : Type 0 where
  request : SendRequest → Op
  check_code : Bytes → Bytes → ℕ → Op
  clean : ℕ → Op

-- Whether the handler went as far as `Generate` and `Send`.
unfoldable pub is_granted : SendReply → Bool
is_granted send_failed = true
is_granted (success c) = true
is_granted _ = false

-- The store, and the times at which codes were sent to one number, the latest first.
pub record Run : Type 0 where
  pub store : CodeStore
  pub log : List ℕ

unfoldable pub logged : Bytes → SendRequest → SendReply → List ℕ → List ℕ
unfolding is_granted
logged phone r reply log = elim r.phone [
  | none ↦ log
  | some p ↦ if is_granted reply && bytes_eq p phone then r.generated ∷ log else log
]

unfoldable pub step : Bool → Bytes → Run → Op → Run
unfolding logged
step mock phone run (request r) =
    let (s', reply) = send_code mock run.store r in
    record { store = s'; log = logged phone r reply run.log }
step mock phone run (check_code p code now) = record run { store = (verify run.store p code now).0 }
step mock phone run (clean now) = record run { store = cleanup run.store now }

unfoldable pub run_from : Bool → Bytes → Run → List Op → Run
unfolding step
run_from mock phone run [] = run
run_from mock phone run (op ∷ ops) = run_from mock phone (step mock phone run op) ops

-- The times at which codes were sent to `phone` by a server that has just started.
unfoldable pub sent_to : Bool → Bytes → List Op → List ℕ
unfolding run_from
sent_to mock phone ops = (run_from mock phone (record { store = new_code_store; log = [] }) ops).log

-- The clock after an operation, and that it has not gone back on the way.
abbrev pub end_of : Op → ℕ
end_of (request r) = r.generated
end_of (check_code p code now) = now
end_of (clean now) = now

abbrev pub StartsAfter : ℕ → Op → Type 0
StartsAfter clock (request r) = (clock ≤ r.checked) × (r.checked ≤ r.generated)
StartsAfter clock (check_code p code now) = clock ≤ now
StartsAfter clock (clean now) = clock ≤ now

abbrev pub InOrder : ℕ → List Op → Type 0
InOrder clock [] = Unit
InOrder clock (op ∷ ops) = StartsAfter clock op × InOrder (end_of op) ops

-- Each code went out 60 seconds or more after every earlier one, and fewer than five had gone out
-- in the hour before it.
abbrev pub Paced : List ℕ → Type 0
Paced [] = Unit
Paced (t ∷ earlier) =
    All (λ u. u + 60 * second ≤ t) earlier × (count_recent t earlier < 5) × Paced earlier
