-- ===== src/Sms.antt =====
-- The verification codes of server/internal/sms/sms.go: `CodeStore`, its rate limit and its
-- cleanup. A `time.Time` is the number of nanoseconds since an epoch; `rand.Intn(1000000)` and
-- `time.Now()` enter as arguments. A Go map is a function from its keys, and the zero value of a
-- missing key is written out. `Sender` is an interface whose `Send` may fail.
pub mod Codes
pub mod Cleanup
use crew_im.Prelude.{
  ℕ, ◌+◌, ◌*◌, ◌/◌, ◌%◌, Bool, true, false, ◌||◌, Option, none, some, List, [], ◌∷◌, ◌++◌, Bytes,
  bytes_eq, ltb, leb, length, last?, keep, if◌then◌else◌, not,
}

-- `time.Second`
abbrev pub second : ℕ
second = 1_000_000_000

-- `time.Hour`
abbrev pub hour : ℕ
hour = 3600 * second

pub record CodeEntry : Type 0 where
  pub code : Bytes
  pub expires_at : ℕ

pub record CodeStore : Type 0 where
  pub codes : Bytes → Option CodeEntry
  pub sends : Bytes → Option (List ℕ)

-- A write of one key of a map.
abbrev pub put {ℓ} : {V : Type ℓ} → (Bytes → V) → Bytes → V → Bytes → V
put m k v j = if bytes_eq k j then v else m j

-- `NewCodeStore`, less the goroutine that it starts.
abbrev pub new_code_store : CodeStore
new_code_store = record { codes = λ _. none; sends = λ _. none }

-- The messages of `CheckRateLimit`: `allowed` is the empty one.
pub data RateLimit : Type 0 where
  allowed too_soon too_many : RateLimit

-- `s.sends[phone]`: nil where the key is missing.
abbrev pub timestamps_of : CodeStore → Bytes → List ℕ
timestamps_of s phone = elim (s.sends phone) [ none ↦ [] | some ts ↦ ts ]

-- `t.After(hourAgo)` with `hourAgo := now.Add(-time.Hour)`
abbrev pub is_recent : ℕ → ℕ → Bool
is_recent now t = ltb now (t + hour)

-- The counting loop.
unfoldable pub count_recent : ℕ → List ℕ → ℕ
count_recent now [] = 0
count_recent now (t ∷ ts) = (if is_recent now t then 1 else 0) + count_recent now ts

-- `now.Sub(last) < 60*time.Second` is `now < last + 60s`, also where `last` is after `now`.
unfoldable pub limit_from : Option ℕ → List ℕ → ℕ → RateLimit
limit_from none ts now = allowed
limit_from (some last) ts now =
    if ltb now (last + 60 * second)
    then too_soon
    else if leb 5 (count_recent now ts)
    then too_many
    else allowed

unfoldable pub check_rate_limit : CodeStore → Bytes → ℕ → RateLimit
unfolding limit_from
check_rate_limit s phone now =
    limit_from (last? (timestamps_of s phone)) (timestamps_of s phone) now

-- `fmt.Sprintf("%06d", n)` for the numbers below a million.
unfoldable pub six_digits : ℕ → Bytes
six_digits n =
    (48 + n / 100000 % 10)
    ∷ (48 + n / 10000 % 10)
    ∷ (48 + n / 1000 % 10)
    ∷ (48 + n / 100 % 10)
    ∷ (48 + n / 10 % 10)
    ∷ (48 + n % 10)
    ∷ []

-- `roll` is what `rand.Intn(1000000)` returned.
unfoldable pub generate : CodeStore → Bytes → ℕ → ℕ → CodeStore
unfolding six_digits
generate s phone now roll = record {
  codes =
      put s.codes phone
        (some (record { code = six_digits roll; expires_at = now + 5 * 60 * second }));
  sends = put s.sends phone (some (timestamps_of s phone ++ now ∷ []));
}

-- `now` is the time at which the entry that was read is tested.
is_valid : Option CodeEntry → Bytes → ℕ → Bool
is_valid none code now = false
is_valid (some entry) code now =
    if ltb entry.expires_at now then false else bytes_eq entry.code code

-- The first half of `Verify`, under the read lock: the entry is read and compared.
unfoldable pub verify_read : CodeStore → Bytes → Bytes → ℕ → Bool
unfolding is_valid
verify_read s phone code now = is_valid (s.codes phone) code now

-- The second half, under the write lock.
unfoldable pub verify_delete : CodeStore → Bytes → CodeStore
verify_delete s phone = record s { codes = put s.codes phone none }

-- `Verify` with nothing between its two halves: two logins at the same time are not modelled.
unfoldable pub verify : CodeStore → Bytes → Bytes → ℕ → CodeStore × Bool
unfolding verify_read verify_delete
verify s phone code now =
    if verify_read s phone code now then (verify_delete s phone, true) else (s, false)

-- One round of the loops of `cleanup`, at each key.
live_entry : ℕ → Option CodeEntry → Option CodeEntry
live_entry now none = none
live_entry now (some entry) = if ltb entry.expires_at now then none else some entry

some_unless_nil : List ℕ → Option (List ℕ)
some_unless_nil [] = none
some_unless_nil (t ∷ ts) = some (t ∷ ts)

kept_sends : ℕ → Option (List ℕ) → Option (List ℕ)
unfolding some_unless_nil
kept_sends now none = none
kept_sends now (some ts) = some_unless_nil (keep (is_recent now) ts)

-- One tick of `cleanup`.
unfoldable pub cleanup : CodeStore → ℕ → CodeStore
unfolding live_entry kept_sends
cleanup s now = record {
  codes = λ phone. live_entry now (s.codes phone);
  sends = λ phone. kept_sends now (s.sends phone);
}
