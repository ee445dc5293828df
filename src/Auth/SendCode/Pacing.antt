-- ===== src/Auth/SendCode/Pacing.antt =====
-- The rate limit of sms.go, behind `SendCode` of handler/auth.go, keeps its promise in every run.
use crew_im.Prelude.{
  last?-nil, ℕ, ◌+◌, ◌*◌, ◌≤◌, ◌<◌, ◌≡◌, refl, ◌∙◌, ◌⊎◌, inl, inr, Bool, true, false, Option, none,
  some, List, [], ◌∷◌, ◌++◌, arith, if◌then◌else◌, Bool-cases, Option-cases, All, last?, keep,
  last?-append, All-append, All-keep, All-map, Bytes, bytes_eq, bytes_eq_iff,
}
use crew_im.Sms.{
  CodeStore, allowed, second, hour, is_recent, timestamps_of, new_code_store, limit_from,
  count_recent, check_rate_limit, generate, verify, verify_delete,
}
use crew_im.Sms.Cleanup.{
  LastIsLatest, count_recent-keep, timestamps_of-cleanup, keep-eq-nil, last?-keep,
}
use crew_im.Auth.SendCode.{SendRequest, send_code}
use crew_im.Auth.SendCode.Runs.{
  Op, Run, request, check_code, clean, step, logged, run_from, sent_to, end_of, StartsAfter,
  InOrder, Paced,
}

abbrev newest? : List ℕ → Option ℕ
newest? [] = none
newest? (t ∷ log) = some t

-- What ties the timestamps that the store holds of a number to all the times of its codes.
record Inv (ts log : List ℕ) (clock : ℕ) : Type 0 where
  counts : (now : ℕ) → clock ≤ now → count_recent now ts ≡ count_recent now log
  newest : (last? ts ≡ newest? log) ⊎ ((ts ≡ []) × All (λ u. u + hour ≤ clock) log)
  latest : LastIsLatest ts
  past : All (λ u. u ≤ clock) log
  paced : Paced log

count_recent-append :
    (now g : ℕ) (ts : List ℕ) → count_recent now (ts ++ g ∷ []) ≡ count_recent now (g ∷ ts)
unfolding count_recent
count_recent-append now g [] = refl
count_recent-append now g (t ∷ ts) = ground (arith, count_recent-append now g ts)

count_recent_antitone : (c g : ℕ) (ts : List ℕ) → c ≤ g → count_recent g ts ≤ count_recent c ts
unfolding count_recent
count_recent_antitone c g [] h = omega arith
count_recent_antitone c g (t ∷ ts) h = ground (arith, count_recent_antitone c g ts)

latest_snoc : (ts : List ℕ) (g : ℕ) → All (λ u. u ≤ g) ts → LastIsLatest (ts ++ g ∷ [])
latest_snoc ts g h t e =
    All-append (λ u. u ≤ t) ts (g ∷ []) (All-map (λ u. u ≤ g) ts (λ u le. omega (arith, same)) h)
      (omega (arith, same), tt)
  where
    same : g ≡ t
    same = cc (last?-append ts g)

Inv-wait : (ts log : List ℕ) (clock later : ℕ) → clock ≤ later → Inv ts log clock → Inv ts log later
Inv-wait ts log clock later le i = record {
  counts = λ now h. i.counts now (omega arith);
  newest = elim i.newest [
    | inl e ↦ inl e
    | inr (e, old) ↦ inr (e, All-map (λ u. u + hour ≤ clock) log (λ u h. omega arith) old)
  ];
  latest = i.latest;
  past = All-map (λ u. u ≤ clock) log (λ u h. omega arith) i.past;
  paced = i.paced;
}

-- All codes of a paced log went out a minute or more before the time at which the limit allows.
long_before :
    (ts log : List ℕ) (clock c : ℕ)
    → Inv ts log clock
    → clock ≤ c
    → limit_from (last? ts) ts c ≡ allowed
    → All (λ u. u + 60 * second ≤ c) log
unfolding limit_from
long_before ts [] clock c i le ok = tt
long_before ts (h ∷ log) clock c i le ok = elim i.newest [
  | inl e ↦ (
    minute_ago e,
    All-map (λ u. u + 60 * second ≤ h) log (λ u k. omega (arith, minute_ago e)) i.paced.0,
  )
  | inr (e, old) ↦ All-map (λ u. u + hour ≤ clock) (h ∷ log) (λ u k. omega arith) old
]
  where
    minute_ago : last? ts ≡ some h → h + 60 * second ≤ c
    minute_ago e = ground arith

few_before :
    (ts log : List ℕ) (clock c : ℕ)
    → Inv ts log clock
    → clock ≤ c
    → limit_from (last? ts) ts c ≡ allowed
    → count_recent c ts < 5
unfolding limit_from count_recent
few_before [] log clock c i le ok = omega arith
few_before (t ∷ ts) log clock c i le ok = elim (Option-cases (last? (t ∷ ts))) [
  | inl e ↦ cc (last?-cons-ne t ts e)
  | inr (l, e) ↦ ground arith
]
  where
    last?-cons-ne : (t : ℕ) (ts : List ℕ) → last? (t ∷ ts) ≡ none → true ≡ false
    last?-cons-ne t [] e = cc
    last?-cons-ne t (x ∷ xs) e = last?-cons-ne x xs e

Inv-stored_past : (ts log : List ℕ) (clock : ℕ) → Inv ts log clock → All (λ u. u ≤ clock) ts
Inv-stored_past ts [] clock i = elim i.newest [
  | inl e ↦ rw (last?-nil ts e) tt
  | inr (e, old) ↦ rw e tt
]
Inv-stored_past ts (h ∷ log) clock i = elim i.newest [
  | inl e ↦ All-map (λ u. u ≤ h) ts (λ u le. omega arith) (i.latest h e)
  | inr (e, old) ↦ rw e tt
]

Inv-send :
    (ts log : List ℕ) (clock c g : ℕ)
    → Inv ts log clock
    → clock ≤ c
    → c ≤ g
    → limit_from (last? ts) ts c ≡ allowed
    → Inv (ts ++ g ∷ []) (g ∷ log) g
unfolding count_recent
Inv-send ts log clock c g i le le' ok = record {
  counts = λ now h. rw (count_recent-append now g ts) (ground (arith, i.counts now));
  newest = inl (last?-append ts g);
  latest =
      latest_snoc ts g
        (All-map (λ u. u ≤ clock) ts (λ u h. omega arith) (Inv-stored_past ts log clock i));
  past = (omega arith, All-map (λ u. u ≤ clock) log (λ u h. omega arith) i.past);
  paced = (
    All-map (λ u. u + 60 * second ≤ c) log (λ u h. omega arith)
        (long_before ts log clock c i le ok),
    omega (
      arith,
      few_before ts log clock c i le ok,
      i.counts c le,
      count_recent_antitone c g log le',
    ),
    i.paced,
  );
}

keep-LastIsLatest :
    (ts : List ℕ) (now : ℕ) → LastIsLatest ts → LastIsLatest (keep (is_recent now) ts)
keep-LastIsLatest ts now h t e = elim (Option-cases (last? ts)) [
  | inl n ↦ rw (last?-nil ts n) tt
  | inr (l, n) ↦ elim (Bool-cases (is_recent now l)) [
    | inl r ↦
        let same : l ≡ t = cc (last?-keep (is_recent now) ts l n r) in
        rw (← same) (All-keep (λ u. u ≤ l) (is_recent now) ts (h l n))
    | inr r ↦ rw (keep-eq-nil ts now l (h l n) r) tt
  ]
]

-- What the cleanup drops is more than an hour old, and so is all that was sent before it.
keep-newest :
    (ts log : List ℕ) (clock now : ℕ)
    → Inv ts log clock
    → clock ≤ now
    → (last? (keep (is_recent now) ts) ≡ newest? log)
      ⊎ ((keep (is_recent now) ts ≡ []) × All (λ u. u + hour ≤ now) log)
keep-newest ts [] clock now i le = elim i.newest [
  | inl e ↦ rw (last?-nil ts e) (inl refl)
  | inr (e, old) ↦ rw e (inl refl)
]
keep-newest ts (h ∷ log) clock now i le = elim i.newest [
  | inr (e, old) ↦
      rw e (inr (refl, All-map (λ u. u + hour ≤ clock) (h ∷ log) (λ u k. omega arith) old))
  | inl e ↦ elim (Bool-cases (is_recent now h)) [
    | inl r ↦ inl (last?-keep (is_recent now) ts h e r)
    | inr r ↦
        let old : h + hour ≤ now = ground arith in
        inr (
          keep-eq-nil ts now h (i.latest h e) r,
          (old, All-map (λ u. u + 60 * second ≤ h) log (λ u k. omega (arith, old)) i.paced.0),
        )
  ]
]

Inv-clean :
    (ts log : List ℕ) (clock now : ℕ)
    → Inv ts log clock
    → clock ≤ now
    → Inv (keep (is_recent now) ts) log now
Inv-clean ts log clock now i le = record {
  counts = λ t h. count_recent-keep ts now t h ∙ i.counts t (omega arith);
  newest = keep-newest ts log clock now i le;
  latest = keep-LastIsLatest ts now i.latest;
  past = All-map (λ u. u ≤ clock) log (λ u h. omega arith) i.past;
  paced = i.paced;
}

abbrev RunInv : Bytes → Run → ℕ → Type 0
RunInv phone run clock = Inv (timestamps_of run.store phone) run.log clock

generate-timestamps :
    (s : CodeStore) (p phone : Bytes) (now roll : ℕ)
    → timestamps_of (generate s p now roll) phone
      ≡ (if bytes_eq p phone then timestamps_of s phone ++ now ∷ [] else timestamps_of s phone)
unfolding generate
generate-timestamps s p phone now roll = ground (arith, bytes_eq_iff p phone)

verify-timestamps :
    (s : CodeStore) (p code phone : Bytes) (now : ℕ)
    → timestamps_of (verify s p code now).0 phone ≡ timestamps_of s phone
unfolding verify verify_delete
verify-timestamps s p code phone now = ground arith

-- A request leaves the timestamps of a number alone, or sends it a code that the limit allows.
request_cases :
    (mock : Bool) (phone p : Bytes) (s : CodeStore) (r : SendRequest) (log : List ℕ)
    → r.phone ≡ some p
    → let (s', reply) = send_code mock s r in
      ((timestamps_of s' phone ≡ timestamps_of s phone) × (logged phone r reply log ≡ log))
      ⊎ ((timestamps_of s' phone ≡ timestamps_of s phone ++ r.generated ∷ [])
          × (logged phone r reply log ≡ (r.generated ∷ log))
          × (limit_from (last? (timestamps_of s phone)) (timestamps_of s phone) r.checked
              ≡ allowed))
unfolding send_code logged check_rate_limit
request_cases mock phone p s r log e =
    ground (arith, bytes_eq_iff p phone, generate-timestamps s p phone r.generated r.roll)

request_ignored :
    (mock : Bool) (phone : Bytes) (s : CodeStore) (r : SendRequest) (log : List ℕ)
    → r.phone ≡ none
    → ((send_code mock s r).0 ≡ s) × (logged phone r (send_code mock s r).1 log ≡ log)
unfolding send_code logged
request_ignored mock phone s r log e = (ground arith, ground arith)

step-RunInv :
    (mock : Bool) (phone : Bytes) (run : Run) (op : Op) (clock : ℕ)
    → RunInv phone run clock
    → StartsAfter clock op
    → RunInv phone (step mock phone run op) (end_of op)
unfolding step
step-RunInv mock phone run (request r) clock i h = elim (Option-cases r.phone) [
  | inl none_given ↦
      let (same, log) = request_ignored mock phone run.store r run.log none_given in
      rw (same, log)
        (Inv-wait (timestamps_of run.store phone) run.log clock r.generated (omega arith) i)
  | inr (p, given) ↦ elim (request_cases mock phone p run.store r run.log given) [
    | inl (same, log) ↦
        rw (same, log)
          (Inv-wait (timestamps_of run.store phone) run.log clock r.generated (omega arith) i)
    | inr (more, log, ok) ↦
        rw (more, log)
          (Inv-send (timestamps_of run.store phone) run.log clock r.checked r.generated i h.0 h.1
            ok)
  ]
]
step-RunInv mock phone run (check_code p code now) clock i h =
    rw (verify-timestamps run.store p code phone now)
      (Inv-wait (timestamps_of run.store phone) run.log clock now h i)
step-RunInv mock phone run (clean now) clock i h =
    rw (timestamps_of-cleanup run.store phone now)
      (Inv-clean (timestamps_of run.store phone) run.log clock now i h)

run_from-Paced :
    (mock : Bool) (phone : Bytes) (run : Run) (ops : List Op) (clock : ℕ)
    → RunInv phone run clock
    → InOrder clock ops
    → Paced (run_from mock phone run ops).log
unfolding run_from
run_from-Paced mock phone run [] clock i h = i.paced
run_from-Paced mock phone run (op ∷ ops) clock i h =
    run_from-Paced mock phone (step mock phone run op) ops (end_of op)
      (step-RunInv mock phone run op clock i h.0) h.1

-- Whatever requests, logins and cleanups a server meets, one after the other on a clock that
-- never goes back: each code for a number goes out at least 60 seconds after every earlier one,
-- and fewer than five went out to it in the hour before.
pub sent_to-Paced :
    (mock : Bool) (phone : Bytes) (ops : List Op) → InOrder 0 ops → Paced (sent_to mock phone ops)
unfolding sent_to count_recent
sent_to-Paced mock phone ops h =
    run_from-Paced mock phone (record { store = new_code_store; log = [] }) ops 0
      (record {
        counts = λ now le. refl;
        newest = inl refl;
        latest = λ t e. tt;
        past = tt;
        paced = tt;
      })
      h
