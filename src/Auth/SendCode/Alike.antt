-- ===== src/Auth/SendCode/Alike.antt =====
-- Stores of codes that answer alike, one cleaned up and one not: sms.go.
use crew_im.Prelude.{
  last?-nil, ℕ, ◌≤◌, ◌≡◌, refl, ap, ◌∙◌, inl, inr, Bool, true, Option, none, some, List, [], ◌∷◌,
  ◌++◌, arith, if◌then◌else◌, Bool-cases, Option-cases, All, last?, keep, last?-append, All-append,
  All-map, Bytes, bytes_eq,
}
use crew_im.Sms.{
  CodeStore, RateLimit, timestamps_of, is_recent, limit_from, check_rate_limit, generate, verify,
  verify_read, verify_delete, cleanup, allowed, too_soon, too_many,
}
use crew_im.Sms.Codes.{verify-cleanup}
use crew_im.Sms.Cleanup.{timestamps_of-cleanup, limit_from-keep, LastIsLatest}
use crew_im.Auth.SendCode.{SendRequest, send_code, is_phone, limit_or_deliver, deliver, send_to}
use crew_im.Auth.SendCode.Runs.{request, StartsAfter}

-- The timestamps of a number with and without the cleanups up to a time.
pub record KeptUntil (clock : ℕ) (ts all : List ℕ) : Type 0 where
  pub cleaned : ℕ
  pub before : cleaned ≤ clock
  pub kept : ts ≡ keep (is_recent cleaned) all
  pub past : All (λ u. u ≤ clock) all
  pub latest : LastIsLatest all

-- Two stores that answer alike from a time on.
pub record Alike (clock : ℕ) (s t : CodeStore) : Type 0 where
  pub codes :
      (phone code : Bytes) (now : ℕ)
      → clock ≤ now
      → verify_read s phone code now ≡ verify_read t phone code now
  pub sends : (phone : Bytes) → KeptUntil clock (timestamps_of s phone) (timestamps_of t phone)

keep_twice :
    (c d : ℕ) (ts : List ℕ)
    → c ≤ d
    → keep (is_recent d) (keep (is_recent c) ts) ≡ keep (is_recent d) ts
keep_twice c d [] h = refl
keep_twice c d (t ∷ ts) h = ground (arith, keep_twice c d ts h)

keep-snoc :
    (p : ℕ → Bool) (ts : List ℕ) (t : ℕ) → p t ≡ true → keep p (ts ++ t ∷ []) ≡ keep p ts ++ t ∷ []
keep-snoc p [] t h = ground arith
keep-snoc p (u ∷ ts) t h = ground (arith, keep-snoc p ts t h)

KeptUntil-clean :
    (clock now : ℕ) (ts all : List ℕ)
    → clock ≤ now
    → KeptUntil clock ts all
    → KeptUntil now (keep (is_recent now) ts) all
KeptUntil-clean clock now ts all h k = record {
  cleaned = now;
  before = omega arith;
  kept = rw k.kept (keep_twice k.cleaned now all (omega (arith, k.before)));
  past = All-map (λ u. u ≤ clock) all (λ u le. omega arith) k.past;
  latest = k.latest;
}

KeptUntil-later :
    (clock now : ℕ) (ts all : List ℕ) → clock ≤ now → KeptUntil clock ts all → KeptUntil now ts all
KeptUntil-later clock now ts all h k = record {
  cleaned = k.cleaned;
  before = omega (arith, k.before);
  kept = k.kept;
  past = All-map (λ u. u ≤ clock) all (λ u le. omega arith) k.past;
  latest = k.latest;
}

KeptUntil-send :
    (clock now : ℕ) (ts all : List ℕ)
    → clock ≤ now
    → KeptUntil clock ts all
    → KeptUntil now (ts ++ now ∷ []) (all ++ now ∷ [])
KeptUntil-send clock now ts all h k =
    let past =
      All-append (λ u. u ≤ now) all (now ∷ [])
        (All-map (λ u. u ≤ clock) all (λ u le. omega arith) k.past) (omega arith, tt) in
    record {
      cleaned = k.cleaned;
      before = omega (arith, k.before);
      kept =
          rw (keep-snoc (is_recent k.cleaned) all now (let le = k.before in ground arith))
            (ap (λ us. us ++ now ∷ []) k.kept);
      past = past;
      latest =
          λ t e. let newest = last?-append all now in let same : now ≡ t = cc in rw (← same) past;
    }

KeptUntil-limit :
    (clock now : ℕ) (ts all : List ℕ)
    → clock ≤ now
    → KeptUntil clock ts all
    → limit_from (last? ts) ts now ≡ limit_from (last? all) all now
KeptUntil-limit clock now ts all h k = rw k.kept (elim (Option-cases (last? all)) [
  | inl e ↦ rw (last?-nil all e) refl
  | inr (t, e) ↦ limit_from-keep all t k.cleaned now e (k.latest t e) (omega (arith, k.before))
])

timestamps_of-generate :
    (s : CodeStore) (phone p : Bytes) (now roll : ℕ)
    → timestamps_of (generate s phone now roll) p
      ≡ (if bytes_eq phone p then timestamps_of s phone ++ now ∷ [] else timestamps_of s p)
unfolding generate
timestamps_of-generate s phone p now roll = ground arith

verify_read-generate :
    (now roll : ℕ) (phone p code : Bytes) (later : ℕ) (s t : CodeStore)
    → verify_read s p code later ≡ verify_read t p code later
    → verify_read (generate s phone now roll) p code later
      ≡ verify_read (generate t phone now roll) p code later
unfolding generate verify_read
verify_read-generate now roll phone p code later s t e = ground arith

Alike-generate :
    (clock now roll : ℕ) (phone : Bytes) (s t : CodeStore)
    → clock ≤ now
    → Alike clock s t
    → Alike now (generate s phone now roll) (generate t phone now roll)
Alike-generate clock now roll phone s t h a = record {
  codes = λ p code later le.
      verify_read-generate now roll phone p code later s t (a.codes p code later (omega arith));
  sends = λ p.
      rw (timestamps_of-generate s phone p now roll, timestamps_of-generate t phone p now roll)
        (elim (Bool-cases (bytes_eq phone p)) [
          | inl e ↦ rw e (
              KeptUntil-send clock now (timestamps_of s phone) (timestamps_of t phone) h
                (a.sends phone))
          | inr e ↦
              rw e (KeptUntil-later clock now (timestamps_of s p) (timestamps_of t p) h (a.sends p))
        ]);
}

Alike-later : (clock now : ℕ) (s t : CodeStore) → clock ≤ now → Alike clock s t → Alike now s t
Alike-later clock now s t h a = record {
  codes = λ p code later le. a.codes p code later (omega arith);
  sends = λ p. KeptUntil-later clock now (timestamps_of s p) (timestamps_of t p) h (a.sends p);
}

Alike-delete :
    (clock : ℕ) (phone : Bytes) (s t : CodeStore)
    → Alike clock s t
    → Alike clock (verify_delete s phone) (verify_delete t phone)
unfolding verify_delete verify_read
Alike-delete clock phone s t a = record {
  codes = λ p code later le. let old = a.codes p code later le in ground arith;
  sends = a.sends;
}

pub Alike-clean :
    (clock now : ℕ) (s t : CodeStore) → clock ≤ now → Alike clock s t → Alike now (cleanup s now) t
Alike-clean clock now s t h a = record {
  codes =
      λ p code later le. verify-cleanup s p code now later le ∙ a.codes p code later (omega arith);
  sends = λ p.
      rw (timestamps_of-cleanup s p now)
        (KeptUntil-clean clock now (timestamps_of s p) (timestamps_of t p) h (a.sends p));
}

check_rate_limit-Alike :
    (clock now : ℕ) (phone : Bytes) (s t : CodeStore)
    → clock ≤ now
    → Alike clock s t
    → check_rate_limit s phone now ≡ check_rate_limit t phone now
unfolding check_rate_limit
check_rate_limit-Alike clock now phone s t h a =
    KeptUntil-limit clock now (timestamps_of s phone) (timestamps_of t phone) h (a.sends phone)

limit_or_deliver-Alike :
    (mock : Bool) (clock : ℕ) (r : SendRequest) (phone : Bytes) (s t : CodeStore)
    (limit : RateLimit)
    → clock ≤ r.generated
    → Alike clock s t
    → ((limit_or_deliver limit mock s r phone).1 ≡ (limit_or_deliver limit mock t r phone).1)
      × Alike r.generated
          (limit_or_deliver limit mock s r phone).0
          (limit_or_deliver limit mock t r phone).0
unfolding limit_or_deliver deliver
limit_or_deliver-Alike mock clock r phone s t allowed h a =
    (refl, Alike-generate clock r.generated r.roll phone s t h a)
limit_or_deliver-Alike mock clock r phone s t too_soon h a =
    (refl, Alike-later clock r.generated s t h a)
limit_or_deliver-Alike mock clock r phone s t too_many h a =
    (refl, Alike-later clock r.generated s t h a)

-- The reply to a request for a code, and that the stores are alike afterwards.
send_to-Alike :
    (o : Option Bytes) (mock : Bool) (clock : ℕ) (r : SendRequest) (s t : CodeStore)
    → StartsAfter clock (request r)
    → Alike clock s t
    → ((send_to o mock s r).1 ≡ (send_to o mock t r).1)
      × Alike r.generated (send_to o mock s r).0 (send_to o mock t r).0
unfolding send_to
send_to-Alike none mock clock r s t (h, k) a =
    (refl, Alike-later clock r.generated s t (omega arith) a)
send_to-Alike (some phone) mock clock r s t (h, k) a = elim (Bool-cases (is_phone phone)) [
  | inr bad ↦ rw bad (refl, Alike-later clock r.generated s t (omega arith) a)
  | inl good ↦ rw good (
      rw (check_rate_limit-Alike clock r.checked phone s t h a) (
        limit_or_deliver-Alike mock clock r phone s t (check_rate_limit t phone r.checked)
          (omega arith) a))
]

pub send_code-Alike :
    (mock : Bool) (clock : ℕ) (r : SendRequest) (s t : CodeStore)
    → StartsAfter clock (request r)
    → Alike clock s t
    → ((send_code mock s r).1 ≡ (send_code mock t r).1)
      × Alike r.generated (send_code mock s r).0 (send_code mock t r).0
unfolding send_code
send_code-Alike mock clock r s t h a = send_to-Alike r.phone mock clock r s t h a

pub verify-Alike :
    (clock now : ℕ) (p code : Bytes) (s t : CodeStore)
    → clock ≤ now
    → Alike clock s t
    → ((verify s p code now).1 ≡ (verify t p code now).1)
      × Alike now (verify s p code now).0 (verify t p code now).0
unfolding verify
verify-Alike clock now p code s t h a =
    let later = Alike-later clock now s t h a in
    rw (a.codes p code now h) (elim (Bool-cases (verify_read t p code now)) [
      | inl e ↦ rw e (refl, Alike-delete now p s t later)
      | inr e ↦ rw e (refl, later)
    ])
