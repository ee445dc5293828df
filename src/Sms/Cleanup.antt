-- ===== src/Sms/Cleanup.antt =====
-- `cleanup` of sms.go does not change what `CheckRateLimit` answers.
use crew_im.Prelude.{
  last?-nil, Option-cases, inl, inr, ℕ, ◌≤◌, ◌≡◌, refl, Bool, true, false, some, List, [], ◌∷◌,
  arith, Bool-cases, All, last?, keep, Bytes,
}
use crew_im.Sms.{
  check_rate_limit, limit_from, CodeStore, is_recent, count_recent, timestamps_of, cleanup,
}

-- No timestamp is later than the last one: what a clock that never goes back leaves behind.
abbrev pub LastIsLatest : List ℕ → Type 0
LastIsLatest ts = (t : ℕ) → last? ts ≡ some t → All (λ u. u ≤ t) ts

pub count_recent-keep :
    (ts : List ℕ) (cleaned now : ℕ)
    → cleaned ≤ now
    → count_recent now (keep (is_recent cleaned) ts) ≡ count_recent now ts
unfolding count_recent
count_recent-keep [] cleaned now h = refl
count_recent-keep (t ∷ ts) cleaned now h = ground (arith, count_recent-keep ts cleaned now h)

-- A list whose last element passes the test keeps it in the last place.
pub last?-keep :
    (p : ℕ → Bool) (ts : List ℕ) (t : ℕ)
    → last? ts ≡ some t
    → p t ≡ true
    → last? (keep p ts) ≡ some t
last?-keep p [] t h k = cc
last?-keep p (x ∷ []) t h k = ground arith
last?-keep p (x ∷ y ∷ ys) t h k = elim (Bool-cases (p x)) [
  | inl e ↦ rw e (last?-cons x (keep p (y ∷ ys)) t (last?-keep p (y ∷ ys) t h k))
  | inr e ↦ rw e (last?-keep p (y ∷ ys) t h k)
]
  where
    last?-cons : (x : ℕ) (zs : List ℕ) (t : ℕ) → last? zs ≡ some t → last? (x ∷ zs) ≡ some t
    last?-cons x [] t h = cc
    last?-cons x (z ∷ zs) t h = h

pub keep-eq-nil :
    (ts : List ℕ) (now t : ℕ)
    → All (λ u. u ≤ t) ts
    → is_recent now t ≡ false
    → keep (is_recent now) ts ≡ []
keep-eq-nil [] now t h k = refl
keep-eq-nil (x ∷ ts) now t h k = ground (arith, keep-eq-nil ts now t h.1 k)

pub timestamps_of-cleanup :
    (s : CodeStore) (phone : Bytes) (cleaned : ℕ)
    → timestamps_of (cleanup s cleaned) phone ≡ keep (is_recent cleaned) (timestamps_of s phone)
unfolding cleanup
timestamps_of-cleanup s phone cleaned = ground arith

pub count_recent-old :
    (ts : List ℕ) (t now : ℕ)
    → All (λ u. u ≤ t) ts
    → is_recent now t ≡ false
    → count_recent now ts ≡ 0
unfolding count_recent
count_recent-old [] t now h k = refl
count_recent-old (x ∷ ts) t now h k = ground (arith, count_recent-old ts t now h.1 k)

pub limit_from-keep :
    (ts : List ℕ) (last cleaned now : ℕ)
    → last? ts ≡ some last
    → All (λ u. u ≤ last) ts
    → cleaned ≤ now
    → limit_from (last? (keep (is_recent cleaned) ts)) (keep (is_recent cleaned) ts) now
      ≡ limit_from (last? ts) ts now
unfolding limit_from
limit_from-keep ts last cleaned now e h le = elim (Bool-cases (is_recent cleaned last)) [
  | inl r ↦
      rw (last?-keep (is_recent cleaned) ts last e r)
        (rw e (rw (count_recent-keep ts cleaned now le)))
  | inr r ↦
      rw (keep-eq-nil ts cleaned last h r) (rw e (ground (arith, count_recent-old ts last now h)))
]

-- The cleanup cannot be told by `CheckRateLimit`: where the timestamps of a number are those of a
-- clock that never goes back, its answer at any time from the cleanup on is what it would have
-- been without it.
pub check_rate_limit-cleanup :
    (s : CodeStore) (phone : Bytes) (cleaned now : ℕ)
    → LastIsLatest (timestamps_of s phone)
    → cleaned ≤ now
    → check_rate_limit (cleanup s cleaned) phone now ≡ check_rate_limit s phone now
unfolding check_rate_limit
check_rate_limit-cleanup s phone cleaned now h le =
    rw (timestamps_of-cleanup s phone cleaned)
      (elim (Option-cases (last? (timestamps_of s phone))) [
        | inl e ↦ rw (last?-nil (timestamps_of s phone) e)
        | inr (t, e) ↦ limit_from-keep (timestamps_of s phone) t cleaned now e (h t e) le
      ])
