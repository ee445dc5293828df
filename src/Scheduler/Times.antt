-- ===== src/Scheduler/Times.antt =====
-- When a job comes again: parseCronNext of scheduler.go.
use crew_im.Prelude.{
  ℕ, ◌≤◌, ◌<◌, String, ◌≡◌, refl, Bool, true, false, ◌&&◌, List, [], ◌∷◌, arith, ltb, trim_space,
  split,
}
use crew_im.Scheduler.{ℤ, pos, negsuc, Calendar, cron_next, clock_time, at_parts}

-- What package time says of a date: nine o'clock tomorrow, this time in a week, and any time of the
-- clock one day after today, are later than now.
pub record IsCalendar (c : Calendar) : Type 0 where
  pub tomorrow : (now : ℕ) → now < c.date now 1 (pos 9) (pos 0)
  pub in_a_week : (now : ℕ) → now < c.add_days now 7
  pub next_day : (now h m : ℕ) → h < 24 → m < 60 → now < c.add_days (c.date now 0 (pos h) (pos m)) 1

abbrev below : ℕ → ℤ → Bool
below n (pos k) = ltb k n
below n (negsuc k) = false

-- Where a text has two parts, they are an hour and a minute.
abbrev parts_fit : Calendar → List String → Bool
parts_fit c [] = true
parts_fit c (h ∷ []) = true
parts_fit c (h ∷ m ∷ []) = below 24 (c.scan h) && below 60 (c.scan m)
parts_fit c (h ∷ m ∷ s ∷ ss) = true

abbrev pub schedule_fits : Calendar → String → Bool
schedule_fits c schedule = parts_fit c (split b':' (trim_space schedule))

module _ (c : Calendar) (laws : IsCalendar c) (now : ℕ) where
  clock_time-le :
      (h m : String) (x y : ℤ)
      → c.scan h ≡ x
      → c.scan m ≡ y
      → below 24 x && below 60 y ≡ true
      → now ≤ clock_time c h m now
  unfolding clock_time
  clock_time-le h m (pos x) (pos y) a b fit =
      let later = laws.next_day now x y (ground arith) (ground arith) in rw (a, b) (ground arith)
  clock_time-le h m (pos x) (negsuc y) a b fit = absurd (ground arith)
  clock_time-le h m (negsuc x) (pos y) a b fit = absurd (ground arith)
  clock_time-le h m (negsuc x) (negsuc y) a b fit = absurd (ground arith)

  at_parts-le : (ps : List String) → parts_fit c ps ≡ true → now ≤ at_parts c ps now
  unfolding at_parts
  at_parts-le [] fit = omega arith
  at_parts-le (h ∷ []) fit = omega arith
  at_parts-le (h ∷ m ∷ []) fit = clock_time-le h m (c.scan h) (c.scan m) refl refl fit
  at_parts-le (h ∷ m ∷ s ∷ ss) fit = omega arith

  -- A job comes again no earlier than now.
  pub cron_next-le :
      (schedule : String) → schedule_fits c schedule ≡ true → now ≤ cron_next c schedule now
  unfolding cron_next
  cron_next-le schedule fit =
      let parts = at_parts-le (split b':' (trim_space schedule)) fit in
      ground (arith, laws.tomorrow now, laws.in_a_week now)
