-- ===== src/Scheduler/Pass.antt =====
-- What a pass of the scheduler over the due jobs comes to: processDueJobs of scheduler.go.
use crew_im.Prelude.{
  ℕ, ◌+◌, ◌≤◌, ◌<◌, String, ◌≡◌, refl, sym, ap, ◌∙◌, ◌⊎◌, inl, inr, Bool, true, false, ◌&&◌, ◌||◌,
  Option, List, [], ◌∷◌, ◌++◌, arith, ◌==◌, ==_iff, Bool-cases, All, str_eq,
}
use mathlib.Core.List.{append_assoc, append-nil}
use crew_im.Model.{PushEvent}
use crew_im.Claude.Client.{ClaudeClient}
use crew_im.World.{World, Services, ScheduledJob, ticked}
use crew_im.World.Table.{map_option}
use crew_im.Scheduler.{
  Calendar, cron_next, due_jobs, reminder_event, set_job, reschedule, next_run, execute_job,
  execute_jobs, process_due_jobs, tell_job,
}
use crew_im.Scheduler.Times.{IsCalendar, schedule_fits, cron_next-le}
use crew_im.Scheduler.Steps.{
  is_row_due, job, tell_job-Before, set_job-row, inactive-due, later-due, reschedule-quiet,
  execute_job-tick, tell_job-Before, set_job-row,
}

-- The types that the scheduler knows.
abbrev pub is_known : Calendar → ScheduledJob → Bool
is_known c j = str_eq j.job_type "once" || (str_eq j.job_type "cron" && schedule_fits c j.schedule)

-- One push for each job, to its user.
abbrev pub Told : List ScheduledJob → List (ℕ × PushEvent) → Type 0
Told [] ps = ps ≡ []
Told (j ∷ js) ps =
    (result : String) × (id : Option ℕ) × (rest : List (ℕ × PushEvent)) × (ps
      ≡ (j.user_id, reminder_event j result id) ∷ rest)
    × Told js rest

module _ (sv : Services) (claude : ClaudeClient) (c : Calendar) where
  pub execute_jobs-Told :
      (js : List ScheduledJob) (w : World)
      → (told : List (ℕ × PushEvent)) × ((execute_jobs sv claude c js w).pushed ≡ w.pushed ++ told)
        × Told js told
  unfolding execute_jobs execute_job
  execute_jobs-Told [] w = ([], sym (append-nil w.pushed), refl)
  execute_jobs-Told (j ∷ js) w =
      let (jobs, later, (result, id, put)) = tell_job-Before sv claude c j w in
      let (quiet, pushes) = reschedule-quiet sv claude c j (tell_job sv claude j w) in
      let (rest, e, told) = execute_jobs-Told js (execute_job sv claude c j w) in
      let p : ℕ × PushEvent = (j.user_id, reminder_event j result id) in
      (
        p ∷ rest,
        e ∙ ap (λ ps. ps ++ rest) (pushes ∙ put) ∙ append_assoc w.pushed (p ∷ []) rest,
        (result, id, rest, refl, told),
      )

  module _ (laws : IsCalendar c) (up : (n : ℕ) → sv.db_ok n ≡ true)
      (runs : (m n : ℕ) → m < n → sv.now m < sv.now n) (start : ℕ) where
    next_run-later :
        (schedule : String) (w : World)
        → start < w.tick
        → schedule_fits c schedule ≡ true
        → sv.now start < (next_run sv c schedule w).0
    unfolding next_run
    next_run-later schedule w h fit =
        let a = runs start w.tick h in
        let b = runs start (w.tick + 1) (omega arith) in
        let d = cron_next-le c laws (sv.now w.tick) schedule fit in ground arith

    next_run-row :
        (schedule : String) (k : ℕ) (w : World) → job k (next_run sv c schedule w).1 ≡ job k w
    unfolding next_run
    next_run-row schedule k w =
        elim (Bool-cases (c.is_zero (cron_next c schedule (sv.now w.tick)))) [
          | inl e ↦ rw e refl
          | inr e ↦ rw e refl
        ]

    abbrev NotDue : ℕ → World → Type 0
    NotDue k w = is_row_due (sv.now start) (job k w) ≡ false

    set_job-NotDue :
        (k id : ℕ) (f : ScheduledJob → ScheduledJob) (w : World)
        → ((j : ScheduledJob) → (f j).id ≡ j.id)
        → ((r : Option ScheduledJob) → is_row_due (sv.now start) (map_option f r) ≡ false)
        → NotDue k w ⊎ (id ≡ k)
        → NotDue k (set_job sv id f w)
    set_job-NotDue k id f w same settles before =
        rw (set_job-row sv up k id f w same) (elim (Bool-cases (id == k)) [
          | inl e ↦ rw e (settles (job k w))
          | inr e ↦ rw e (elim before [ inl d ↦ d | inr s ↦ (let e' = (==_iff id k).1 s in cc) ])
        ])

    -- A job that is not due at the start does not become due, and the one that is rescheduled is not.
    reschedule-NotDue :
        (k : ℕ) (j : ScheduledJob) (w : World)
        → start < w.tick
        → is_known c j ≡ true
        → NotDue k w ⊎ (j.id ≡ k)
        → NotDue k (reschedule sv c j w)
    unfolding reschedule
    reschedule-NotDue k j w h known before = elim (Bool-cases (str_eq j.job_type "once")) [
      | inl e ↦ rw e (
          set_job-NotDue k j.id (λ r. record r { active = false }) w (λ r. refl)
            (inactive-due (sv.now start)) before)
      | inr e ↦
          (let cron : str_eq j.job_type "cron" ≡ true = ground arith in
            let fits : schedule_fits c j.schedule ≡ true = ground arith in
            rw (e, cron)
              (let (next, w') = next_run sv c j.schedule w in
                let later = next_run-later j.schedule w h fits in
                let row = next_run-row j.schedule k w in
                set_job-NotDue k j.id (λ r. record r { next_run_at = next }) w' (λ r. refl)
                  (λ r. later-due (sv.now start) next r later) (rw row before)))
    ]

    execute_job-NotDue :
        (k : ℕ) (j : ScheduledJob) (w : World)
        → start ≤ w.tick
        → is_known c j ≡ true
        → NotDue k w ⊎ (j.id ≡ k)
        → NotDue k (execute_job sv claude c j w)
    unfolding execute_job
    execute_job-NotDue k j w h known before =
        let (jobs, later, told) = tell_job-Before sv claude c j w in
        reschedule-NotDue k j (tell_job sv claude j w) (omega (arith, later)) known (rw jobs before)

    execute_jobs-NotDue :
        (k : ℕ) (js : List ScheduledJob) (w : World)
        → start ≤ w.tick
        → All (λ j. is_known c j ≡ true) js
        → NotDue k w
        → NotDue k (execute_jobs sv claude c js w)
    unfolding execute_jobs
    execute_jobs-NotDue k [] w h known d = d
    execute_jobs-NotDue k (j ∷ js) w h (kj, known) d =
        execute_jobs-NotDue k js (execute_job sv claude c j w)
          (execute_job-tick sv claude c j w start h) known (execute_job-NotDue k j w h kj (inl d))

    execute_jobs-AllNotDue :
        (js : List ScheduledJob) (w : World)
        → start ≤ w.tick
        → All (λ j. is_known c j ≡ true) js
        → All (λ j. NotDue j.id (execute_jobs sv claude c js w)) js
    unfolding execute_jobs
    execute_jobs-AllNotDue [] w h known = tt
    execute_jobs-AllNotDue (j ∷ js) w h (kj, known) =
        let w' = execute_job sv claude c j w in
        let h' = execute_job-tick sv claude c j w start h in
        (
          execute_jobs-NotDue j.id js w' h' known (execute_job-NotDue j.id j w h kj (inr refl)),
          execute_jobs-AllNotDue js w' h' known,
        )

  -- With a database that works, a clock that goes on and a calendar that obeys its laws, where each due
  -- job is of a known type, and its schedule, when it has two parts, is a time of day: a pass pushes
  -- each of the first twenty due jobs to its user once, the earliest first, and afterwards none of
  -- them is due at the time of the pass.
  pub process_due_jobs-Settles :
      IsCalendar c
      → ((n : ℕ) → sv.db_ok n ≡ true)
      → ((m n : ℕ) → m < n → sv.now m < sv.now n)
      → (w : World) → All (λ j. is_known c j ≡ true) (due_jobs (sv.now w.tick) w)
      → All
          (λ j. is_row_due (sv.now w.tick) (job j.id (process_due_jobs sv claude c w)) ≡ false)
          (due_jobs (sv.now w.tick) w)
        × ((told : List (ℕ × PushEvent)) × ((process_due_jobs sv claude c w).pushed
              ≡ w.pushed ++ told)
            × Told (due_jobs (sv.now w.tick) w) told)
  unfolding process_due_jobs due_jobs
  process_due_jobs-Settles laws up runs w known =
      let js = due_jobs (sv.now w.tick) w in
      rw (up (w.tick + 1)) (
        execute_jobs-AllNotDue laws up runs w.tick js (ticked (ticked w)) (omega arith) known,
        execute_jobs-Told js (ticked (ticked w)),
      )
