-- ===== src/Scheduler/Steps.antt =====
-- What happens to a job that is run: executeJob of scheduler.go.
use crew_im.Prelude.{
  inl, inr, ◌⊎◌, ℕ, ◌≤◌, ◌<◌, String, ◌≡◌, refl, ap, inl, inr, Bool, true, false, ◌&&◌, Option,
  none, some, [], ◌∷◌, ◌++◌, arith, ◌==◌, if◌then◌else◌, Bool-cases, ◌<>◌, ◌∙◌,
}
use crew_im.Model.{completed, Task}
use crew_im.Claude.Model.{user, plain}
use crew_im.Claude.Client.{ClaudeClient, call_simple}
use crew_im.Claude.Calls.{call-LaterThan, LaterThan}
use crew_im.World.{is_none, World, Services, ScheduledJob}
use crew_im.World.Table.{find_by, find_by-update_by, map_option}
use crew_im.Scheduler.{
  reminder_task, Calendar, is_due, reminder_event, set_job, reschedule, next_run, execute_job,
  reminder_prompt, message_of, tell_job, or_message,
}

abbrev pub is_row_due : ℕ → Option ScheduledJob → Bool
is_row_due now none = false
is_row_due now (some j) = is_due now j

abbrev pub job : ℕ → World → Option ScheduledJob
job k w = find_by (λ (j : ScheduledJob). j.id) k w.scheduled_jobs

pub set_job-row :
    (sv : Services) (up : (n : ℕ) → sv.db_ok n ≡ true) (k id : ℕ) (f : ScheduledJob → ScheduledJob)
    (w : World)
    → ((j : ScheduledJob) → (f j).id ≡ j.id)
    → job k (set_job sv id f w) ≡ (if id == k then map_option f (job k w) else job k w)
unfolding set_job
set_job-row sv up k id f w same =
    rw (up w.tick) (find_by-update_by (λ (j : ScheduledJob). j.id) k id f w.scheduled_jobs same)

pub inactive-due :
    (now : ℕ) (r : Option ScheduledJob)
    → is_row_due now (map_option (λ (k : ScheduledJob). record k { active = false }) r) ≡ false
unfolding is_due
inactive-due now none = refl
inactive-due now (some j) = refl

pub later-due :
    (now next : ℕ) (r : Option ScheduledJob)
    → now < next
    → is_row_due now (map_option (λ (k : ScheduledJob). record k { next_run_at = next }) r) ≡ false
unfolding is_due
later-due now next none h = refl
later-due now next (some j) h = ground arith

-- Until the jobs are rescheduled nothing happens to them.
abbrev Before : ScheduledJob → World → World → Type 0
Before j w v =
    (v.scheduled_jobs ≡ w.scheduled_jobs)
    × (w.tick < v.tick)
    × ((result : String) × (id : Option ℕ) × (v.pushed
          ≡ w.pushed ++ (j.user_id, reminder_event j result id) ∷ []))

call_simple-LaterThan :
    (sv : Services) (c : ClaudeClient) (sys input : String) (max : ℕ) (w : World)
    → LaterThan 2 w (call_simple sv c sys input max w).1
unfolding call_simple
call_simple-LaterThan sv c sys input max w =
    call-LaterThan sv c sys (record { role = user; content = plain input } ∷ []) [] max w

module _ (sv : Services) (claude : ClaudeClient) (c : Calendar) where
  pub tell_job-Before : (j : ScheduledJob) (w : World) → Before j w (tell_job sv claude j w)
  unfolding tell_job
  tell_job-Before j w =
      let (answer, w₁) = call_simple sv claude reminder_prompt ("提醒内容：" <> message_of j) 500 w in
      let (same, later, most) =
        call_simple-LaterThan sv claude reminder_prompt ("提醒内容：" <> message_of j) 500 w in
      let jobs : w₁.scheduled_jobs ≡ w.scheduled_jobs = ap (λ v. v.scheduled_jobs) same in
      let pushes : w₁.pushed ≡ w.pushed = ap (λ v. v.pushed) same in
      let result = or_message (message_of j) answer in
      let put : (id : Option ℕ)
          → w₁.pushed ++ (j.user_id, reminder_event j result id) ∷ []
            ≡ w.pushed ++ (j.user_id, reminder_event j result id) ∷ [] =
        λ id. ap (λ ps. ps ++ (j.user_id, reminder_event j result id) ∷ []) pushes in
      let id = sv.new_id w₁.tick in
      elim (Bool-cases (sv.db_ok w₁.tick && is_none (find_by (λ (t : Task). t.id) id w₁.tasks))) [
        | inl e ↦ rw e (jobs, omega (arith, later), (result, some id, put (some id)))
        | inr e ↦ rw e (jobs, omega (arith, later), (result, none, put none))
      ]

  pub reschedule-quiet :
      (j : ScheduledJob) (w : World)
      → (w.tick ≤ (reschedule sv c j w).tick) × ((reschedule sv c j w).pushed ≡ w.pushed)
  unfolding reschedule next_run set_job
  reschedule-quiet j w = (ground arith, ground arith)

  pub execute_job-tick :
      (j : ScheduledJob) (w : World) (n : ℕ) → n ≤ w.tick → n ≤ (execute_job sv claude c j w).tick
  unfolding execute_job
  execute_job-tick j w n h =
      let (jobs, later, told) = tell_job-Before j w in
      let (quiet, pushes) = reschedule-quiet j (tell_job sv claude j w) in
      omega (arith, later, quiet, h)

  reschedule-tasks :
      (j : ScheduledJob) (w : World)
      → ((reschedule sv c j w).tasks ≡ w.tasks) × ((reschedule sv c j w).enqueued ≡ w.enqueued)
  unfolding reschedule next_run set_job
  reschedule-tasks j w = (ground arith, ground arith)

  tell_job-tasks :
      (j : ScheduledJob) (w : World)
      → ((tell_job sv claude j w).enqueued ≡ w.enqueued)
        × (((tell_job sv claude j w).tasks ≡ w.tasks)
            ⊎ ((t : Task) × ((tell_job sv claude j w).tasks ≡ w.tasks ++ t ∷ [])
                × (t.status ≡ completed)))
  unfolding tell_job reminder_task
  tell_job-tasks j w =
      let (answer, w₁) = call_simple sv claude reminder_prompt ("提醒内容：" <> message_of j) 500 w in
      let same =
        (call_simple-LaterThan sv claude reminder_prompt ("提醒内容：" <> message_of j) 500 w).0 in
      let jobs : w₁.enqueued ≡ w.enqueued = ap (λ v. v.enqueued) same in
      let tasks : w₁.tasks ≡ w.tasks = ap (λ v. v.tasks) same in
      let id = sv.new_id w₁.tick in
      let task = reminder_task j (or_message (message_of j) answer) id (sv.now w₁.tick) in
      elim (Bool-cases (sv.db_ok w₁.tick && is_none (find_by (λ (t : Task). t.id) id w₁.tasks))) [
        | inl e ↦ rw e (jobs, inr (task, ap (λ ts. ts ++ task ∷ []) tasks, refl))
        | inr e ↦ rw e (jobs, inl tasks)
      ]

  -- A job that is run makes no job for the workers, and adds at most a task that is completed.
  pub execute_job-tasks :
      (j : ScheduledJob) (w : World)
      → ((execute_job sv claude c j w).enqueued ≡ w.enqueued)
        × (((execute_job sv claude c j w).tasks ≡ w.tasks)
            ⊎ ((t : Task) × ((execute_job sv claude c j w).tasks ≡ w.tasks ++ t ∷ [])
                × (t.status ≡ completed)))
  unfolding execute_job
  execute_job-tasks j w =
      let (jobs, tasks) = tell_job-tasks j w in
      let (same, idle) = reschedule-tasks j (tell_job sv claude j w) in (idle ∙ jobs, rw same tasks)
