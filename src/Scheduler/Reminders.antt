-- ===== src/Scheduler/Reminders.antt =====
-- From the tool that sets a reminder to the scheduler that brings it: reminder.go and scheduler.go.
use crew_im.Prelude.{
  ℕ, zero, suc, ◌+◌, ◌≤◌, String, ◌≡◌, refl, ap, ◌∙◌, ◌⊎◌, inl, inr, Bool, true, Option, none, some,
  List, [], ◌∷◌, arith, ltb, Bool-cases, length, take, keep,
}
use mathlib.Core.List.{Memᴰ}
use mathlib.Core.List.Memᴰ
use crew_im.Model.{Params, PushEvent}
use crew_im.Claude.Client.{ClaudeClient}
use crew_im.World.{World, Services, ScheduledJob, ticked}
use crew_im.World.Table.{find_by, ascending, insert_ascending}
use crew_im.Tools.Registry.{ToolContext, string_param}
use crew_im.Tools.Reminders.{ReminderText, set_reminder, remind, new_job}
use crew_im.Scheduler.{Calendar, is_due, due_jobs, reminder_event, process_due_jobs}
use crew_im.Scheduler.Pass.{Told, execute_jobs-Told}

Memᴰ-keep :
    {A : Type 0} (p : A → Bool) (a : A) (xs : List A) → p a ≡ true → Memᴰ a xs → Memᴰ a (keep p xs)
Memᴰ-keep p a [] h m = elim m [ ]
Memᴰ-keep p a (x ∷ xs) h (Memᴰ.head e) = rw (← e) (rw h (Memᴰ.head refl))
Memᴰ-keep p a (x ∷ xs) h (Memᴰ.tail m) = elim (Bool-cases (p x)) [
  | inl e ↦ rw e (Memᴰ.tail (Memᴰ-keep p a xs h m))
  | inr e ↦ rw e (Memᴰ-keep p a xs h m)
]

module _ {A : Type 0} (key : A → ℕ) where
  Memᴰ-insert : (a x : A) (xs : List A) → (a ≡ x) ⊎ Memᴰ a xs → Memᴰ a (insert_ascending key x xs)
  unfolding insert_ascending
  Memᴰ-insert a x [] (inl e) = Memᴰ.head e
  Memᴰ-insert a x [] (inr m) = elim m [ ]
  Memᴰ-insert a x (y ∷ ys) m = elim (Bool-cases (ltb (key y) (key x))) [
    | inr e ↦ rw e (elim m [ inl e' ↦ Memᴰ.head e' | inr n ↦ Memᴰ.tail n ])
    | inl e ↦ rw e (elim m [
      | inl e' ↦ Memᴰ.tail (Memᴰ-insert a x ys (inl e'))
      | inr n ↦ elim (Memᴰ.cases_cons n) [
        | inl here ↦ Memᴰ.head here
        | inr later ↦ Memᴰ.tail (Memᴰ-insert a x ys (inr later))
      ]
    ])
  ]

  Memᴰ-ascending : (a : A) (xs : List A) → Memᴰ a xs → Memᴰ a (ascending key xs)
  unfolding ascending
  Memᴰ-ascending a [] m = elim m [ ]
  Memᴰ-ascending a (x ∷ xs) m =
      Memᴰ-insert a x (ascending key xs)
        (elim (Memᴰ.cases_cons m) [ inl e ↦ inl e | inr n ↦ inr (Memᴰ-ascending a xs n) ])

  length-insert : (x : A) (xs : List A) → length (insert_ascending key x xs) ≡ suc (length xs)
  unfolding insert_ascending
  length-insert x [] = refl
  length-insert x (y ∷ ys) = ground (arith, length-insert x ys)

  length-ascending : (xs : List A) → length (ascending key xs) ≡ length xs
  unfolding ascending
  length-ascending [] = refl
  length-ascending (x ∷ xs) = length-insert x (ascending key xs) ∙ ap suc (length-ascending xs)

take-all : {A : Type 0} (n : ℕ) (xs : List A) → length xs ≤ n → take n xs ≡ xs
take-all zero [] h = refl
take-all zero (x ∷ xs) h = absurd (omega (arith, h))
take-all (suc n) [] h = refl
take-all (suc n) (x ∷ xs) h = ap (◌∷◌ x) (take-all n xs (omega (arith, h)))

-- A job that was told of has its push.
Told-Memᴰ :
    (j : ScheduledJob) (js : List ScheduledJob) (ps : List (ℕ × PushEvent))
    → Memᴰ j js
    → Told js ps
    → (result : String) × (id : Option ℕ) × Memᴰ (j.user_id, reminder_event j result id) ps
Told-Memᴰ j [] ps m told = elim m [ ]
Told-Memᴰ j (k ∷ js) ps m (result, id, rest, e, told) = elim (Memᴰ.cases_cons m) [
  | inl same ↦ (result, id, rw e (rw same (Memᴰ.head refl)))
  | inr n ↦
      (let (result', id', there) = Told-Memᴰ j js rest n told in
        (result', id', rw e (Memᴰ.tail there)))
]

new_job-due :
    (id user : ℕ) (message repeat : String) (at now : ℕ)
    → at ≤ now
    → is_due now (new_job id user message repeat at) ≡ true
unfolding is_due new_job
new_job-due id user message repeat at now h = ground arith

-- With a database that works, a reminder that the tool sets, with a time that can be read and under an
-- identifier that is free, is a job of the table; and every pass of the scheduler over this table
-- from that time on, while at most twenty jobs are due, pushes the reminder to the user who has set it.
pub set_reminder-comes :
    (sv : Services) (text : ReminderText) (claude : ClaudeClient) (c : Calendar) (ps : Params)
    (ctx : ToolContext) (at : ℕ) (w v : World)
    → ((n : ℕ) → sv.db_ok n ≡ true)
    → text.parse_time (string_param ps "remind_at") ≡ some at
    → find_by (λ (j : ScheduledJob). j.id) (sv.new_id w.tick) w.scheduled_jobs ≡ none
    → v.scheduled_jobs ≡ (set_reminder sv text ps ctx w).1.scheduled_jobs
    → at ≤ sv.now v.tick
    → length (keep (is_due (sv.now v.tick)) v.scheduled_jobs) ≤ 20
    → (result : String) × (id : Option ℕ) × Memᴰ
        (
          ctx.user_id,
          reminder_event
              (new_job
                (sv.new_id w.tick)
                ctx.user_id
                (string_param ps "message")
                (string_param ps "repeat")
                at)
              result
              id,
        )
        (process_due_jobs sv claude c v).pushed
unfolding set_reminder remind process_due_jobs due_jobs
set_reminder-comes sv text claude c ps ctx at w v up time free same due few =
    let now = sv.now v.tick in
    let j =
      new_job (sv.new_id w.tick) ctx.user_id (string_param ps "message") (string_param ps "repeat")
        at in
    let by_time = λ (k : ScheduledJob). k.next_run_at in
    let stored : Memᴰ j v.scheduled_jobs =
      rw same
        (rw time (rw (up w.tick, free) (Memᴰ.append_right w.scheduled_jobs (Memᴰ.head refl)))) in
    let waits = Memᴰ-ascending by_time j (keep (is_due now) v.scheduled_jobs) (
      Memᴰ-keep (is_due now) j v.scheduled_jobs
        (new_job-due (sv.new_id w.tick) ctx.user_id (string_param ps "message")
          (string_param ps "repeat") at now due)
        stored) in
    let jobs = ascending by_time (keep (is_due now) v.scheduled_jobs) in
    let whole =
      take-all 20 jobs (rw (length-ascending by_time (keep (is_due now) v.scheduled_jobs)) few) in
    let (told, pushes, each) = execute_jobs-Told sv claude c jobs (ticked (ticked v)) in
    let (result, id, there) = Told-Memᴰ j jobs told waits each in
    (result, id, rw (up (v.tick + 1), whole) (rw pushes (Memᴰ.append_right v.pushed there)))
