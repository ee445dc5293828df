-- ===== src/Scheduler.antt =====
-- `Scheduler` of server/internal/queue/scheduler.go: the jobs that are due, what is done with each,
-- and when it comes again. `time.Date`, `AddDate` and `fmt.Sscanf` are parameters. The message of a
-- job is the one of its `context`; the program logs what it does and this is left out.
pub mod Times
pub mod Steps
pub mod Pass
pub mod Reminders
use crew_im.Prelude.{
  ℕ, zero, suc, ◌+◌, ◌-◌, ◌*◌, ◌/◌, ◌%◌, ◌^◌, ◌≤◌, ◌<◌, String, ◌≡◌, refl, sym, ap, ◌∙◌, ◌≢◌, ◌↔◌,
  ◌⊎◌, inl, inr, Bool, true, false, ◌&&◌, ◌||◌, not, Option, none, some, List, [], ◌∷◌, ◌++◌, map,
  arith, ltb, leb, ◌==◌, if◌then◌else◌, ltb→lt, lt→ltb, leb→le, ==_iff, Bool-cases, Option-cases,
  All, length, take, drop, take-append, drop-append, last?, keep, length-append, last?-append,
  length-keep-le, All-append, All-keep, All-map, Bytes, bytes_eq, bytes_eq_iff, bytes_eq_refl,
  eq_of_bytes_eq, bytes_ne, is_empty, join, ◌<>◌, decimal, str_eq, str_eq_iff, trim_space,
  trim_prefix, trim_suffix, split, Result, ok, err,
}
use Prim.Native.Char.{code}
use crew_im.Model.{Task, TaskBrief, ResultCard, PushEvent, completed, task_completed}
use crew_im.Sms.{hour}
use crew_im.Claude.Client.{ClaudeClient, call_simple}
use crew_im.World.{
  World, Services, Io, ScheduledJob, insert_row, is_none, exec, send, clock, query_rows,
}
use crew_im.World.Table.{find_by, update_by, ascending}

-- What `%d` reads.
pub data ℤ : Type 0 where
  pos : ℕ → ℤ
  negsuc : ℕ → ℤ

pub record Calendar : Type 0 where
  -- `time.Date(now.Year(), now.Month(), now.Day()+days, h, m, 0, 0, now.Location())`
  pub date : ℕ → ℕ → ℤ → ℤ → ℕ
  -- `t.AddDate(0, 0, days)`
  pub add_days : ℕ → ℕ → ℕ
  -- the number that `fmt.Sscanf(s, "%d", &n)` leaves in `n`
  pub scan : String → ℤ
  pub is_zero : ℕ → Bool

-- "hh:mm", today or tomorrow.
unfoldable pub clock_time : Calendar → String → String → ℕ → ℕ
clock_time c h m now =
    let next = c.date now 0 (c.scan h) (c.scan m) in
    if ltb next now then c.add_days next 1 else next

at_parts : Calendar → List String → ℕ → ℕ
unfolding clock_time
at_parts c [] now = now + 24 * hour
at_parts c (h ∷ []) now = now + 24 * hour
at_parts c (h ∷ m ∷ []) now = clock_time c h m now
at_parts c (h ∷ m ∷ s ∷ ss) now = now + 24 * hour

-- `parseCronNext` with `now`; a text without ":" has one part.
unfoldable pub cron_next : Calendar → String → ℕ → ℕ
unfolding at_parts
cron_next c schedule now =
    let s = trim_space schedule in
    if is_empty s || str_eq s "daily"
    then c.date now 1 (pos 9) (pos 0)
    else if str_eq s "weekly"
    then c.add_days now 7
    else if str_eq s "hourly"
    then now + hour
    else at_parts c (split b':' s) now

-- `WHERE active = true AND next_run_at <= $1`
unfoldable pub is_due : ℕ → ScheduledJob → Bool
is_due now j = j.active && leb j.next_run_at now

unfoldable pub due_jobs : ℕ → World → List ScheduledJob
due_jobs now w =
    take 20 (ascending (λ (j : ScheduledJob). j.next_run_at) (keep (is_due now) w.scheduled_jobs))

unfoldable pub message_of : ScheduledJob → String
message_of j = if is_empty j.message then j.source_text else j.message

or_message : String → Result String → String
or_message message (ok s) = s
or_message message (err e) = message

unfoldable pub reminder_task : ScheduledJob → String → ℕ → ℕ → Task
reminder_task j result id now = record {
  id = id;
  user_id = j.user_id;
  session_id = none;
  parent_task_id = none;
  input_text = some ("[定时提醒] " <> message_of j);
  input_audio_url = none;
  input_image_urls = [];
  understanding = some ("定时提醒：" <> message_of j);
  execution_plan = none;
  risk_level = none;
  intent_type = none;
  status = completed;
  result = some (record { title = "定时提醒"; body = result });
  error = none;
  created_at = now;
  updated_at = now;
}

unfoldable pub reminder_event : ScheduledJob → String → Option ℕ → PushEvent
reminder_event j result id = record {
  event_type = task_completed;
  task_id = id;
  task = some (record {
    id = id;
    input_text = "";
    understanding = message_of j;
    status = completed;
    created_at = none;
    steps = [];
  });
  message = "";
  result = some (record { title = "定时提醒"; body = result });
  reason = "";
  step = none;
  session_id = none;
  title = "";
}

unfoldable pub set_job : Services → ℕ → (ScheduledJob → ScheduledJob) → World → World
set_job sv id f w =
    (exec sv
      (λ v. record v {
        scheduled_jobs = update_by (λ (j : ScheduledJob). j.id) id f v.scheduled_jobs;
      })
      w).1

-- The time of the next run; a second look at the clock where there is none.
next_run : Services → Calendar → String → Io ℕ
next_run sv c schedule w =
    let (now, w₁) = clock sv w in
    let next = cron_next c schedule now in
    if c.is_zero next
    then (let (later, w₂) = clock sv w₁ in (later + 24 * hour, w₂))
    else (next, w₁)

-- The `switch` on the type of the job.
unfoldable pub reschedule : Services → Calendar → ScheduledJob → World → World
unfolding next_run
reschedule sv c j w =
    if str_eq j.job_type "once"
    then set_job sv j.id (λ k. record k { active = false }) w
    else if str_eq j.job_type "cron"
    then (let (next, w') = next_run sv c j.schedule w in
        set_job sv j.id (λ k. record k { next_run_at = next }) w')
    else w

abbrev reminder_prompt : String
reminder_prompt = "你是管理者的 AI 参谋。现在到了一个定时提醒的时间点。请根据提醒内容，生成一条简洁有用的提醒消息。直接输出内容。"

-- Up to the push.
unfoldable pub tell_job : Services → ClaudeClient → ScheduledJob → World → World
unfolding or_message
tell_job sv claude j w =
    let (answer, w₁) = call_simple sv claude reminder_prompt ("提醒内容：" <> message_of j) 500 w in
    let result = or_message (message_of j) answer in
    let (id, w₂) =
      insert_row sv (λ id v. is_none (find_by (λ (t : Task). t.id) id v.tasks))
        (λ id v. record v { tasks = v.tasks ++ reminder_task j result id (sv.now w₁.tick) ∷ [] })
        w₁ in
    (send j.user_id (reminder_event j result id) w₂).1

unfoldable pub execute_job : Services → ClaudeClient → Calendar → ScheduledJob → World → World
execute_job sv claude c j w = reschedule sv c j (tell_job sv claude j w)

unfoldable pub execute_jobs : Services → ClaudeClient → Calendar → List ScheduledJob → World → World
execute_jobs sv claude c [] w = w
execute_jobs sv claude c (j ∷ js) w = execute_jobs sv claude c js (execute_job sv claude c j w)

unfoldable pub process_due_jobs : Services → ClaudeClient → Calendar → World → World
process_due_jobs sv claude c w =
    let (now, w₁) = clock sv w in
    let (jobs, w₂) = query_rows sv (due_jobs now) w₁ in execute_jobs sv claude c jobs w₂

-- What `loop` receives: a tick of its ticker, or that `Stop` has closed its channel.
pub data Signal : Type 0 where
  ticker : Signal
  stop : Signal

unfoldable pub loop : Services → ClaudeClient → Calendar → List Signal → World → World
loop sv claude c [] w = w
loop sv claude c (ticker ∷ ss) w = loop sv claude c ss (process_due_jobs sv claude c w)
loop sv claude c (stop ∷ ss) w = w
