-- ===== src/Checks/Schedules.antt =====
-- A pass of the scheduler at concrete inputs.
use crew_im.Prelude.{
  ℕ, ◌+◌, ◌*◌, ◌≡◌, refl, true, false, List, [], ◌∷◌, ◌++◌, All, arith, String, trim_space, split,
  Option, none, some, length, keep, decimal, ◌≤◌,
}
use crew_im.Model.{PushEvent, Params, text}
use crew_im.World.Table.{ascending, find_by}
use mathlib.Core.List.{Memᴰ}
use crew_im.Tools.Registry.{ToolContext, string_param}
use crew_im.Tools.Reminders.{ReminderText, set_reminder, remind, new_job}
use crew_im.World.{World, Services, ScheduledJob}
use crew_im.Claude.Client.{new_claude_client}
use crew_im.Sms.{hour}
use crew_im.Scheduler.{
  ℤ, pos, negsuc, Calendar, due_jobs, is_due, process_due_jobs, cron_next, reminder_event,
}
use crew_im.Scheduler.Times.{IsCalendar}
use crew_im.Scheduler.Pass.{is_known, Told, process_due_jobs-Settles}
use crew_im.Scheduler.Reminders.{set_reminder-comes}
use crew_im.Scheduler.Steps.{is_row_due, job}
use crew_im.Checks.Data.{services, world}

-- Days begin with the epoch, and every text is the number 8.
abbrev times : ℤ → ℤ → ℕ
times (pos h) (pos m) = h * hour + m
times (pos h) (negsuc m) = h * hour
times (negsuc h) m = 0

abbrev pub calendar : Calendar
calendar = record {
  date = λ now days h m. now + days * 24 * hour + times h m;
  add_days = λ now days. now + days * 24 * hour;
  scan = λ s. pos 8;
  is_zero = λ t. false;
}

calendar-IsCalendar : IsCalendar calendar
calendar-IsCalendar = record {
  tomorrow = λ now. omega arith;
  in_a_week = λ now. omega arith;
  next_day = λ now h m a b. omega arith;
}

abbrev clock_services : Services
clock_services = record services { now = λ n. n }

abbrev reminder : ℕ → String → String → ScheduledJob
reminder id type schedule = record {
  id = id;
  user_id = 1;
  source_text = "stand up";
  job_type = type;
  schedule = schedule;
  message = "";
  active = true;
  next_run_at = 0;
}

abbrev jobs : List ScheduledJob
jobs = reminder 1 "once" "" ∷ reminder 2 "cron" "8:08" ∷ []

abbrev scheduled : World
scheduled = record world { scheduled_jobs = jobs }

-- A cron expression is not read: the next run is in a day.
cron_is_daily : cron_next calendar "*/5 * * * *" 7 ≡ 7 + 24 * hour
unfolding cron_next trim_space split
cron_is_daily = refl

jobs_known : All (λ j. is_known calendar j ≡ true) (due_jobs 0 scheduled)
unfolding due_jobs is_due ascending trim_space split
jobs_known = (refl, (refl, tt))

process_due_jobs-Settles_example :
    All
      (λ j.
        is_row_due 0 (
          job j.id
            (process_due_jobs clock_services (new_claude_client "k" "" "") calendar scheduled))
        ≡ false)
      (due_jobs 0 scheduled)
    × ((told : List (ℕ × PushEvent)) × ((process_due_jobs clock_services
            (new_claude_client "k" "" "")
            calendar
            scheduled).pushed
          ≡ [] ++ told)
        × Told (due_jobs 0 scheduled) told)
process_due_jobs-Settles_example =
    process_due_jobs-Settles clock_services (new_claude_client "k" "" "") calendar
      calendar-IsCalendar (λ n. refl) (λ m n h. h) scheduled jobs_known

abbrev late : Services
late = record services { now = λ n. 8 }

abbrev asked : ToolContext
asked = record { user_id = 1; task_id = 10; sub_task_id = none }

abbrev wish : Params
wish = ("message", text "stand up") ∷ ("remind_at", text "8") ∷ []

abbrev texts : ReminderText
texts = record {
  parse_time = λ s. some 5;
  format_time = decimal;
  db_error = "e";
  id_text = decimal;
}

-- What the tool leaves behind is what the scheduler finds.
abbrev wished : World
wished = (set_reminder late texts wish asked scheduled).1

free_id : find_by (λ (j : ScheduledJob). j.id) 100 jobs ≡ none
unfolding find_by
free_id = refl

three_due : length (keep (is_due 8) wished.scheduled_jobs) ≤ 20
unfolding set_reminder is_due find_by string_param remind new_job
three_due = omega arith

set_reminder-comes_example :
    (result : String) × (id : Option ℕ) × Memᴰ
      (
        1,
        reminder_event
            (new_job 100 1 (string_param wish "message") (string_param wish "repeat") 5)
            result
            id,
      )
      (process_due_jobs late (new_claude_client "k" "" "") calendar wished).pushed
set_reminder-comes_example =
    set_reminder-comes late texts (new_claude_client "k" "" "") calendar wish asked 5 scheduled
      wished (λ n. refl) refl free_id refl (omega arith) three_due
