-- ===== src/Tools/Reminders.antt =====
-- `SetReminder` of server/internal/tool/reminder.go. RFC 3339 is the library's, and a parameter.
use crew_im.Prelude.{ℕ, String, true, Option, none, some, [], ◌∷◌, ◌++◌, if◌then◌else◌, is_empty}
use crew_im.Model.{Params}
use crew_im.Claude.Model.{ToolResult}
use crew_im.World.{Services, Io, insert_row, is_none}
use crew_im.World.Table.{find_by}
use crew_im.Tools.Registry.{Definition, ToolContext, failure, success, string_param}
use crew_im.World.{ScheduledJob}

pub record ReminderText : Type 0 where
  -- `time.Parse` and `Format` with RFC 3339
  pub parse_time : String → Option ℕ
  pub format_time : ℕ → String
  pub db_error : String
  pub id_text : ℕ → String

unfoldable pub new_job : ℕ → ℕ → String → String → ℕ → ScheduledJob
new_job id user message repeat at = record {
  id = id;
  user_id = user;
  source_text = message;
  job_type = if is_empty repeat then "once" else "cron";
  schedule = repeat;
  message = message;
  active = true;
  next_run_at = at;
}

job_reply : ReminderText → ℕ → Option ℕ → ToolResult
job_reply t at none = failure t.db_error
job_reply t at (some id) =
    success ((("id", t.id_text id) ∷ ("nextRunAt", t.format_time at) ∷ []) ∷ [])

unfoldable pub remind : Services → ReminderText → ℕ → String → String → Option ℕ → Io ToolResult
unfolding job_reply new_job
remind sv t user message repeat none w = (failure "invalid remind_at format", w)
remind sv t user message repeat (some at) w =
    let (id, w') =
      insert_row sv (λ id v. is_none (find_by (λ (j : ScheduledJob). j.id) id v.scheduled_jobs))
        (λ id v. record v {
          scheduled_jobs = v.scheduled_jobs ++ new_job id user message repeat at ∷ [];
        })
        w in
    (job_reply t at id, w')

unfoldable pub set_reminder : Services → ReminderText → Params → ToolContext → Io ToolResult
unfolding remind
set_reminder sv t ps ctx =
    remind sv t ctx.user_id (string_param ps "message") (string_param ps "repeat")
      (t.parse_time (string_param ps "remind_at"))

abbrev pub set_reminder_tool : Services → ReminderText → Definition
set_reminder_tool sv t = record {
  name = "set_reminder";
  description = "设定提醒（定时或周期性）";
  execute = set_reminder sv t;
}
