-- ===== src/Understanding.antt =====
-- `UnderstandingService.Understand` of server/internal/service/understanding.go: the command of a task
-- is read by the model, with what the user has going on, and becomes a plan. `parse` stands for
-- `json.Unmarshal` into an `UnderstandingResult`. The go statement for the title is recorded; module
-- Title is its routine.
pub mod Prompt
pub mod Context
pub mod Outcome
pub mod Foreign
pub mod Title
use crew_im.Prelude.{
  ℕ, zero, suc, ◌+◌, ◌-◌, ◌*◌, ◌/◌, ◌%◌, ◌≤◌, ◌<◌, String, ◌≡◌, refl, sym, ap, ◌∙◌, ◌≢◌, ◌↔◌, ◌⊎◌,
  inl, inr, Bool, true, false, ◌&&◌, ◌||◌, not, Option, none, some, List, [], ◌∷◌, ◌++◌, map, arith,
  ltb, leb, ◌==◌, if◌then◌else◌, ltb→lt, lt→ltb, leb→le, ==_iff, Bool-cases, Option-cases, All,
  length, take, last?, keep, length-append, last?-append, length-keep-le, All-append, All-keep,
  All-map, Bytes, bytes_eq, bytes_eq_iff, bytes_eq_refl, eq_of_bytes_eq, bytes_ne, is_empty, join,
  ◌<>◌, decimal, str_eq, str_eq_iff, trim_space, trim_prefix, trim_suffix, Result, ok, err,
}
use crew_im.Model.{
  Task, TaskStatus, TaskBrief, PushEvent, EventType, ExecutionPlan, ExecutionStep,
  UnderstandingResult, TaskRef, uuid, no_uuid, Params, understanding, waiting_confirm, executing,
  task_progress, task_understanding, task_waiting_confirm,
}
use crew_im.Claude.Model.{Response, Role, plain}
use crew_im.Claude.Client.{ClaudeClient, call, get_text_response}
use crew_im.World.{
  World, Services, Io, UserProfile, UserRule, Memory, auto_title, ◌>>=◌, ◌>>◌, pure, query_row,
  query_rows, insert_row, exec, send, start, update_task, is_none,
}
use crew_im.World.Table.{find_by, map_option}
use crew_im.Orchestrator.{or_empty}
use crew_im.Understanding.Prompt.{UserContext, build_understanding_prompt}
use crew_im.Understanding.Context.{gather}

pub record UnderstandingService : Type 0 where
  pub claude : ClaudeClient
  pub parse : String → Option UnderstandingResult

-- The code block around the JSON is taken off.
unfoldable pub strip_fences : String → String
strip_fences s = trim_space (trim_suffix (trim_prefix (trim_prefix s "```json") "```") "```")

-- What is no JSON is a plan of one step with its text.
unfoldable pub interpret : Option UnderstandingResult → String → UnderstandingResult
interpret (some r) text = r
interpret none text = record {
  understanding = text;
  execution_plan = record {
    steps = record { description = text; tools_needed = []; can_parallel = false } ∷ [];
    requires_confirmation = false;
    confirmation_message = "";
  };
  risk_level = "low";
  intent_type = "task";
  related_task_id = none;
}

unfoldable pub next_status : UnderstandingResult → TaskStatus
next_status r = if r.execution_plan.requires_confirmation then waiting_confirm else executing

event : EventType → ℕ → String → TaskBrief → PushEvent
event type id message brief = record {
  event_type = type;
  task_id = some id;
  task = some brief;
  message = message;
  result = none;
  reason = "";
  step = none;
  session_id = none;
  title = "";
}

brief : ℕ → String → String → TaskStatus → List ExecutionStep → TaskBrief
brief id input text status steps = record {
  id = some id;
  input_text = input;
  understanding = text;
  status = status;
  created_at = none;
  steps = steps;
}

unfoldable pub reading_event : ℕ → String → PushEvent
unfolding event brief
reading_event id input =
    event task_progress id "正在理解你的指令…" (brief id input "" TaskStatus.understanding [])

unfoldable pub understood_event : ℕ → String → UnderstandingResult → PushEvent
unfolding event brief
understood_event id input r =
    event task_understanding id r.understanding
      (brief id input r.understanding (next_status r) r.execution_plan.steps)

unfoldable pub confirm_event : ℕ → String → UnderstandingResult → PushEvent
unfolding event brief
confirm_event id input r =
    event task_waiting_confirm id
      (if is_empty r.execution_plan.confirmation_message
        then r.understanding
        else r.execution_plan.confirmation_message)
      (brief id input r.understanding waiting_confirm [])

-- `UPDATE tasks SET parent_task_id = $1 WHERE id = $2`, where there is a text that is not empty; a
-- text that is no UUID makes the statement fail.
unfoldable pub link_parent : Services → ℕ → Option TaskRef → Io (Unit {0})
link_parent sv id none w = (tt, w)
link_parent sv id (some (uuid parent)) w =
    (tt, (exec sv (update_task id (λ t. record t { parent_task_id = some parent })) w).1)
link_parent sv id (some (no_uuid s)) w =
    if is_empty s then (tt, w) else (tt, (exec sv (λ v. v) w).1)

-- `INSERT INTO user_rules …` where the intent is "rule".
unfoldable pub save_rule : Services → ℕ → UnderstandingResult → Io (Unit {0})
save_rule sv user r w =
    if str_eq r.intent_type "rule" && not (is_empty r.understanding)
    then (
      tt,
      (insert_row sv (λ id v. is_none (find_by (λ (u : UserRule). u.id) id v.user_rules))
          (λ id v. record v {
            user_rules =
                v.user_rules
                ++ record { id = id; user_id = user; rule_text = r.understanding; active = true }
                  ∷ [];
          })
          w).1,
    )
    else (tt, w)

unfoldable pub save_plan : Services → ℕ → UnderstandingResult → Io Bool
save_plan sv id r w =
    exec sv
      (update_task id (λ t. record t {
        understanding = some r.understanding;
        execution_plan = some r.execution_plan;
        risk_level = some r.risk_level;
        intent_type = some r.intent_type;
        status = next_status r;
        updated_at = sv.now w.tick;
      }))
      w

-- `go s.autoTitleSession(…)`
start_title : ℕ → Option ℕ → String → Io (Unit {0})
start_title user none input w = (tt, w)
start_title user (some session) input w = start (auto_title user session input) w

-- From the model's answer on.
unfoldable pub record_answer :
    Services → ℕ → Task → UnderstandingResult → Io (Option UnderstandingResult)
unfolding start_title
record_answer sv id t r w =
    let input = or_empty t.input_text in
    let (linked, w₁) = link_parent sv id r.related_task_id w in
    let (ruled, w₂) = save_rule sv t.user_id r w₁ in
    let (saved, w₃) = save_plan sv id r w₂ in
    let (told, w₄) = send t.user_id (understood_event id input r) w₃ in
    let w₅ =
      if r.execution_plan.requires_confirmation
      then (send t.user_id (confirm_event id input r) w₄).1
      else w₄ in
    let (started, w₆) = start_title t.user_id t.session_id input w₅ in (some r, w₆)

-- The model is asked, with what the user has going on.
unfoldable pub ask_model :
    Services → UnderstandingService → ℕ → Task → World → Result Response × World
ask_model sv s id t w =
    let input = or_empty t.input_text in
    let (ctx, w₁) = gather sv id t w in
    let (told, w₂) = send t.user_id (reading_event id input) w₁ in
    call sv s.claude (build_understanding_prompt ctx)
      (record { role = Role.user; content = plain input } ∷ []) [] 4096 w₂

unfoldable pub after_call :
    Services → UnderstandingService → ℕ → Task → Result Response → Io (Option UnderstandingResult)
after_call sv s id t (err e) w = (none, w)
after_call sv s id t (ok resp) w =
    let text = strip_fences (get_text_response resp) in
    record_answer sv id t (interpret (s.parse text) text) w

understand_found :
    Services → UnderstandingService → ℕ → Option Task → Io (Option UnderstandingResult)
understand_found sv s id none w = (none, w)
understand_found sv s id (some t) w =
    let (answer, w') = ask_model sv s id t w in after_call sv s id t answer w'

-- The result, or an error.
unfoldable pub understand : Services → UnderstandingService → ℕ → Io (Option UnderstandingResult)
unfolding understand_found
understand sv s id = do
  row ← query_row sv (λ w. find_by (λ (t : Task). t.id) id w.tasks)
  understand_found sv s id row
