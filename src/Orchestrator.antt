-- ===== src/Orchestrator.antt =====
-- `Orchestrator` of server/internal/service/orchestrator.go: the steps of a task's plan, one after the
-- other, each by a run of the agent; then the task is completed, or failed at the first step that
-- fails. The JSON of plans and results is what they were marshalled from.

pub mod Outcome
pub mod Jobs
pub mod Frames
pub mod Foreign
use crew_im.Prelude.{
  ℕ, ◌+◌, String, Bool, Option, none, some, List, [], ◌∷◌, ◌++◌, if◌then◌else◌, is_empty, join,
  ◌<>◌, decimal, trim_space, Result, ok, err,
}
use crew_im.Model.{
  Task, SubTask, SubTaskStatus, SubTaskResult, output, error, ExecutionPlan, ExecutionStep,
  ResultCard, TaskBrief, PushEvent, TaskStatus, completed, failed, task_completed, task_failed,
}
use crew_im.Claude.Client.{ClaudeClient, call_simple}
use crew_im.World.{
  World, Services, Io, ◌>>=◌, ◌>>◌, pure, query_row, insert_row, exec, send, update_task, is_none,
}
use crew_im.World.Table.{find_by, update_by}
use crew_im.Runner.{AgentRunner, RunConfig, RunOutcome, finished, run_failed, error_text, run}

abbrev pub bare_brief : ℕ → String → TaskStatus → TaskBrief
bare_brief id understanding status = record {
  id = some id;
  input_text = "";
  understanding = understanding;
  status = status;
  created_at = none;
  steps = [];
}

unfoldable pub failed_event : ℕ → String → PushEvent
failed_event id reason = record {
  event_type = task_failed;
  task_id = some id;
  task = some (bare_brief id "" failed);
  message = "";
  result = none;
  reason = reason;
  step = none;
  session_id = none;
  title = "";
}

unfoldable pub completed_event : ℕ → String → ResultCard → PushEvent
completed_event id understanding card = record {
  event_type = task_completed;
  task_id = some id;
  task = some (bare_brief id understanding completed);
  message = "";
  result = some card;
  reason = "";
  step = none;
  session_id = none;
  title = "";
}

-- `generateFailSuggestion`
suggestion_of : Result String → String
suggestion_of (ok resp) = trim_space resp
suggestion_of (err e) = ""

unfoldable pub generate_fail_suggestion : Services → ClaudeClient → String → Io String
unfolding suggestion_of
generate_fail_suggestion sv c reason w =
    let (answer, w') =
      call_simple sv c "你是一个管理助手。任务执行失败了，请用一句话给出最实用的下一步建议。不要重复错误原因，只说建议。" ("失败原因：" <> reason) 100
        w in
    (suggestion_of answer, w')

unfoldable pub full_error : String → String → String
full_error reason suggestion =
    if is_empty suggestion then reason else reason <> "\n\n💡 建议：" <> suggestion

-- `UPDATE tasks SET status = 'failed', error = $1, updated_at = NOW() WHERE id = $2`
unfoldable pub set_failed : Services → ℕ → String → Io Bool
set_failed sv id reason w =
    exec sv
      (update_task id (λ t. record t {
        status = TaskStatus.failed;
        error = some reason;
        updated_at = sv.now w.tick;
      }))
      w

-- `UPDATE tasks SET status = 'completed', result = $1, updated_at = NOW() WHERE id = $2`
unfoldable pub set_completed : Services → ℕ → ResultCard → Io Bool
set_completed sv id card w =
    exec sv
      (update_task id (λ t. record t {
        status = TaskStatus.completed;
        result = some card;
        updated_at = sv.now w.tick;
      }))
      w

unfoldable pub fail_task : Services → AgentRunner → ℕ → ℕ → String → Io (Unit {0})
fail_task sv r id user reason = do
  suggestion ← generate_fail_suggestion sv r.claude reason
  set_failed sv id (full_error reason suggestion)
  send user (failed_event id (full_error reason suggestion))

-- `INSERT INTO sub_tasks … RETURNING id`: without an id where it fails.
unfoldable pub insert_sub_task : Services → ℕ → ℕ → String → Io (Option ℕ)
insert_sub_task sv task_id index description w =
    insert_row sv (λ id v. is_none (find_by (λ (s : SubTask). s.id) id v.sub_tasks))
      (λ id v. record v {
        sub_tasks =
            v.sub_tasks
            ++ record {
              id = id;
              task_id = task_id;
              step_index = index;
              description = description;
              status = SubTaskStatus.executing;
              result = none;
              started_at = some (sv.now w.tick);
              completed_at = none;
            }
              ∷ [];
      })
      w

-- `UPDATE sub_tasks SET status = …, result = $1, completed_at = NOW() WHERE id = $2`, an error where
-- there is no id.
update_sub_task : Option ℕ → (SubTask → SubTask) → World → World
update_sub_task none f w = w
update_sub_task (some id) f w = record w {
  sub_tasks = update_by (λ (s : SubTask). s.id) id f w.sub_tasks;
}

unfoldable pub finish_sub_task : Services → Option ℕ → SubTaskStatus → SubTaskResult → Io Bool
unfolding update_sub_task
finish_sub_task sv id status result w =
    exec sv
      (update_sub_task id (λ s. record s {
        status = status;
        result = some result;
        completed_at = some (sv.now w.tick);
      }))
      w

-- How the loop over the steps ends: with the outputs, or behind a failed step.
pub data StepsOutcome : Type 0 where
  all_done : List String → StepsOutcome
  stopped : StepsOutcome

module _ (sv : Services) (r : AgentRunner) (id user : ℕ) where
  -- A step from its run on; `next` is the rest of the loop.
  unfoldable pub after_run :
      (List String → Io StepsOutcome) → ℕ → Option ℕ → List String → RunOutcome → Io StepsOutcome
  after_run next index sub_id results (finished out n) = do
    finish_sub_task sv sub_id SubTaskStatus.completed (output out n)
    next (results ++ out ∷ [])
  after_run next index sub_id results (run_failed e) = do
    finish_sub_task sv sub_id SubTaskStatus.failed (error (error_text e))
    fail_task sv r id user ("Step " <> decimal (index + 1) <> " failed: " <> error_text e)
    pure stopped

  abbrev pub config : Option ℕ → ExecutionStep → RunConfig
  config sub_id step = record {
    user_id = user;
    task_id = id;
    sub_task_id = sub_id;
    description = step.description;
  }

  unfoldable pub run_steps : ℕ → List ExecutionStep → List String → Io StepsOutcome
  unfolding after_run
  run_steps index [] results w = (all_done results, w)
  run_steps index (step ∷ steps) results w =
      let (sub_id, w₁) = insert_sub_task sv id index step.description w in
      let (outcome, w₂) = run sv r (config sub_id step) w₁ in
      after_run (run_steps (index + 1) steps) index sub_id results outcome w₂

  unfoldable pub after_steps : String → StepsOutcome → Io (Unit {0})
  after_steps understanding stopped w = (tt, w)
  after_steps understanding (all_done results) w =
      let card : ResultCard = record { title = understanding; body = join "\n\n" results } in
      let (done, w') = set_completed sv id card w in
      send user (completed_event id understanding card) w'

abbrev pub or_empty : Option String → String
or_empty none = ""
or_empty (some s) = s

unfoldable pub steps_of : Option ExecutionPlan → List ExecutionStep
steps_of none = []
steps_of (some plan) = plan.steps

unfoldable pub execute_steps :
    Services → AgentRunner → ℕ → Task → List ExecutionStep → Io (Unit {0})
unfolding after_steps
execute_steps sv r id t [] w = fail_task sv r id t.user_id "No execution plan" w
execute_steps sv r id t (step ∷ steps) w =
    let (outcome, w') = run_steps sv r id t.user_id 0 (step ∷ steps) [] w in
    after_steps sv r id t.user_id (or_empty t.understanding) outcome w'

execute_found : Services → AgentRunner → ℕ → Option Task → Io (Unit {0})
execute_found sv r id none w = (tt, w)
execute_found sv r id (some t) w = execute_steps sv r id t (steps_of t.execution_plan) w

unfoldable pub execute : Services → AgentRunner → ℕ → Io (Unit {0})
unfolding execute_found
execute sv r id = do
  row ← query_row sv (λ w. find_by (λ (t : Task). t.id) id w.tasks)
  execute_found sv r id row
