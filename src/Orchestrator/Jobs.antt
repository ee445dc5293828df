-- ===== src/Orchestrator/Jobs.antt =====
-- The execution of a task makes no job for the workers: orchestrator.go.
use crew_im.Prelude.{
  ℕ, ◌+◌, String, ◌≡◌, refl, ap, ◌∙◌, inl, inr, Option, none, some, List, [], ◌∷◌, arith,
  if◌then◌else◌, Bool-cases, All,
}
use crew_im.Model.{Task, ExecutionStep, SubTaskResult, SubTaskStatus}
use crew_im.World.{World, Services, Io, ticked}
use crew_im.Tasks.Actions.{row}
use crew_im.Claude.Client.{ClaudeClient, call_simple}
use crew_im.Claude.Calls.{call-LaterThan}
use crew_im.Runner.{AgentRunner, run, RunOutcome, finished, run_failed}
use crew_im.Runner.Rounds.{IsQuiet, run-Kept}
use crew_im.Orchestrator.{
  generate_fail_suggestion, set_failed, set_completed, fail_task, insert_sub_task, finish_sub_task,
  StepsOutcome, all_done, stopped, after_run, config, run_steps, after_steps, execute_steps,
  execute, execute_found, steps_of,
}

abbrev Idle : World → World → Type 0
Idle w w' = w'.enqueued ≡ w.enqueued

suggestion-Idle :
    (sv : Services) (c : ClaudeClient) (reason : String) (w : World)
    → Idle w (generate_fail_suggestion sv c reason w).1
unfolding generate_fail_suggestion call_simple
suggestion-Idle sv c reason w = ap (λ (v : World). v.enqueued) ((call-LaterThan sv c _ _ _ _ w).0)

module _ (sv : Services) (r : AgentRunner) (id user : ℕ) where
  fail_task-Idle : (reason : String) (w : World) → Idle w (fail_task sv r id user reason w).1
  unfolding fail_task set_failed
  fail_task-Idle reason w =
      let asked = suggestion-Idle sv r.claude reason w in
      let w' = (generate_fail_suggestion sv r.claude reason w).1 in
      elim (Bool-cases (sv.db_ok w'.tick)) [ inl e ↦ rw e asked | inr e ↦ rw e asked ]

  finish-Idle :
      (sub_id : Option ℕ) (s : SubTaskStatus) (result : SubTaskResult) (w : World)
      → Idle w (finish_sub_task sv sub_id s result w).1
  unfolding finish_sub_task
  finish-Idle none s result w = ground arith
  finish-Idle (some n) s result w = ground arith

  insert-Idle :
      (index : ℕ) (description : String) (w : World)
      → Idle w (insert_sub_task sv id index description w).1
  unfolding insert_sub_task
  insert-Idle index description w = ground arith

  after_run-Idle :
      (next : List String → Io StepsOutcome) (index : ℕ) (sub_id : Option ℕ) (results : List String)
      (outcome : RunOutcome) (w : World)
      → ((rs : List String) (v : World) → Idle v (next rs v).1)
      → Idle w (after_run sv r id user next index sub_id results outcome w).1
  unfolding after_run
  after_run-Idle next index sub_id results (finished out n) w h = h _ _ ∙ finish-Idle sub_id _ _ w
  after_run-Idle next index sub_id results (run_failed e) w h =
      fail_task-Idle _ _ ∙ finish-Idle sub_id _ _ w

  module _ (quiet : All IsQuiet r.registry) where
    run_steps-Idle :
        (index : ℕ) (steps : List ExecutionStep) (results : List String) (w : World)
        → Idle w (run_steps sv r id user index steps results w).1
    unfolding run_steps
    run_steps-Idle index [] results w = refl
    run_steps-Idle index (step ∷ steps) results w =
        let (sub_id, w₁) = insert_sub_task sv id index step.description w in
        let (outcome, w₂) = run sv r (config sv r id user sub_id step) w₁ in
        after_run-Idle (run_steps sv r id user (index + 1) steps) index sub_id results outcome w₂
          (λ rs v. run_steps-Idle (index + 1) steps rs v)
        ∙ (run-Kept sv r (config sv r id user sub_id step) quiet w₁).enqueued
        ∙ insert-Idle index step.description w

    after_steps-Idle :
        (understanding : String) (p : StepsOutcome) (w : World)
        → Idle w (after_steps sv r id user understanding p w).1
    unfolding after_steps set_completed
    after_steps-Idle understanding stopped w = refl
    after_steps-Idle understanding (all_done results) w = ground arith

    execute_steps-Idle :
        (t : Task) (steps : List ExecutionStep) (w : World)
        → t.user_id ≡ user
        → Idle w (execute_steps sv r id t steps w).1
    unfolding execute_steps
    execute_steps-Idle t [] w same = rw same (fail_task-Idle _ w)
    execute_steps-Idle t (step ∷ steps) w same =
        rw same (after_steps-Idle _ _ _ ∙ run_steps-Idle 0 (step ∷ steps) [] w)

execute_found-Idle :
    (sv : Services) (r : AgentRunner) (id : ℕ)
    → All IsQuiet r.registry
    → (found : Option Task) (w : World) → Idle w (execute_found sv r id found w).1
unfolding execute_found
execute_found-Idle sv r id quiet none w = refl
execute_found-Idle sv r id quiet (some t) w =
    execute_steps-Idle sv r id t.user_id quiet t (steps_of t.execution_plan) w refl

-- An execution makes no job, whichever statements fail.
pub execute-enqueued :
    (sv : Services) (r : AgentRunner) (id : ℕ) (w : World)
    → All IsQuiet r.registry
    → (execute sv r id w).1.enqueued ≡ w.enqueued
unfolding execute execute_found
execute-enqueued sv r id w quiet =
    execute_found-Idle sv r id quiet (if sv.db_ok w.tick then row id w else none) (ticked w)

-- There is nothing to execute where there is no task.
pub execute_missing :
    (sv : Services) (r : AgentRunner) (id : ℕ) (w : World)
    → row id w ≡ none
    → (execute sv r id w).1.tasks ≡ w.tasks
unfolding execute execute_found
execute_missing sv r id w e = elim (Bool-cases (sv.db_ok w.tick)) [
  | inl up ↦ rw (up, e) refl
  | inr down ↦ rw down refl
]
