-- ===== src/Orchestrator/Frames.antt =====
-- What the execution of a task leaves alone in general: orchestrator.go.
use crew_im.Prelude.{
  ℕ, ◌+◌, String, ◌≡◌, refl, inl, inr, ◌&&◌, Option, none, some, List, [], ◌∷◌, ◌++◌, Bool-cases,
  All,
}
use crew_im.Model.{Task, SubTask, ExecutionStep, SubTaskResult, SubTaskStatus, output, error}
use crew_im.World.{World, Services, Io, ticked, is_none}
use crew_im.World.Table.{find_by}
use crew_im.Tasks.Actions.{row}
use crew_im.Claude.Client.{call_simple}
use crew_im.Claude.Calls.{call-LaterThan}
use crew_im.Runner.{AgentRunner, run, RunOutcome, finished, run_failed, error_text}
use crew_im.Runner.Frames.{IsFrame, Respects, run-Frame, stay, later}
use crew_im.Orchestrator.{
  or_empty, generate_fail_suggestion, set_failed, set_completed, fail_task, insert_sub_task,
  finish_sub_task, full_error, StepsOutcome, all_done, stopped, after_run, config, run_steps,
  after_steps, execute_steps, execute, execute_found, steps_of,
}

module _ (R : World → World → Type 0) (sv : Services) (r : AgentRunner) (id user : ℕ)
    (frame : IsFrame user R) (tools : All (Respects user R) r.registry) where
  suggestion-Frame :
      (reason : String) (w : World) → R w (generate_fail_suggestion sv r.claude reason w).1
  unfolding generate_fail_suggestion call_simple
  suggestion-Frame reason w = rw ((call-LaterThan sv r.claude _ _ _ _ w).0) (later user R frame w _)

  set_failed-Frame : (reason : String) (w : World) → R w (set_failed sv id reason w).1
  unfolding set_failed
  set_failed-Frame reason w = elim (Bool-cases (sv.db_ok w.tick)) [
    | inl e ↦ rw e (frame.own w (w.tick + 1) _ w.sub_tasks w.execution_logs)
    | inr e ↦ rw e (later user R frame w (w.tick + 1))
  ]

  fail_task-Frame : (reason : String) (w : World) → R w (fail_task sv r id user reason w).1
  unfolding fail_task
  fail_task-Frame reason w =
      let (suggestion, v) = generate_fail_suggestion sv r.claude reason w in
      let u = (set_failed sv id (full_error reason suggestion) v).1 in
      frame.along w v _ (suggestion-Frame reason w)
        (frame.along v u _ (set_failed-Frame (full_error reason suggestion) v) (frame.pushes u _))

  finish-Frame :
      (sub_id : Option ℕ) (s : SubTaskStatus) (result : SubTaskResult) (w : World)
      → R w (finish_sub_task sv sub_id s result w).1
  unfolding finish_sub_task
  finish-Frame none s result w = elim (Bool-cases (sv.db_ok w.tick)) [
    | inl e ↦ rw e (later user R frame w (w.tick + 1))
    | inr e ↦ rw e (later user R frame w (w.tick + 1))
  ]
  finish-Frame (some n) s result w = elim (Bool-cases (sv.db_ok w.tick)) [
    | inl e ↦ rw e (frame.own w (w.tick + 1) w.tasks _ w.execution_logs)
    | inr e ↦ rw e (later user R frame w (w.tick + 1))
  ]

  insert-Frame :
      (index : ℕ) (description : String) (w : World)
      → R w (insert_sub_task sv id index description w).1
  unfolding insert_sub_task
  insert-Frame index description w =
      elim (Bool-cases (
        sv.db_ok w.tick
        && is_none (find_by (λ (s : SubTask). s.id) (sv.new_id w.tick) w.sub_tasks))) [
          | inl e ↦ rw e (frame.own w (w.tick + 1) w.tasks _ w.execution_logs)
          | inr e ↦ rw e (later user R frame w (w.tick + 1))
        ]

  after_run-Frame :
      (next : List String → Io StepsOutcome) (index : ℕ) (sub_id : Option ℕ) (results : List String)
      (outcome : RunOutcome) (w : World)
      → ((rs : List String) (v : World) → R v (next rs v).1)
      → R w (after_run sv r id user next index sub_id results outcome w).1
  unfolding after_run
  after_run-Frame next index sub_id results (finished out n) w h =
      let v = (finish_sub_task sv sub_id SubTaskStatus.completed (output out n) w).1 in
      frame.along w v _ (finish-Frame sub_id SubTaskStatus.completed (output out n) w)
        (h (results ++ out ∷ []) v)
  after_run-Frame next index sub_id results (run_failed e) w h =
      let v = (finish_sub_task sv sub_id SubTaskStatus.failed (error (error_text e)) w).1 in
      frame.along w v _ (finish-Frame sub_id SubTaskStatus.failed (error (error_text e)) w)
        (fail_task-Frame _ v)

  run_steps-Frame :
      (index : ℕ) (steps : List ExecutionStep) (results : List String) (w : World)
      → R w (run_steps sv r id user index steps results w).1
  unfolding run_steps
  run_steps-Frame index [] results w = stay user R frame w
  run_steps-Frame index (step ∷ steps) results w =
      let (sub_id, w₁) = insert_sub_task sv id index step.description w in
      let (outcome, w₂) = run sv r (config sv r id user sub_id step) w₁ in
      frame.along w w₁ _ (insert-Frame index step.description w) (
        frame.along w₁ w₂ _ (run-Frame R sv r (config sv r id user sub_id step) frame tools w₁) (
          after_run-Frame (run_steps sv r id user (index + 1) steps) index sub_id results outcome w₂
            (λ rs v. run_steps-Frame (index + 1) steps rs v)))

  after_steps-Frame :
      (understanding : String) (p : StepsOutcome) (w : World)
      → R w (after_steps sv r id user understanding p w).1
  unfolding after_steps set_completed
  after_steps-Frame understanding stopped w = stay user R frame w
  after_steps-Frame understanding (all_done results) w = elim (Bool-cases (sv.db_ok w.tick)) [
    | inl e ↦ rw e (
        frame.along w _ _ (frame.own w (w.tick + 1) _ w.sub_tasks w.execution_logs)
          (frame.pushes _ _))
    | inr e ↦
        rw e (
          frame.along w (ticked w) _ (later user R frame w (w.tick + 1))
            (frame.pushes (ticked w) _))
  ]

  execute_steps-Frame :
      (t : Task) (steps : List ExecutionStep) (w : World)
      → t.user_id ≡ user
      → R w (execute_steps sv r id t steps w).1
  unfolding execute_steps
  execute_steps-Frame t [] w same = rw same (fail_task-Frame _ w)
  execute_steps-Frame t (step ∷ steps) w same =
      let (outcome, v) = run_steps sv r id user 0 (step ∷ steps) [] w in
      rw same (
        frame.along w v _ (run_steps-Frame 0 (step ∷ steps) [] w)
          (after_steps-Frame (or_empty t.understanding) outcome v))

  execute_found-Frame :
      (found : Option Task) (w : World)
      → ((t : Task) → found ≡ some t → t.user_id ≡ user)
      → R w (execute_found sv r id found w).1
  unfolding execute_found
  execute_found-Frame none w own = stay user R frame w
  execute_found-Frame (some t) w own =
      execute_steps-Frame t (steps_of t.execution_plan) w (own t refl)

  -- The execution of a task goes along with every relation that the tools go along with, and that the
  -- work of the owner of the task does.
  pub execute-Frame :
      (w : World) → ((t : Task) → row id w ≡ some t → t.user_id ≡ user) → R w (execute sv r id w).1
  unfolding execute
  execute-Frame w own = elim (Bool-cases (sv.db_ok w.tick)) [
    | inl up ↦ rw up (
        frame.along w (ticked w) _ (later user R frame w (w.tick + 1))
          (execute_found-Frame (row id w) (ticked w) own))
    | inr down ↦ rw down (
        frame.along w (ticked w) _ (later user R frame w (w.tick + 1))
          (execute_found-Frame none (ticked w) (λ t e. cc)))
  ]
