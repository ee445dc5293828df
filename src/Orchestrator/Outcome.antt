-- ===== src/Orchestrator/Outcome.antt =====
-- How the execution of a task ends: orchestrator.go, with a database that works.
use crew_im.Prelude.{
  Bool, ℕ, ◌+◌, String, ◌≡◌, refl, ap, ◌∙◌, true, false, Option, none, some, List, [], ◌∷◌, ◌++◌,
  arith, ◌==◌, All,
}
use crew_im.Model.{
  Task, TaskStatus, completed, failed, ExecutionStep, output, PushEvent, EventType, task_completed,
  task_failed, SubTaskResult, SubTaskStatus,
}
use crew_im.World.{World, Services, Io, ticked}
use crew_im.World.Table.{update_by, find_by-update_by, map_option}
use crew_im.Tasks.Actions.{row}
use crew_im.Claude.Client.{ClaudeClient, call_simple}
use crew_im.Claude.Calls.{call-LaterThan}
use crew_im.Runner.{run, AgentRunner, RunOutcome, finished, run_failed}
use crew_im.Runner.Rounds.{IsQuiet, run-Kept}
use crew_im.Orchestrator.{
  generate_fail_suggestion, set_failed, set_completed, fail_task, insert_sub_task, finish_sub_task,
  StepsOutcome, all_done, stopped, after_run, config, run_steps, after_steps, failed_event,
  completed_event, execute_steps, execute, steps_of,
}

-- The addressed task has a status, every other row is as it was, and the last push tells the user.
pub record EndsIn (id user : ℕ) (s : TaskStatus) (e : EventType) (w w' : World) : Type 0 where
  pub addressed :
      map_option (λ (t : Task). t.status) (row id w') ≡ map_option (λ (t : Task). s) (row id w)
  pub others : (j : ℕ) → (id == j) ≡ false → row j w' ≡ row j w
  pub told :
      (before : List (ℕ × PushEvent)) × (event : PushEvent) × (w'.pushed
        ≡ before ++ (user, event) ∷ [])
      × (event.event_type ≡ e)

EndsIn-from :
    (id user : ℕ) (s : TaskStatus) (e : EventType) (v w w' : World)
    → v.tasks ≡ w.tasks
    → EndsIn id user s e v w'
    → EndsIn id user s e w w'
EndsIn-from id user s e v w w' h k = record {
  addressed = rw h at k.addressed;
  others = λ j n. rw h at (k.others j n);
  told = k.told;
}

status_lem :
    (f : Task → Task) (s : TaskStatus) (o : Option Task)
    → ((t : Task) → (f t).status ≡ s)
    → map_option (λ (t : Task). t.status) (map_option f o) ≡ map_option (λ (t : Task). s) o
status_lem f s none h = refl
status_lem f s (some t) h = ap some (h t)

suggestion-tasks :
    (sv : Services) (c : ClaudeClient) (reason : String) (w : World)
    → (generate_fail_suggestion sv c reason w).1.tasks ≡ w.tasks
unfolding generate_fail_suggestion call_simple
suggestion-tasks sv c reason w = ap (λ (v : World). v.tasks) ((call-LaterThan sv c _ _ _ _ w).0)

EndsIn-update :
    (id user : ℕ) (s : TaskStatus) (e : EventType) (event : PushEvent) (f : Task → Task)
    (v w : World)
    → ((t : Task) → (f t).id ≡ t.id)
    → ((t : Task) → (f t).status ≡ s)
    → w.tasks ≡ update_by (λ (t : Task). t.id) id f v.tasks
    → w.pushed ≡ v.pushed ++ (user, event) ∷ []
    → event.event_type ≡ e
    → EndsIn id user s e v w
EndsIn-update id user s e event f v w same sets rows pushes type = record {
  addressed =
      rw (rows, find_by-update_by (λ (t : Task). t.id) id id f v.tasks same, ==_self id)
        (status_lem f s (row id v) sets);
  others = λ j n. rw (rows, find_by-update_by (λ (t : Task). t.id) j id f v.tasks same, n);
  told = (v.pushed, event, pushes, type);
}
  where
    ==_self : (n : ℕ) → (n == n) ≡ true
    ==_self n = ground arith

-- How a task ends, and the event that tells of it.
abbrev pub verdict : Bool → TaskStatus × EventType
verdict true = (completed, task_completed)
verdict false = (failed, task_failed)

-- Whether the runs of the agent for some steps, one after the other, finish all, each in the world that
-- the one before and the two statements about its subtask have left.
unfoldable pub all_finish : Services → AgentRunner → ℕ → ℕ → ℕ → List ExecutionStep → World → Bool
all_finish sv r id user index [] w = true
all_finish sv r id user index (step ∷ steps) w =
    let (sub_id, w₁) = insert_sub_task sv id index step.description w in
    let (outcome, w₂) = run sv r (config sv r id user sub_id step) w₁ in
    elim outcome [
      | finished out n ↦
          all_finish sv r id user (index + 1) steps
            (finish_sub_task sv sub_id SubTaskStatus.completed (output out n) w₂).1
      | run_failed e ↦ false
    ]

-- A plan goes well where it has a step and all its steps finish.
unfoldable pub goes_well : Services → AgentRunner → ℕ → ℕ → List ExecutionStep → World → Bool
goes_well sv r id user [] w = false
goes_well sv r id user (step ∷ steps) w = all_finish sv r id user 0 (step ∷ steps) w

-- What the loop over the steps says of them.
final_of : StepsOutcome → Bool
final_of (all_done results) = true
final_of stopped = false

module _ (sv : Services) (r : AgentRunner) (ok : (n : ℕ) → sv.db_ok n ≡ true) (id user : ℕ) where
  fail_task-EndsIn :
      (reason : String) (w : World)
      → EndsIn id user failed task_failed w (fail_task sv r id user reason w).1
  unfolding fail_task set_failed failed_event
  fail_task-EndsIn reason w =
      let v = (generate_fail_suggestion sv r.claude reason w).1 in
      EndsIn-from id user failed task_failed v w _ (suggestion-tasks sv r.claude reason w) (
        rw (ok v.tick)
          (EndsIn-update id user failed task_failed _ _ v _ (λ t. refl) (λ t. refl) refl refl refl))

  -- The loop leaves the tasks alone, or ends with the failure of the task.
  abbrev StepsEnd : World → StepsOutcome × World → Type 0
  StepsEnd w (all_done results, w') = w'.tasks ≡ w.tasks
  StepsEnd w (stopped, w') = EndsIn id user failed task_failed w w'

  StepsEnd-from :
      (v w : World) (p : StepsOutcome × World) → v.tasks ≡ w.tasks → StepsEnd v p → StepsEnd w p
  StepsEnd-from v w (all_done results, w') h k = k ∙ h
  StepsEnd-from v w (stopped, w') h k = EndsIn-from id user failed task_failed v w w' h k

  finish-tasks :
      (sub_id : Option ℕ) (s : SubTaskStatus) (result : SubTaskResult) (w : World)
      → (finish_sub_task sv sub_id s result w).1.tasks ≡ w.tasks
  unfolding finish_sub_task
  finish-tasks none s result w = rw (ok w.tick)
  finish-tasks (some n) s result w = rw (ok w.tick)

  insert-tasks :
      (index : ℕ) (description : String) (w : World)
      → (insert_sub_task sv id index description w).1.tasks ≡ w.tasks
  unfolding insert_sub_task
  insert-tasks index description w = ground arith

  after_run-StepsEnd :
      (next : List String → Io StepsOutcome) (index : ℕ) (sub_id : Option ℕ) (results : List String)
      (outcome : RunOutcome) (w : World)
      → ((rs : List String) (v : World) → StepsEnd v (next rs v))
      → StepsEnd w (after_run sv r id user next index sub_id results outcome w)
  unfolding after_run
  after_run-StepsEnd next index sub_id results (finished out n) w h =
      StepsEnd-from _ w _ (finish-tasks sub_id _ _ w) (h _ _)
  after_run-StepsEnd next index sub_id results (run_failed e) w h =
      EndsIn-from id user failed task_failed _ w _ (finish-tasks sub_id _ _ w)
        (fail_task-EndsIn _ _)

  after_run-all_finish :
      (next : List String → Io StepsOutcome) (well : World → Bool) (index : ℕ) (sub_id : Option ℕ)
      (results : List String) (outcome : RunOutcome) (w : World)
      → ((rs : List String) (v : World) → final_of (next rs v).0 ≡ well v)
      → final_of (after_run sv r id user next index sub_id results outcome w).0 ≡ elim outcome [
        | finished out n ↦
            well (finish_sub_task sv sub_id SubTaskStatus.completed (output out n) w).1
        | run_failed e ↦ false
      ]
  unfolding after_run final_of
  after_run-all_finish next well index sub_id results (finished out n) w h = h _ _
  after_run-all_finish next well index sub_id results (run_failed e) w h = refl

  run_steps-all_finish :
      (index : ℕ) (steps : List ExecutionStep) (results : List String) (w : World)
      → final_of (run_steps sv r id user index steps results w).0
        ≡ all_finish sv r id user index steps w
  unfolding run_steps all_finish final_of
  run_steps-all_finish index [] results w = refl
  run_steps-all_finish index (step ∷ steps) results w =
      let (sub_id, w₁) = insert_sub_task sv id index step.description w in
      let (outcome, w₂) = run sv r (config sv r id user sub_id step) w₁ in
      after_run-all_finish (run_steps sv r id user (index + 1) steps)
        (all_finish sv r id user (index + 1) steps) index sub_id results outcome w₂
        (λ rs v. run_steps-all_finish (index + 1) steps rs v)

  module _ (quiet : All IsQuiet r.registry) where
    run_steps-StepsEnd :
        (index : ℕ) (steps : List ExecutionStep) (results : List String) (w : World)
        → StepsEnd w (run_steps sv r id user index steps results w)
    unfolding run_steps
    run_steps-StepsEnd index [] results w = refl
    run_steps-StepsEnd index (step ∷ steps) results w =
        let (sub_id, w₁) = insert_sub_task sv id index step.description w in
        StepsEnd-from w₁ w _ (insert-tasks index step.description w) (
          StepsEnd-from _ w₁ _ (run-Kept sv r (config sv r id user sub_id step) quiet w₁).tasks (
            after_run-StepsEnd _ index sub_id results _ _
              (λ rs v. run_steps-StepsEnd (index + 1) steps rs v)))

    after_steps-EndsIn :
        (understanding : String) (v : World) (p : StepsOutcome × World)
        → StepsEnd v p
        → EndsIn id user
            (verdict (final_of p.0)).0
            (verdict (final_of p.0)).1
            v
            (after_steps sv r id user understanding p.0 p.1).1
    unfolding after_steps set_completed completed_event final_of
    after_steps-EndsIn understanding v (stopped, w) h = h
    after_steps-EndsIn understanding v (all_done results, w) h =
        EndsIn-from id user completed task_completed w v _ h (
          rw (ok w.tick) (
            EndsIn-update id user completed task_completed _ _ w _ (λ t. refl) (λ t. refl) refl refl
              refl))

    execute_steps-EndsIn :
        (t : Task) (steps : List ExecutionStep) (w : World)
        → t.user_id ≡ user
        → let final = verdict (goes_well sv r id user steps w) in
          EndsIn id user final.0 final.1 w (execute_steps sv r id t steps w).1
    unfolding execute_steps goes_well
    execute_steps-EndsIn t [] w same = rw same (fail_task-EndsIn _ w)
    execute_steps-EndsIn t (step ∷ steps) w same = rw same (
        rw (← run_steps-all_finish 0 (step ∷ steps) [] w) (
          after_steps-EndsIn _ w (run_steps sv r id user 0 (step ∷ steps) [] w)
            (run_steps-StepsEnd 0 (step ∷ steps) [] w)))

-- With a database that works and tools that keep to their tables, the execution of a task ends: its
-- status is then completed where the plan has a step and the agent's run of every step, one after
-- the other, finishes, and failed where a run fails or there is no step, whatever the status was
-- before; all other tasks are as they were; and the last push, to the task's user, is of a completed
-- or a failed task accordingly.
pub execute-EndsIn :
    (sv : Services) (r : AgentRunner) (id : ℕ) (t : Task) (w : World)
    → ((n : ℕ) → sv.db_ok n ≡ true)
    → All IsQuiet r.registry
    → row id w ≡ some t
    → let final = verdict (goes_well sv r id t.user_id (steps_of t.execution_plan) (ticked w)) in
      EndsIn id t.user_id final.0 final.1 w (execute sv r id w).1
unfolding execute
execute-EndsIn sv r id t w ok quiet e =
    rw (ok w.tick, e)
      (EndsIn-from id t.user_id _ _ (ticked w) w _ refl (
        execute_steps-EndsIn sv r ok id t.user_id quiet t (steps_of t.execution_plan) (ticked w)
          refl))
