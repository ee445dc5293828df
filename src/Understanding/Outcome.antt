-- ===== src/Understanding/Outcome.antt =====
-- What the reading of a command comes to: `Understand` of understanding.go.
use crew_im.Prelude.{
  ℕ, ◌≡◌, refl, ap, ◌∙◌, true, false, Option, none, some, List, [], arith, ◌==◌, if◌then◌else◌,
  Result, ok, err,
}
use crew_im.Model.{
  Task, TaskStatus, TaskRef, uuid, no_uuid, UnderstandingResult, waiting_confirm, executing,
}
use crew_im.Claude.Model.{Response}
use crew_im.Claude.Client.{get_text_response}
use crew_im.Claude.Calls.{call-LaterThan}
use crew_im.World.{World, Services, ticked}
use crew_im.World.Table.{find_by, find_by-update_by, map_option}
use crew_im.Tasks.Actions.{row}
use crew_im.Understanding.{
  UnderstandingService, next_status, link_parent, save_rule, save_plan, record_answer, understand,
  understand_found, start_title, ask_model, after_call, strip_fences, interpret,
}
use crew_im.Understanding.Context.{gather}

-- A reading that has failed, or decided on a status: what it leaves of the tasks and the jobs.
pub record Decides (id : ℕ) (s : TaskStatus) (w w' : World) : Type 0 where
  pub addressed :
      map_option (λ (t : Task). t.status) (row id w') ≡ map_option (λ (t : Task). s) (row id w)
  pub others : (j : ℕ) → (id == j) ≡ false → row j w' ≡ row j w
  pub jobs : w'.enqueued ≡ w.enqueued

gather-tasks :
    (sv : Services) (id : ℕ) (t : Task) (w : World)
    → ((gather sv id t w).1.tasks ≡ w.tasks) × ((gather sv id t w).1.enqueued ≡ w.enqueued)
unfolding gather
gather-tasks sv id t w = (ground arith, ground arith)

abbrev exists_with : TaskStatus → Option Task → Option TaskStatus
exists_with s = map_option (λ (t : Task). s)

link_parent-row :
    (sv : Services) (id j : ℕ) (s : TaskStatus) (r : Option TaskRef) (w : World)
    → (exists_with s (row j (link_parent sv id r w).1) ≡ exists_with s (row j w))
      × ((id == j) ≡ false → row j (link_parent sv id r w).1 ≡ row j w)
      × ((link_parent sv id r w).1.enqueued ≡ w.enqueued)
unfolding link_parent
link_parent-row sv id j s none w = (refl, λ h. refl, refl)
link_parent-row sv id j s (some (no_uuid text)) w = (ground arith, λ h. ground arith, ground arith)
link_parent-row sv id j s (some (uuid p)) w =
    let linked =
      find_by-update_by (λ (t : Task). t.id) j id (λ t. record t { parent_task_id = some p })
        w.tasks (λ t. refl) in
    (ground (arith, linked), λ h. ground (arith, linked), ground arith)

save_rule-tasks :
    (sv : Services) (user : ℕ) (r : UnderstandingResult) (w : World)
    → ((save_rule sv user r w).1.tasks ≡ w.tasks)
      × ((save_rule sv user r w).1.enqueued ≡ w.enqueued)
unfolding save_rule
save_rule-tasks sv user r w = (ground arith, ground arith)

save_plan-row :
    (sv : Services) (id j : ℕ) (r : UnderstandingResult) (w : World)
    → sv.db_ok w.tick ≡ true
    → (map_option (λ (t : Task). t.status) (row id (save_plan sv id r w).1)
        ≡ exists_with (next_status r) (row id w))
      × ((id == j) ≡ false → row j (save_plan sv id r w).1 ≡ row j w)
      × ((save_plan sv id r w).1.enqueued ≡ w.enqueued)
unfolding save_plan
save_plan-row sv id j r w up =
    let f = λ (t : Task). record t {
      understanding = some r.understanding;
      execution_plan = some r.execution_plan;
      risk_level = some r.risk_level;
      intent_type = some r.intent_type;
      status = next_status r;
      updated_at = sv.now w.tick;
    } in
    let at_j = find_by-update_by (λ (t : Task). t.id) j id f w.tasks (λ t. refl) in
    let at_id = find_by-update_by (λ (t : Task). t.id) id id f w.tasks (λ t. refl) in
    (ground (arith, at_id), λ h. ground (arith, at_j), ground arith)

abbrev planned : Services → ℕ → Task → UnderstandingResult → World → World
planned sv id t r w =
    (save_plan sv id r (save_rule sv t.user_id r (link_parent sv id r.related_task_id w).1).1).1

-- What follows the plan leaves the tasks and jobs alone.
record_answer-tasks :
    (sv : Services) (id : ℕ) (t : Task) (r : UnderstandingResult) (w : World)
    → ((record_answer sv id t r w).1.tasks ≡ (planned sv id t r w).tasks)
      × ((record_answer sv id t r w).1.enqueued ≡ (planned sv id t r w).enqueued)
unfolding record_answer start_title
record_answer-tasks sv id t r w = (ground arith, ground arith)

record_answer-Decides :
    (sv : Services) (id : ℕ) (t : Task) (r : UnderstandingResult) (w : World)
    → ((n : ℕ) → sv.db_ok n ≡ true)
    → Decides id (next_status r) w (record_answer sv id t r w).1
record_answer-Decides sv id t r w up =
    let w₁ = (link_parent sv id r.related_task_id w).1 in
    let w₂ = (save_rule sv t.user_id r w₁).1 in
    let (tasks, jobs) = record_answer-tasks sv id t r w in
    let ruled = save_rule-tasks sv t.user_id r w₁ in
    let by_id = λ (j : ℕ) (rows : List Task). find_by (λ (u : Task). u.id) j rows in
    record {
      addressed = rw tasks (
          (save_plan-row sv id id r w₂ (up w₂.tick)).0
          ∙ ap (λ (rows : List Task). exists_with (next_status r) (by_id id rows)) ruled.0
          ∙ (link_parent-row sv id id (next_status r) r.related_task_id w).0);
      others = λ j h. rw tasks (
          (save_plan-row sv id j r w₂ (up w₂.tick)).1 h
          ∙ ap (by_id j) ruled.0
          ∙ (link_parent-row sv id j (next_status r) r.related_task_id w).1 h);
      jobs =
          jobs
          ∙ (save_plan-row sv id id r w₂ (up w₂.tick)).2
          ∙ ruled.1
          ∙ (link_parent-row sv id id (next_status r) r.related_task_id w).2;
    }

Decides-from :
    (id : ℕ) (s : TaskStatus) (v w w' : World)
    → v.tasks ≡ w.tasks
    → v.enqueued ≡ w.enqueued
    → Decides id s v w'
    → Decides id s w w'
Decides-from id s v w w' h k d = record {
  addressed = rw h at d.addressed;
  others = λ j n. rw h at (d.others j n);
  jobs = d.jobs ∙ k;
}

-- Until the answer of the model the tasks and jobs are left alone.
ask_model-tasks :
    (sv : Services) (s : UnderstandingService) (id : ℕ) (t : Task) (w : World)
    → ((ask_model sv s id t w).1.tasks ≡ w.tasks)
      × ((ask_model sv s id t w).1.enqueued ≡ w.enqueued)
unfolding ask_model
ask_model-tasks sv s id t w =
    let later = (call-LaterThan sv s.claude _ _ [] 4096 _).0 in
    let (tasks, jobs) = gather-tasks sv id t w in
    (ap (λ (v : World). v.tasks) later ∙ tasks, ap (λ (v : World). v.enqueued) later ∙ jobs)

record_answer-some :
    (sv : Services) (id : ℕ) (t : Task) (r : UnderstandingResult) (w : World)
    → (record_answer sv id t r w).0 ≡ some r
unfolding record_answer
record_answer-some sv id t r w = refl

after_call-Decides :
    (sv : Services) (s : UnderstandingService) (id : ℕ) (t : Task) (answer : Result Response)
    (r : UnderstandingResult) (w : World)
    → ((n : ℕ) → sv.db_ok n ≡ true)
    → (after_call sv s id t answer w).0 ≡ some r
    → Decides id (next_status r) w (after_call sv s id t answer w).1
unfolding after_call
after_call-Decides sv s id t (err e) r w up h = cc
after_call-Decides sv s id t (ok resp) r w up h =
    let text = strip_fences (get_text_response resp) in
    let read = interpret (s.parse text) text in
    let same : read ≡ r = cc (record_answer-some sv id t read w) in
    rw (← same) (record_answer-Decides sv id t read w up)

understand_found-Decides :
    (sv : Services) (s : UnderstandingService) (id : ℕ) (found : Option Task)
    (r : UnderstandingResult) (w : World)
    → ((n : ℕ) → sv.db_ok n ≡ true)
    → (understand_found sv s id found w).0 ≡ some r
    → Decides id (next_status r) w (understand_found sv s id found w).1
unfolding understand_found
understand_found-Decides sv s id none r w up h = cc
understand_found-Decides sv s id (some t) r w up h =
    let (answer, w') = ask_model sv s id t w in
    let (tasks, jobs) = ask_model-tasks sv s id t w in
    Decides-from id (next_status r) w' w _ tasks jobs
      (after_call-Decides sv s id t answer r w' up h)

after_call_fails :
    (sv : Services) (s : UnderstandingService) (id : ℕ) (t : Task) (answer : Result Response)
    (w : World)
    → (after_call sv s id t answer w).0 ≡ none
    → ((after_call sv s id t answer w).1.tasks ≡ w.tasks)
      × ((after_call sv s id t answer w).1.enqueued ≡ w.enqueued)
unfolding after_call
after_call_fails sv s id t (err e) w h = (refl, refl)
after_call_fails sv s id t (ok resp) w h = cc (
    record_answer-some sv id t
      (interpret (s.parse (strip_fences (get_text_response resp)))
        (strip_fences (get_text_response resp)))
      w)

-- A reading that fails leaves the tasks and jobs alone.
understand_found_fails :
    (sv : Services) (s : UnderstandingService) (id : ℕ) (found : Option Task) (w : World)
    → (understand_found sv s id found w).0 ≡ none
    → ((understand_found sv s id found w).1.tasks ≡ w.tasks)
      × ((understand_found sv s id found w).1.enqueued ≡ w.enqueued)
unfolding understand_found
understand_found_fails sv s id none w h = (refl, refl)
understand_found_fails sv s id (some t) w h =
    let (answer, w') = ask_model sv s id t w in
    let (tasks, jobs) = ask_model-tasks sv s id t w in
    let (same, more) = after_call_fails sv s id t answer w' h in (same ∙ tasks, more ∙ jobs)

-- With a database that works, a command that is understood leaves its task waiting for a
-- confirmation exactly where the plan wants one, and executing otherwise, whatever the status was
-- before; the other tasks are as they were, and no job is made yet.
pub understand-Decides :
    (sv : Services) (s : UnderstandingService) (id : ℕ) (r : UnderstandingResult) (w : World)
    → ((n : ℕ) → sv.db_ok n ≡ true)
    → (understand sv s id w).0 ≡ some r
    → Decides id
        (if r.execution_plan.requires_confirmation then waiting_confirm else executing)
        w
        (understand sv s id w).1
unfolding understand next_status
understand-Decides sv s id r w up h =
    Decides-from id _ (ticked w) w _ refl refl
      (understand_found-Decides sv s id _ r (ticked w) up h)

-- A command whose reading fails, for want of the task, of the database or of the model, leaves
-- every task and the jobs as they were: the task keeps its status, whichever statements fail.
pub understand_fails :
    (sv : Services) (s : UnderstandingService) (id j : ℕ) (w : World)
    → (understand sv s id w).0 ≡ none
    → (row j (understand sv s id w).1 ≡ row j w) × ((understand sv s id w).1.enqueued ≡ w.enqueued)
unfolding understand
understand_fails sv s id j w h =
    let (tasks, jobs) = understand_found_fails sv s id _ (ticked w) h in (rw tasks, jobs)
