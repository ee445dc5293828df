-- ===== src/Server/Spared.antt =====
-- Who changes a task, over everything that the server does: tasks.go, commands.go, worker.go,
-- scheduler.go.
use crew_im.Prelude.{
  ℕ, ◌≡◌, none, some, true, false, refl, get_elem?, remove_at, inl, inr, Bool, Option, String, ◌==◌,
  ◌≢◌, List, ◌++◌, All, arith, Option-cases, ◌∷◌, ◌∙◌, [],
}
use crew_im.World.{
  World, Enqueued, Routine, auto_title, route_via_open_claw, ScheduledJob, ticked, query_rows,
}
use crew_im.World.Table.{find_by-append}
use crew_im.Model.{Task, UnderstandingResult}
use crew_im.Tasks.Actions.{row}
use crew_im.Tasks.Batch.{serve-foreign}
use crew_im.Commands.{CommandReply, http_error, accepted, create_command, follow_up, Gateway}
use crew_im.Commands.Body.{command_text, read_body}
use crew_im.Commands.Effects.{Answers}
use crew_im.Commands.Effects.Replies.{
  create_command-Answers, follow_up-Answers, route_via_gateway_jobs,
}
use crew_im.Understanding.{understand}
use crew_im.Understanding.Outcome.{understand-Decides, understand_fails}
use crew_im.Understanding.Title.Bounds.{auto_title_session-tasks}
use crew_im.Runner.Rounds.{IsQuiet}
use crew_im.Orchestrator.Jobs.{execute_missing}
use crew_im.Orchestrator.Outcome.{execute-EndsIn}
use crew_im.Scheduler.{execute_job, execute_jobs, process_due_jobs, due_jobs}
use crew_im.Scheduler.Steps.{execute_job-tasks}
use crew_im.Server.{
  Program, Move, asks, commands, follows_up, works, goes, ticks, hand_on, do_job, work, run_routine,
  go, move,
}

-- Whether a job is about a task.
abbrev pub names : ℕ → Option Enqueued → Bool
names j none = false
names j (some (Enqueued.understand k)) = k == j
names j (some (Enqueued.execute k)) = k == j

-- A move that is neither a request of the owner about tasks nor a job about this task.
abbrev pub Spares : ℕ → ℕ → Move → World → Type 0
Spares owner j (asks user q) w = owner ≢ user
Spares owner j (commands user body) w = Unit
Spares owner j (follows_up user parent text) w = Unit
Spares owner j (works i) w = names j (get_elem? w.enqueued i) ≡ false
Spares owner j (goes i g) w = Unit
Spares owner j ticks w = Unit

row-append :
    (j : ℕ) (t u : Task) (w w' : World)
    → w'.tasks ≡ w.tasks ++ u ∷ []
    → row j w ≡ some t
    → row j w' ≡ some t
row-append j t u w w' e h =
    let found = find_by-append (λ (v : Task). v.id) j u w.tasks in rw e (rw found (rw h refl))

Answers-row :
    (has_queue : Bool) (user j : ℕ) (text : String) (t : Task) (reply : CommandReply) (w w' : World)
    → Answers has_queue user text w reply w'
    → row j w ≡ some t
    → row j w' ≡ some t
unfolding Answers
Answers-row has_queue user j text t (http_error code) w w' (tasks, pushed, jobs, started) h =
    rw tasks h
Answers-row has_queue user j text t (accepted id via) w w' a h = row-append j t a.task w w' a.rows h

hand_on-row :
    (j id : ℕ) (result : Option UnderstandingResult) (w : World)
    → row j (hand_on id result w) ≡ row j w
unfolding hand_on
hand_on-row j id none w = refl
hand_on-row j id (some r) w = ground arith

module _ (p : Program) (up : (n : ℕ) → p.services.db_ok n ≡ true)
    (quiet : All IsQuiet p.runner.registry) where
  do_job-row :
      (j : ℕ) (job : Enqueued) (w : World)
      → names j (some job) ≡ false
      → row j (do_job p job w) ≡ row j w
  unfolding do_job
  do_job-row j (Enqueued.understand id) w other =
      elim (Option-cases (understand p.services p.understanding id w).0) [
        | inl e ↦ rw e (understand_fails p.services p.understanding id j w e).0
        | inr (r, e) ↦
            (let d = understand-Decides p.services p.understanding id r w up e in
              rw e (hand_on-row j id (some r) _ ∙ d.others j other))
      ]
  do_job-row j (Enqueued.execute id) w other = elim (Option-cases (row id w)) [
    | inl missing ↦ rw (execute_missing p.services p.runner id w missing) refl
    | inr (t, there) ↦ (execute-EndsIn p.services p.runner id t w up quiet there).others j other
  ]

  work-row :
      (j i : ℕ) (o : Option Enqueued) (w : World)
      → names j o ≡ false
      → row j (work p i o w) ≡ row j w
  unfolding work
  work-row j i none w other = refl
  work-row j i (some job) w other =
      do_job-row j job (record w { enqueued = remove_at i w.enqueued }) other

  go-row : (j i : ℕ) (g : Gateway) (o : Option Routine) (w : World) → row j (go p g i o w) ≡ row j w
  unfolding go run_routine
  go-row j i g none w = refl
  go-row j i g (some (auto_title user session text)) w =
      let v = record w { started = remove_at i w.started } in
      rw ((auto_title_session-tasks p.services p.understanding.claude user session text v).0) refl
  go-row j i g (some (route_via_open_claw user id text)) w =
      let v = record w { started = remove_at i w.started } in
      rw ((route_via_gateway_jobs p.commands g user id v).0) refl

  execute_jobs-row :
      (j : ℕ) (t : Task) (js : List ScheduledJob) (w : World)
      → row j w ≡ some t
      → row j (execute_jobs p.services p.understanding.claude p.calendar js w) ≡ some t
  unfolding execute_jobs
  execute_jobs-row j t [] w h = h
  execute_jobs-row j t (k ∷ ks) w h =
      let v = execute_job p.services p.understanding.claude p.calendar k w in
      execute_jobs-row j t ks v
        (elim (execute_job-tasks p.services p.understanding.claude p.calendar k w).1 [
          | inl same ↦ rw same h
          | inr (u, more, done) ↦ row-append j t u w v more h
        ])

  -- A move that spares a task leaves its row as it was.
  pub move-row :
      (j : ℕ) (t : Task) (m : Move) (w : World)
      → Spares t.user_id j m w
      → row j w ≡ some t
      → row j (move p m w) ≡ some t
  unfolding move process_due_jobs
  move-row j t (asks user q) w other h =
      serve-foreign p.services p.tasks user j (q ∷ []) w t h other
  move-row j t (commands user body) w spared h =
      let (reply, w') = create_command p.services p.commands user body w in
      Answers-row p.commands.has_queue user j
        (command_text (read_body p.commands.transcribe body).text) t reply w w'
        (create_command-Answers p.services p.commands user body w) h
  move-row j t (follows_up user parent text) w spared h =
      let (reply, w') = follow_up p.services p.commands user parent text w in
      Answers-row p.commands.has_queue user j text t reply w w'
        (follow_up-Answers p.services p.commands user parent text w) h
  move-row j t (works i) w other h = work-row j i (get_elem? w.enqueued i) w other ∙ h
  move-row j t (goes i g) w spared h = go-row j i g (get_elem? w.started i) w ∙ h
  move-row j t ticks w spared h =
      let (due, w') = query_rows p.services (due_jobs (p.services.now w.tick)) (ticked w) in
      execute_jobs-row j t due w' h
