-- ===== src/Server/Pending.antt =====
-- That no task is lost between the handlers and the workers: tasks.go, commands.go, worker.go.
use crew_im.Prelude.{
  get_elem?, remove_at, ℕ, ◌≡◌, refl, inl, inr, Bool, true, ◌||◌, not, Option, none, some, List, [],
  ◌∷◌, arith, ◌==◌, if◌then◌else◌, All,
}
use crew_im.Model.{completed, Task}
use crew_im.World.{query_rows, ticked, World, Enqueued, Routine, ticked}
use crew_im.Tasks.Actions.{row}
use crew_im.Runner.Rounds.{IsQuiet}
use crew_im.Commands.{create_command, follow_up, Gateway}
use crew_im.Commands.Body.{command_text, read_body}
use crew_im.Commands.Effects.Replies.{
  create_command-Answers, follow_up-Answers, route_via_gateway_jobs,
}
use crew_im.World.{auto_title, route_via_open_claw}
use crew_im.Understanding.Title.Bounds.{auto_title_session-tasks}
use crew_im.World.{ScheduledJob}
use crew_im.World.Table.{find_by-append}
use crew_im.Scheduler.{execute_job, execute_jobs, process_due_jobs, due_jobs}
use crew_im.Scheduler.Steps.{execute_job-tasks}
use crew_im.Server.{
  ticks, run_routine, go, asks, commands, follows_up, works, goes, Program, Move, move, run_moves,
}
use crew_im.Server.Workers.{work-Pending}
use crew_im.Server.Waiting.{
  waits, Pending, waits-append, serve-Pending, Answers-Pending, is_executing,
}

kept_or_new :
    (o : Option Task) (t : Task) (at_id b : Bool)
    → t.status ≡ completed
    → (not (is_executing o) || b) ≡ true
    → (not (is_executing (elim o [ none ↦ if at_id then some t else none | some old ↦ some old ]))
        || b)
      ≡ true
kept_or_new none t at_id b done h = ground arith
kept_or_new (some u) t at_id b done h = h

module _ (p : Program) (up : (n : ℕ) → p.services.db_ok n ≡ true)
    (quiet : All IsQuiet p.runner.registry) where
  run_routine-Pending :
      (j : ℕ) (g : Gateway) (o : Routine) (w : World)
      → p.commands.has_queue ≡ true
      → Pending j w
      → Pending j (run_routine p g o w)
  unfolding run_routine
  run_routine-Pending j g (auto_title user session text) w queue h =
      let (tasks, jobs) =
        auto_title_session-tasks p.services p.understanding.claude user session text w in
      rw (tasks, jobs) h
  run_routine-Pending j g (route_via_open_claw user id text) w queue h =
      let (tasks, jobs) = route_via_gateway_jobs p.commands g user id w in
      let more = waits-append j w.enqueued (Enqueued.understand id ∷ []) in
      rw tasks (rw jobs (ground arith))

  go-Pending :
      (j : ℕ) (g : Gateway) (i : ℕ) (o : Option Routine) (w : World)
      → p.commands.has_queue ≡ true
      → Pending j w
      → Pending j (go p g i o w)
  unfolding go
  go-Pending j g i none w queue h = h
  go-Pending j g i (some routine) w queue h =
      run_routine-Pending j g routine (record w { started = remove_at i w.started }) queue h

  executed_job-Pending :
      (k : ℕ) (j : ScheduledJob) (w : World)
      → Pending k w
      → Pending k (execute_job p.services p.understanding.claude p.calendar j w)
  executed_job-Pending k j w h =
      let (jobs, tasks) = execute_job-tasks p.services p.understanding.claude p.calendar j w in
      elim tasks [
        | inl same ↦ rw (same, jobs) h
        | inr (t, more, done) ↦
            (let found = find_by-append (λ (u : Task). u.id) k t w.tasks in
              rw (more, jobs, found)
                (kept_or_new (row k w) t (t.id == k) (waits k w.enqueued) done h))
      ]

  execute_jobs-Pending :
      (k : ℕ) (js : List ScheduledJob) (w : World)
      → Pending k w
      → Pending k (execute_jobs p.services p.understanding.claude p.calendar js w)
  unfolding execute_jobs
  execute_jobs-Pending k [] w h = h
  execute_jobs-Pending k (j ∷ js) w h =
      execute_jobs-Pending k js (execute_job p.services p.understanding.claude p.calendar j w)
        (executed_job-Pending k j w h)

  move-Pending :
      (j : ℕ) (m : Move) (w : World)
      → p.tasks.has_queue ≡ true
      → p.commands.has_queue ≡ true
      → Pending j w
      → Pending j (move p m w)
  unfolding move go process_due_jobs
  move-Pending j (asks user q) w queue queue' h =
      serve-Pending p.services p.tasks user j q w up queue h
  move-Pending j (commands user body) w queue queue' h =
      let (reply, w') = create_command p.services p.commands user body w in
      Answers-Pending p.commands.has_queue user j
        (command_text (read_body p.commands.transcribe body).text) reply w w'
        (create_command-Answers p.services p.commands user body w) h
  move-Pending j (follows_up user parent text) w queue queue' h =
      let (reply, w') = follow_up p.services p.commands user parent text w in
      Answers-Pending p.commands.has_queue user j text reply w w'
        (follow_up-Answers p.services p.commands user parent text w) h
  move-Pending j (works i) w queue queue' h =
      work-Pending p up quiet j i (get_elem? w.enqueued i) w refl h
  move-Pending j ticks w queue queue' h =
      let (due, w') = query_rows p.services (due_jobs (p.services.now w.tick)) (ticked w) in
      execute_jobs-Pending j due w' h
  move-Pending j (goes i g) w queue queue' h = go-Pending j g i (get_elem? w.started i) w queue' h

  -- However requests about tasks, commands, follow-ups, jobs of the workers, ticks of the scheduler and
  -- routines of the handlers follow one another, each run to its end before the next, with a database
  -- that works, a queue and tools that keep to their tables: where each task that was executing had
  -- its execution among the jobs that wait, each one has afterwards.
  pub run_moves-Pending :
      (ms : List Move) (w : World)
      → p.tasks.has_queue ≡ true
      → p.commands.has_queue ≡ true
      → ((j : ℕ) → Pending j w)
      → (j : ℕ) → Pending j (run_moves p ms w)
  unfolding run_moves
  run_moves-Pending [] w queue queue' h j = h j
  run_moves-Pending (m ∷ ms) w queue queue' h j =
      run_moves-Pending ms (move p m w) queue queue' (λ k. move-Pending k m w queue queue' (h k)) j
