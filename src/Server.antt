-- ===== src/Server.antt =====
-- The server at work: the requests about tasks and commands, the workers of
-- server/internal/queue/worker.go, the scheduler and the routines that the handlers start, on one world. The jobs that
-- wait are those in `enqueued`, the routines those in `started`. A worker does a job in one move; the
-- queue's channels with their bounds and places are in Queue.
pub mod Waiting
pub mod Workers
pub mod Pending
pub mod Drain
pub mod Spared
pub mod Owners
pub mod Foreign
use crew_im.Prelude.{
  ℕ, zero, suc, ◌+◌, ◌-◌, ◌*◌, ◌/◌, ◌%◌, ◌^◌, ◌≤◌, ◌<◌, String, ◌≡◌, refl, sym, ap, ◌∙◌, ◌≢◌, ◌↔◌,
  ◌⊎◌, inl, inr, Bool, true, false, ◌&&◌, ◌||◌, not, Option, none, some, List, [], ◌∷◌, ◌++◌, map,
  arith, ltb, leb, ◌==◌, if◌then◌else◌, ltb→lt, lt→ltb, leb→le, ==_iff, Bool-cases, Option-cases,
  All, length, take, drop, take-append, drop-append, last?, keep, length-append, last?-append,
  length-keep-le, All-append, All-keep, All-map, Bytes, bytes_eq, bytes_eq_iff, bytes_eq_refl,
  eq_of_bytes_eq, bytes_ne, is_empty, join, ◌<>◌, decimal, str_eq, str_eq_iff, trim_space,
  trim_prefix, trim_suffix, split, Result, ok, err,
}
use crew_im.Prelude.{get_elem?, remove_at}
use crew_im.Model.{UnderstandingResult}
use crew_im.World.{World, Services, Io, Enqueued, Routine, auto_title, route_via_open_claw}
use crew_im.Tasks.{TaskHandler}
use crew_im.Tasks.Batch.{Request, serve}
use crew_im.Claude.Client.{ClaudeClient}
use crew_im.Commands.{CommandHandler, Gateway, create_command, follow_up, route_via_gateway}
use crew_im.Commands.Body.{CommandBody}
use crew_im.Understanding.{UnderstandingService, understand}
use crew_im.Understanding.Title.{auto_title_session}
use crew_im.Runner.{AgentRunner}
use crew_im.Orchestrator.{execute}
use crew_im.Scheduler.{Calendar, process_due_jobs}

-- The parts that the program is put together of. They share the client of the language model.
pub record Program : Type 0 where
  pub services : Services
  pub tasks : TaskHandler
  pub commands : CommandHandler
  pub understanding : UnderstandingService
  pub runner : AgentRunner
  pub calendar : Calendar

-- `EnqueueExecute`, where the plan wants no confirmation.
hand_on : ℕ → Option UnderstandingResult → World → World
hand_on id none w = w
hand_on id (some r) w =
    if not r.execution_plan.requires_confirmation
    then record w { enqueued = w.enqueued ++ Enqueued.execute id ∷ [] }
    else w

-- What a worker does with a job: the bodies of the loops of `understandWorker` and `executeWorker`.
unfoldable pub do_job : Program → Enqueued → World → World
unfolding hand_on
do_job p (Enqueued.understand id) w =
    let (result, w') = understand p.services p.understanding id w in hand_on id result w'
do_job p (Enqueued.execute id) w = (execute p.services p.runner id w).1

-- A worker takes a job that waits.
unfoldable pub work : Program → ℕ → Option Enqueued → World → World
unfolding do_job
work p i none w = w
work p i (some job) w = do_job p job (record w { enqueued = remove_at i w.enqueued })

-- A routine that was started runs; `g` is what the gateway does.
run_routine : Program → Gateway → Routine → World → World
run_routine p g (auto_title user session text) w =
    (auto_title_session p.services p.understanding.claude user session text w).1
run_routine p g (route_via_open_claw user id text) w = (route_via_gateway p.commands g user id w).1

go : Program → Gateway → ℕ → Option Routine → World → World
unfolding run_routine
go p g i none w = w
go p g i (some routine) w = run_routine p g routine (record w { started = remove_at i w.started })

pub data Move : Type 0 where
  asks : ℕ → Request → Move
  commands : ℕ → CommandBody → Move
  follows_up : ℕ → ℕ → String → Move
  works : ℕ → Move
  goes : ℕ → Gateway → Move
  -- a tick of the scheduler
  ticks : Move

unfoldable pub move : Program → Move → World → World
unfolding work go
move p (asks user q) w = serve p.services p.tasks user (q ∷ []) w
move p (commands user body) w = (create_command p.services p.commands user body w).1
move p (follows_up user parent text) w = (follow_up p.services p.commands user parent text w).1
move p (works i) w = work p i (get_elem? w.enqueued i) w
move p (goes i g) w = go p g i (get_elem? w.started i) w
move p ticks w = process_due_jobs p.services p.understanding.claude p.calendar w

unfoldable pub run_moves : Program → List Move → World → World
run_moves p [] w = w
run_moves p (m ∷ ms) w = run_moves p ms (move p m w)
