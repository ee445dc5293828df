-- ===== src/Tasks/Actions.antt =====
-- What the five actions of tasks.go on one task do: to which tasks, in which statuses, with which
-- reply and which job for the workers.
use crew_im.Prelude.{
  ℕ, ◌+◌, ◌≡◌, refl, ◌&&◌, Option, none, some, List, [], ◌∷◌, arith, ◌==◌, if◌then◌else◌, ◌++◌,
}
use mathlib.Core.List.{append-nil}
use crew_im.Model.{
  Task, TaskStatus, created, understanding, waiting_confirm, executing, paused, failed, cancelled,
}
use crew_im.World.{World, Services, Io, Enqueued, understand, execute}
use crew_im.World.Table.{find_by, update_by, find_by-update_by, map_option}
use crew_im.Tasks.{
  TaskHandler, Reply, confirm_task, cancel_task, retry_task, pause_task, resume_task, select_status,
  http_error, task_status,
}

pub data Action : Type 0 where
  confirm cancel retry pause resume : Action

-- The handler that the router calls.
unfoldable pub act : Services → TaskHandler → Action → ℕ → ℕ → Io Reply
unfolding confirm_task cancel_task retry_task pause_task resume_task select_status
act sv h confirm = confirm_task sv h
act sv h cancel = cancel_task sv h
act sv h retry = retry_task sv h
act sv h pause = pause_task sv h
act sv h resume = resume_task sv h

-- The diagram: the status that an action leads to, where it is allowed.
abbrev pub target : Action → TaskStatus → Option TaskStatus
target confirm waiting_confirm = some executing
target cancel created = some cancelled
target cancel understanding = some cancelled
target cancel waiting_confirm = some cancelled
target cancel executing = some cancelled
target retry failed = some created
target pause executing = some paused
target pause understanding = some paused
target resume paused = some executing
target _ _ = none

-- The job that goes with a step of the diagram.
abbrev pub job_of : Action → ℕ → List Enqueued
job_of confirm id = execute id ∷ []
job_of retry id = understand id ∷ []
job_of resume id = execute id ∷ []
job_of _ id = []

abbrev pub row : ℕ → World → Option Task
row j w = find_by (λ (t : Task). t.id) j w.tasks

-- The row of a task after a step of the diagram at a time: retrying also takes the error away.
abbrev pub moved : Action → ℕ → TaskStatus → Task → Task
moved retry now s t = record t { status = s; error = none; updated_at = now }
moved _ now s t = record t { status = s; updated_at = now }

-- What the action sees of a task: the step that it may take.
abbrev pub step_of : Services → Action → ℕ → ℕ → World → Option TaskStatus
step_of sv a user id w =
    if sv.db_ok w.tick
    then elim (select_status id user w) [ none ↦ none | some s ↦ target a s ]
    else none

row-update :
    (j id : ℕ) (f : Task → Task) (w : World)
    → ((t : Task) → (f t).id ≡ t.id)
    → find_by (λ (t : Task). t.id) j (update_by (λ (t : Task). t.id) id f w.tasks)
      ≡ (if id == j then map_option f (row j w) else row j w)
row-update j id f w same = find_by-update_by (λ (t : Task). t.id) j id f w.tasks same

-- What every action does to every task of the table, whichever statements fail: the addressed task
-- takes the step of the diagram where it belongs to the user, its status allows the action and
-- both statements succeed; otherwise, and for each other task, the row is as it was.
pub row-act :
    (sv : Services) (h : TaskHandler) (a : Action) (user id j : ℕ) (w : World)
    → row j (act sv h a user id w).1 ≡ elim (step_of sv a user id w) [
      | none ↦ row j w
      | some s ↦
          if id == j && sv.db_ok (w.tick + 1)
          then map_option (moved a (sv.now (w.tick + 1)) s) (row j w)
          else row j w
    ]
unfolding act
row-act sv h confirm user id j w =
    ground (arith, row-update j id (moved confirm (sv.now (w.tick + 1)) executing) w (λ t. refl))
row-act sv h cancel user id j w =
    ground (arith, row-update j id (moved cancel (sv.now (w.tick + 1)) cancelled) w (λ t. refl))
row-act sv h retry user id j w =
    ground (arith, row-update j id (moved retry (sv.now (w.tick + 1)) created) w (λ t. refl))
row-act sv h pause user id j w =
    ground (arith, row-update j id (moved pause (sv.now (w.tick + 1)) paused) w (λ t. refl))
row-act sv h resume user id j w =
    ground (arith, row-update j id (moved resume (sv.now (w.tick + 1)) executing) w (λ t. refl))

-- The status of a refusal: 404 is told from 400 where the action can be refused for either.
abbrev pub refusal_code : Action → Option TaskStatus → ℕ
refusal_code cancel none = 404
refusal_code pause none = 404
refusal_code _ _ = 400

abbrev pub code_of : Reply → ℕ
code_of (http_error code text) = code
code_of _ = 200

abbrev pub granted_status : Reply → Option TaskStatus
granted_status (task_status id s) = some s
granted_status _ = none

-- A reply of success names the status of the step that was allowed, and exactly then the job of
-- the action is handed to the workers; a refusal has its status code and no job. Neither looks at
-- whether the `UPDATE` succeeded.
pub reply-act :
    (sv : Services) (h : TaskHandler) (a : Action) (user id : ℕ) (w : World)
    → let (reply, w') = act sv h a user id w in
      (granted_status reply ≡ step_of sv a user id w)
      × (code_of reply ≡ elim (step_of sv a user id w) [
        | none ↦ refusal_code a (if sv.db_ok w.tick then select_status id user w else none)
        | some s ↦ 200
      ])
      × (w'.enqueued ≡ elim (step_of sv a user id w) [
        | none ↦ w.enqueued
        | some s ↦ if h.has_queue then w.enqueued ++ job_of a id else w.enqueued
      ])
unfolding act
reply-act sv h confirm user id w = (ground arith, ground arith, ground arith)
reply-act sv h cancel user id w =
    (ground arith, ground arith, ground (arith, append-nil w.enqueued))
reply-act sv h retry user id w = (ground arith, ground arith, ground arith)
reply-act sv h pause user id w = (ground arith, ground arith, ground (arith, append-nil w.enqueued))
reply-act sv h resume user id w = (ground arith, ground arith, ground arith)
