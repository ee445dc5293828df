-- ===== src/Tasks.antt =====
-- `TaskHandler` of server/internal/handler/tasks.go: what the user does to a task. The user and the
-- task are those of the request's token and path; a body that is no JSON has no task ids. A
-- handler is a chain of the statements that it makes, with the replies of its early returns.

pub mod Actions
pub mod Batch
pub mod Listing
use crew_im.Prelude.{
  ℕ, String, Bool, true, false, not, Option, none, some, List, [], ◌∷◌, ◌++◌, ◌==◌, if◌then◌else◌,
  length,
}
use crew_im.Model.{
  Task, TaskStatus, created, understanding, waiting_confirm, executing, paused, failed, cancelled,
}
use crew_im.World.{
  World, Services, Io, understand, execute, ◌>>=◌, ◌>>◌, pure, query_row, exec, enqueue,
  update_task,
}
use crew_im.World.Table.{find_by}

pub record TaskHandler : Type 0 where
  -- whether `Queue` is not nil
  pub has_queue : Bool

pub data Reply : Type 0 where
  http_error : ℕ → String → Reply
  task_status : ℕ → TaskStatus → Reply
  confirmed_tasks : List ℕ → ℕ → Reply

-- `SELECT status FROM tasks WHERE id = $1 AND user_id = $2`
owned_status : ℕ → Option Task → Option TaskStatus
owned_status user none = none
owned_status user (some t) = if t.user_id == user then some t.status else none

unfoldable pub select_status : ℕ → ℕ → World → Option TaskStatus
unfolding owned_status
select_status id user w = owned_status user (find_by (λ (t : Task). t.id) id w.tasks)

-- `UPDATE tasks SET status = …, updated_at = NOW() WHERE id = $1`
unfoldable pub set_status : Services → ℕ → TaskStatus → Io Bool
set_status sv id status w =
    exec sv (update_task id (λ t. record t { status = status; updated_at = sv.now w.tick })) w

-- `UPDATE tasks SET status = 'created', error = NULL, updated_at = NOW() WHERE id = $1`
unfoldable pub reset_failed : Services → ℕ → Io Bool
reset_failed sv id w =
    exec sv
      (update_task id
        (λ t. record t { status = created; error = none; updated_at = sv.now w.tick }))
      w

-- The map `cancellable`.
abbrev pub is_cancellable : TaskStatus → Bool
is_cancellable created = true
is_cancellable understanding = true
is_cancellable waiting_confirm = true
is_cancellable executing = true
is_cancellable _ = false

abbrev pub is_pausable : TaskStatus → Bool
is_pausable executing = true
is_pausable understanding = true
is_pausable _ = false

module _ (sv : Services) (h : TaskHandler) where
  confirm_found : ℕ → Option TaskStatus → Io Reply
  unfolding set_status
  confirm_found id (some waiting_confirm) = do
    set_status sv id executing
    enqueue h.has_queue (execute id)
    pure (task_status id executing)
  confirm_found id _ = pure (http_error 400 "Task is not waiting for confirmation")

  unfoldable pub confirm_task : ℕ → ℕ → Io Reply
  unfolding confirm_found
  confirm_task user id = do status ← query_row sv (select_status id user); confirm_found id status

  cancel_found : ℕ → Option TaskStatus → Io Reply
  unfolding set_status
  cancel_found id none = pure (http_error 404 "Task not found")
  cancel_found id (some status) =
      if not (is_cancellable status)
      then pure (http_error 400 "Task cannot be cancelled")
      else do set_status sv id cancelled; pure (task_status id cancelled)

  unfoldable pub cancel_task : ℕ → ℕ → Io Reply
  unfolding cancel_found
  cancel_task user id = do status ← query_row sv (select_status id user); cancel_found id status

  retry_found : ℕ → Option TaskStatus → Io Reply
  unfolding reset_failed
  retry_found id (some failed) = do
    reset_failed sv id
    enqueue h.has_queue (understand id)
    pure (task_status id created)
  retry_found id _ = pure (http_error 400 "Only failed tasks can be retried")

  unfoldable pub retry_task : ℕ → ℕ → Io Reply
  unfolding retry_found
  retry_task user id = do status ← query_row sv (select_status id user); retry_found id status

  pause_found : ℕ → Option TaskStatus → Io Reply
  unfolding set_status
  pause_found id none = pure (http_error 404 "Task not found")
  pause_found id (some status) =
      if not (is_pausable status)
      then pure (http_error 400 "Only executing tasks can be paused")
      else do set_status sv id paused; pure (task_status id paused)

  unfoldable pub pause_task : ℕ → ℕ → Io Reply
  unfolding pause_found
  pause_task user id = do status ← query_row sv (select_status id user); pause_found id status

  resume_found : ℕ → Option TaskStatus → Io Reply
  unfolding set_status
  resume_found id (some paused) = do
    set_status sv id executing
    enqueue h.has_queue (execute id)
    pure (task_status id executing)
  resume_found id _ = pure (http_error 400 "Task is not paused")

  unfoldable pub resume_task : ℕ → ℕ → Io Reply
  unfolding resume_found
  resume_task user id = do status ← query_row sv (select_status id user); resume_found id status

  -- The body of the loop of `BatchConfirm`: the task is confirmed, or passed over.
  batch_found : ℕ → List ℕ → Option TaskStatus → Io (List ℕ)
  unfolding set_status
  batch_found id confirmed (some waiting_confirm) = do
    set_status sv id executing
    enqueue h.has_queue (execute id)
    pure (confirmed ++ id ∷ [])
  batch_found id confirmed _ = pure confirmed

  unfoldable pub batch_one : ℕ → ℕ → List ℕ → Io (List ℕ)
  unfolding batch_found
  batch_one user id confirmed = do
    status ← query_row sv (select_status id user)
    batch_found id confirmed status

  unfoldable pub batch_loop : ℕ → List ℕ → List ℕ → Io (List ℕ)
  batch_loop user [] confirmed w = (confirmed, w)
  batch_loop user (id ∷ ids) confirmed w =
      let (confirmed', w') = batch_one user id confirmed w in batch_loop user ids confirmed' w'

  unfoldable pub batch_confirm : ℕ → List ℕ → Io Reply
  batch_confirm user [] = pure (http_error 400 "No task IDs provided")
  batch_confirm user (id ∷ ids) = do
    confirmed ← batch_loop user (id ∷ ids) []
    pure (confirmed_tasks confirmed (length confirmed))
