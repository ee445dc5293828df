-- ===== src/Checks/Queue.antt =====
-- Runs of the queue at concrete inputs.
use crew_im.Prelude.{total, List, ℕ, ◌+◌, ◌≤◌, ◌≡◌, refl, false, none, [], ◌∷◌, arith}
use crew_im.Queue.{
  Event, moved, after_understand, TaskQueue, understand_worker, work, works, step, start,
  new_task_queue, send_understand, understand_move, take_understand, set_understand,
  enqueue_understand, awaiting, reading, idle,
}
use crew_im.Queue.Bounds.{Reaches, here, further}
use crew_im.Queue.Ledger.{in_hand, entered, run_events, finished_by}
use crew_im.Queue.Ledger.Balance.{run_events-accounts}
use crew_im.Queue.Drain.{load, understand_load, execute_load, Worked, none_yet, after, Worked-load}
use crew_im.Queue.Progress.{CanMove, never_stuck, comes_to_rest}

-- One worker of each kind, and a task in the first channel.
abbrev one_waits : TaskQueue
one_waits = record {
  understand_ch = 10 ∷ [];
  execute_ch = [];
  closed = false;
  understand_workers = awaiting ∷ [];
  execute_workers = idle ∷ [];
}

-- The worker has taken it.
abbrev one_read : TaskQueue
one_read = record one_waits { understand_ch = []; understand_workers = reading 10 ∷ [] }

one_waits_reached : Reaches (start 1 new_task_queue) one_waits
unfolding start new_task_queue step send_understand
one_waits_reached = further (enqueue_understand 10) here refl

one_read_reached : Reaches (start 1 new_task_queue) one_read
unfolding start new_task_queue step work understand_move take_understand set_understand
one_read_reached = further (works (understand_worker 0 none)) one_waits_reached refl

one_read-Worked : Worked one_waits 1 one_read
unfolding work understand_move take_understand set_understand
one_read-Worked = after (understand_worker 0 none) none_yet refl

Worked-load_example : 1 + load one_read ≤ load one_waits
Worked-load_example = Worked-load one_waits one_read 1 one_read-Worked

one_read_left : 1 ≤ load one_read
unfolding load understand_load execute_load
one_read_left = omega arith

never_stuck_example : CanMove one_read
never_stuck_example = never_stuck none 0 one_read one_read_reached refl one_read_left

comes_to_rest_example : (n : ℕ) × (q' : TaskQueue) × Worked one_read n q' × (load q' ≡ 0)
comes_to_rest_example = comes_to_rest none 0 one_read one_read_reached refl

-- A task is sent twice, and its first reading fails.
abbrev twice : List Event
twice =
    enqueue_understand 10
    ∷ works (understand_worker 0 none)
    ∷ enqueue_understand 10
    ∷ works (understand_worker 0 none)
    ∷ []

twice_run : run_events twice (start 1 new_task_queue) ≡ moved one_waits
unfolding run_events start new_task_queue step send_understand work understand_move take_understand
    set_understand after_understand
twice_run = refl

run_events-accounts_example :
    in_hand 10 one_waits + finished_by 10 twice (start 1 new_task_queue) ≡ total (entered 10) twice
run_events-accounts_example = run_events-accounts 1 10 twice one_waits twice_run
