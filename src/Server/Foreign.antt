-- ===== src/Server/Foreign.antt =====
-- That a worker does a job for the owner of its task alone: worker.go with all that it calls.
use crew_im.Prelude.{ℕ}
use crew_im.World.{World, Enqueued}
use crew_im.World.Foreign.{Foreign}
use crew_im.Understanding.{understand}

abbrev pub task_of : Enqueued → ℕ
task_of (Enqueued.understand id) = id
task_of (Enqueued.execute id) = id
