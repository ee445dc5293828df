-- ===== src/Checks/Data.antt =====
-- The services, rows and worlds of the runs.
use crew_im.Prelude.{ℕ, ◌+◌, true, false, none, some, [], ◌∷◌}
use crew_im.Model.{Task, TaskStatus, waiting_confirm, cancelled}
use crew_im.Claude.Model.{text, end_turn, other_reason, replied}
use crew_im.World.{World, Services}

-- A database that works, a clock that stands, and a model that answers at once.
abbrev pub services : Services
services = record {
  db_ok = λ n. true;
  now = λ n. 0;
  new_id = λ n. 100 + n;
  anthropic = λ n q.
      replied 200 "" (record { id = "m"; content = text "done" ∷ []; stop_reason = end_turn });
  open_router = λ n q. replied 500 "down" none;
}

-- The same, with an answer that is cut.
abbrev pub cut_services : Services
cut_services = record services {
  anthropic = λ n q.
      replied 200 ""
        (record { id = ""; content = text "part" ∷ []; stop_reason = other_reason "max_tokens" });
}

abbrev pub task : ℕ → ℕ → TaskStatus → Task
task id user status = record {
  id = id;
  user_id = user;
  session_id = none;
  parent_task_id = none;
  input_text = some "order lunch";
  input_audio_url = none;
  input_image_urls = [];
  understanding = some "lunch";
  execution_plan = some (record {
    steps = record { description = "call"; tools_needed = []; can_parallel = false } ∷ [];
    requires_confirmation = false;
    confirmation_message = "";
  });
  risk_level = none;
  intent_type = none;
  status = status;
  result = none;
  error = none;
  created_at = 0;
  updated_at = 0;
}

abbrev pub empty_world : World
empty_world = record {
  tick = 0;
  tasks = [];
  sub_tasks = [];
  execution_logs = [];
  sessions = [];
  user_rules = [];
  users = [];
  user_profiles = [];
  user_accounts = [];
  push_tokens = [];
  memories = [];
  task_items = [];
  scheduled_jobs = [];
  pushed = [];
  enqueued = [];
  started = [];
}

-- User 1 has a task that waits and one that was cancelled, user 2 one that waits.
abbrev pub world : World
world = record empty_world {
  tasks = task 10 1 waiting_confirm ∷ task 11 1 cancelled ∷ task 20 2 waiting_confirm ∷ [];
}
