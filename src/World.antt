-- ===== src/World.antt =====
-- What the handlers and workers of the server share: the tables of the database, the pushes made
-- to `ws.Hub`, the calls made of the `Enqueuer`, and the services around them.
-- A call of a service is a tick: `Services` says what the service does at each tick, so that a
-- statement of the database may fail at any time.
pub mod Table
pub mod Foreign
use crew_im.Prelude.{
  ℕ, zero, suc, ◌+◌, ◌-◌, ◌*◌, ◌/◌, ◌%◌, ◌≤◌, ◌<◌, String, ◌≡◌, refl, sym, ap, ◌∙◌, ◌≢◌, ◌↔◌, ◌⊎◌,
  inl, inr, Bool, true, false, ◌&&◌, ◌||◌, not, Option, none, some, List, [], ◌∷◌, ◌++◌, map, arith,
  ltb, leb, ◌==◌, if◌then◌else◌, ltb→lt, lt→ltb, leb→le, ==_iff, Bool-cases, Option-cases, All,
  length, take, last?, keep, length-append, last?-append, length-keep-le, All-append, All-keep,
  All-map, Bytes, bytes_eq, bytes_eq_iff, bytes_eq_refl, eq_of_bytes_eq,
}
use crew_im.Model.{Params, Task, SubTask, TaskStatus, PushEvent}
use crew_im.Claude.Model.{ChatRequest, HttpReply, Response, OpenRouterReply}
use crew_im.World.Table.{update_by}

-- `execution_logs` holds one row for each tool call.
pub record ExecutionLog : Type 0 where
  pub id : ℕ
  pub task_id : ℕ
  pub sub_task_id : Option ℕ
  pub tool : String

pub record Session : Type 0 where
  pub id : ℕ
  pub user_id : ℕ
  pub title : Option String
  pub created_at : ℕ
  pub updated_at : ℕ

pub record UserRule : Type 0 where
  pub id : ℕ
  pub user_id : ℕ
  pub rule_text : String
  pub active : Bool

pub record User : Type 0 where
  pub id : ℕ
  pub phone : Bytes
  pub created_at : ℕ

-- `user_id` is the key.
pub record UserProfile : Type 0 where
  pub user_id : ℕ
  pub profile : Params
  pub initialized : Bool
  pub updated_at : ℕ

pub record UserAccount : Type 0 where
  pub id : ℕ
  pub user_id : ℕ
  pub platform : String
  pub display_name : String
  pub credentials_enc : Bytes
  pub created_at : ℕ
  pub updated_at : ℕ

pub record PushToken : Type 0 where
  pub id : ℕ
  pub user_id : ℕ
  pub device_token : String
  pub updated_at : ℕ

pub record Memory : Type 0 where
  pub id : ℕ
  pub user_id : ℕ
  pub task_id : Option ℕ
  pub content : String
  pub memory_type : String
  pub created_at : ℕ

pub record TaskItem : Type 0 where
  pub id : ℕ
  pub user_id : ℕ
  pub source_task_id : Option ℕ
  pub title : String
  pub description : Option String
  pub assignee : Option String
  pub priority : String
  pub status : String
  pub created_at : ℕ

-- `job_type` and `schedule` are texts that the scheduler compares.
pub record ScheduledJob : Type 0 where
  pub id : ℕ
  pub user_id : ℕ
  pub source_text : String
  pub job_type : String
  pub schedule : String
  pub message : String
  pub active : Bool
  pub next_run_at : ℕ

-- A call of `EnqueueUnderstand` or `EnqueueExecute`.
pub data Enqueued : Type 0 where
  understand : ℕ → Enqueued
  execute : ℕ → Enqueued

-- A `go` statement of a handler or worker, with its arguments.
pub data Routine : Type 0 where
  auto_title : ℕ → ℕ → String → Routine
  route_via_open_claw : ℕ → ℕ → String → Routine

pub record World : Type 0 where
  pub tick : ℕ
  pub tasks : List Task
  pub sub_tasks : List SubTask
  pub execution_logs : List ExecutionLog
  pub sessions : List Session
  pub user_rules : List UserRule
  pub users : List User
  pub user_profiles : List UserProfile
  pub user_accounts : List UserAccount
  pub push_tokens : List PushToken
  pub memories : List Memory
  pub task_items : List TaskItem
  pub scheduled_jobs : List ScheduledJob
  -- `Hub.Send(userID, event)`, in the order of the calls
  pub pushed : List (ℕ × PushEvent)
  pub enqueued : List Enqueued
  pub started : List Routine

-- What the services do at each tick. A statement that fails changes nothing.
-- The language model is the HTTP services of Claude: what they answer to a request.
pub record Services : Type 0 where
  pub db_ok : ℕ → Bool
  -- `NOW()` of a statement and `time.Now()` of the program
  pub now : ℕ → ℕ
  -- `gen_random_uuid()`
  pub new_id : ℕ → ℕ
  pub anthropic : ℕ → ChatRequest → HttpReply Response
  pub open_router : ℕ → ChatRequest → HttpReply (Option OpenRouterReply)

abbrev pub Io : Type 0 → Type 0
Io A = World → A × World

infixl 5 ◌>>=◌ ◌>>◌
abbrev pub ◌>>=◌ : {A B : Type 0} → Io A → (A → Io B) → Io B
◌>>=◌ m f w = let (a, w') = m w in f a w'

abbrev pub ◌>>◌ : {A B : Type 0} → Io A → Io B → Io B
m >> k = m >>= λ _. k

abbrev pub pure : {A : Type 0} → A → Io A
pure a w = (a, w)

abbrev pub ticked : World → World
ticked w = record w { tick = w.tick + 1 }

-- `db.Pool.QueryRow(…).Scan(…)`: `none` is an error, of the database or for want of a row.
abbrev pub query_row : {A : Type 0} → Services → (World → Option A) → Io (Option A)
query_row sv select w = (if sv.db_ok w.tick then select w else none, ticked w)

-- `db.Pool.Query(…)` and its loop over the rows: an error leaves no rows.
abbrev pub query_rows : {A : Type 0} → Services → (World → List A) → Io (List A)
query_rows sv select w = (if sv.db_ok w.tick then select w else [], ticked w)

-- `INSERT … RETURNING id`: the statement fails where the new id is taken, as the primary key says.
-- `is_free` asks the table, `put` adds the row.
abbrev pub insert_row : Services → (ℕ → World → Bool) → (ℕ → World → World) → Io (Option ℕ)
insert_row sv is_free put w =
    let id = sv.new_id w.tick in
    let done = sv.db_ok w.tick && is_free id w in
    (if done then some id else none, ticked (if done then put id w else w))

-- `go f(…)`
abbrev pub start : Routine → Io (Unit {0})
start routine w = (tt, record w { started = w.started ++ routine ∷ [] })

abbrev pub is_none : {A : Type 0} → Option A → Bool
is_none none = true
is_none (some a) = false

-- `db.Pool.Exec(…)` with its error: true is none.
abbrev pub exec : Services → (World → World) → Io Bool
exec sv statement w = (sv.db_ok w.tick, ticked (if sv.db_ok w.tick then statement w else w))

abbrev pub clock : Services → Io ℕ
clock sv w = (sv.now w.tick, ticked w)

-- `h.Hub.Send`
abbrev pub send : ℕ → PushEvent → Io (Unit {0})
send user event w = (tt, record w { pushed = w.pushed ++ (user, event) ∷ [] })

-- The calls of `h.Queue`, behind the test for nil.
abbrev pub enqueue : Bool → Enqueued → Io (Unit {0})
enqueue has_queue job w =
    (tt, record w { enqueued = if has_queue then w.enqueued ++ job ∷ [] else w.enqueued })

-- `UPDATE tasks SET … WHERE id = $1`: `id` is the primary key.
abbrev pub update_task : ℕ → (Task → Task) → World → World
update_task id f w = record w { tasks = update_by (λ (t : Task). t.id) id f w.tasks }
