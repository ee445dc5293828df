-- ===== src/Model.antt =====
-- The data of server/internal/model: tasks, plans, result cards and the events that are pushed to
-- a user's devices. A UUID is a number; a nullable column is an `Option`; a JSONB column holds the
-- value that was marshalled into it.
use crew_im.Prelude.{ℕ, String, Bool, Option, List}

-- A value of a JSON document that the program has not typed (`any`): it only ever asks whether the
-- value is a string. `other` holds the text that `%v` prints.
pub data Json : Type 0 where
  text : String → Json
  other : String → Json

-- `map[string]any`
abbrev pub Params : Type 0
Params = List (String × Json)

-- `TaskStatus` of task.go
pub data TaskStatus : Type 0 where
  created understanding waiting_confirm executing paused completed failed cancelled : TaskStatus

pub record ExecutionStep : Type 0 where
  pub description : String
  pub tools_needed : List String
  pub can_parallel : Bool

pub record ExecutionPlan : Type 0 where
  pub steps : List ExecutionStep
  pub requires_confirmation : Bool
  pub confirmation_message : String

-- The text of `related_task_id`, read as the UUID that the database wants.
pub data TaskRef : Type 0 where
  uuid : ℕ → TaskRef
  no_uuid : String → TaskRef

pub record UnderstandingResult : Type 0 where
  pub understanding : String
  pub execution_plan : ExecutionPlan
  pub risk_level : String
  pub intent_type : String
  pub related_task_id : Option TaskRef

-- `ResultCard`, without the `Items` that no code sets.
pub record ResultCard : Type 0 where
  pub title : String
  pub body : String

-- A row of `tasks`.
pub record Task : Type 0 where
  pub id : ℕ
  pub user_id : ℕ
  pub session_id : Option ℕ
  pub parent_task_id : Option ℕ
  pub input_text : Option String
  pub input_audio_url : Option String
  pub input_image_urls : List String
  pub understanding : Option String
  pub execution_plan : Option ExecutionPlan
  pub risk_level : Option String
  pub intent_type : Option String
  pub status : TaskStatus
  pub result : Option ResultCard
  pub error : Option String
  pub created_at : ℕ
  pub updated_at : ℕ

-- What the JSON of a subtask's `result` says.
pub data SubTaskResult : Type 0 where
  output : String → ℕ → SubTaskResult
  error : String → SubTaskResult

-- The statuses that the code writes to `sub_tasks`.
pub data SubTaskStatus : Type 0 where
  executing completed failed : SubTaskStatus

pub record SubTask : Type 0 where
  pub id : ℕ
  pub task_id : ℕ
  pub step_index : ℕ
  pub description : String
  pub status : SubTaskStatus
  pub result : Option SubTaskResult
  pub started_at : Option ℕ
  pub completed_at : Option ℕ

pub record TaskBrief : Type 0 where
  -- `none` is ""
  pub id : Option ℕ
  pub input_text : String
  pub understanding : String
  pub status : TaskStatus
  pub created_at : Option ℕ
  pub steps : List ExecutionStep

-- The `Type` of a `PushEvent`.
pub data EventType : Type 0 where
  task_created : EventType
  task_progress : EventType
  task_understanding : EventType
  task_waiting_confirm : EventType
  task_completed : EventType
  task_failed : EventType
  session_updated : EventType

pub record PushEvent : Type 0 where
  pub event_type : EventType
  pub task_id : Option ℕ
  pub task : Option TaskBrief
  pub message : String
  pub result : Option ResultCard
  pub reason : String
  pub step : Option ℕ
  pub session_id : Option ℕ
  pub title : String
