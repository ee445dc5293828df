-- ===== src/Runner.antt =====
-- The agent's loop, `AgentRunner.Run` of server/internal/service/runner.go: at most ten rounds, each
-- a call of the model and the tools that it asks for. The rounds that are left are the fuel of the
-- loop, as in the source.

pub mod Rounds
pub mod Frames
pub mod Cut
use crew_im.Prelude.{
  ℕ, zero, suc, ◌+◌, ◌*◌, String, Bool, Option, none, some, List, [], ◌∷◌, ◌++◌, map, ltb,
  if◌then◌else◌, length, ◌<>◌, decimal, Result, ok, err,
}
use crew_im.Model.{PushEvent, task_progress, executing}
use crew_im.Claude.Model.{
  ContentBlock, text, StopReason, end_turn, other_reason, Response, plain, blocks, calls,
  tool_output, tool_results, user, assistant, tool, Message, ToolCall, ToolResult,
}
use crew_im.Claude.Client.{ClaudeClient, call, get_text_response}
use crew_im.Tools.Registry.{Registry, ToolContext, to_ai_tools, execute}
use crew_im.World.{World, Services, Io, clock, exec, send}
use crew_im.Sms.{second}

abbrev pub max_rounds : ℕ
max_rounds = 10

abbrev pub timeout_duration : ℕ
timeout_duration = 60 * second

pub record AgentRunner : Type 0 where
  pub claude : ClaudeClient
  pub registry : Registry
  -- whether the variable OPENROUTER_API_KEY is set
  pub is_open_router : Bool

pub record RunConfig : Type 0 where
  pub user_id : ℕ
  pub task_id : ℕ
  pub sub_task_id : Option ℕ
  pub description : String

pub data RunError : Type 0 where
  timed_out : ℕ → RunError
  call_failed : ℕ → String → RunError
  out_of_rounds : RunError

-- `err.Error()`
unfoldable pub error_text : RunError → String
error_text (timed_out round) = "agent execution timeout after " <> decimal round <> " rounds"
error_text (call_failed round e) = "claude call round " <> decimal round <> ": " <> e
error_text out_of_rounds = "agent exceeded maximum " <> decimal max_rounds <> " rounds"

-- `*RunResult` and the error.
pub data RunOutcome : Type 0 where
  finished : String → ℕ → RunOutcome
  run_failed : RunError → RunOutcome

abbrev pub agent_prompt : String
agent_prompt = "你是一个执行管理任务的 AI Agent。使用提供的工具完成任务，完成后直接输出结果摘要。"

unfoldable pub progress_event : RunConfig → String → PushEvent
progress_event cfg name = record {
  event_type = task_progress;
  task_id = some cfg.task_id;
  task = some (record {
    id = some cfg.task_id;
    input_text = "";
    understanding = "";
    status = executing;
    created_at = none;
    steps = [];
  });
  message = "正在执行：" <> name;
  result = none;
  reason = "";
  step = cfg.sub_task_id;
  session_id = none;
  title = "";
}

-- `INSERT INTO execution_logs …`, whose error is dropped.
unfoldable pub log_tool_call : Services → RunConfig → String → Io Bool
log_tool_call sv cfg name w =
    exec sv
      (λ v. record v {
        execution_logs =
            v.execution_logs
            ++ record {
              id = sv.new_id w.tick;
              task_id = cfg.task_id;
              sub_task_id = cfg.sub_task_id;
              tool = name;
            }
              ∷ [];
      })
      w

module _ (sv : Services) (r : AgentRunner) (cfg : RunConfig) where
  abbrev pub tool_context : ToolContext
  tool_context = record {
    user_id = cfg.user_id;
    task_id = cfg.task_id;
    sub_task_id = cfg.sub_task_id;
  }

  -- The loop over `resp.Content`: one pair of an id and a result for each call of a tool.
  unfoldable pub run_tools : List ContentBlock → World → List (String × ToolResult) × World
  unfolding log_tool_call
  run_tools [] w = ([], w)
  run_tools (ContentBlock.tool_use id name input ∷ bs) w =
      let (result, w₁) = execute r.registry name input tool_context w in
      let (logged, w₂) = log_tool_call sv cfg name w₁ in
      let (sent, w₃) = send cfg.user_id (progress_event cfg name) w₂ in
      let (rest, w₄) = run_tools bs w₃ in ((id, result) ∷ rest, w₄)
  run_tools (_ ∷ bs) w = run_tools bs w

  tool_calls : List ContentBlock → List ToolCall
  tool_calls [] = []
  tool_calls (ContentBlock.tool_use id name input ∷ bs) =
      record { id = id; name = name; arguments = input } ∷ tool_calls bs
  tool_calls (_ ∷ bs) = tool_calls bs

  -- The text of the last text block.
  last_text : String → List ContentBlock → String
  last_text found [] = found
  last_text found (text t ∷ bs) = last_text t bs
  last_text found (_ ∷ bs) = last_text found bs

  -- What a round adds to the conversation, in the format of either service.
  unfoldable pub turn : List ContentBlock → List (String × ToolResult) → List Message
  unfolding tool_calls last_text
  turn content results =
      if r.is_open_router
      then record { role = assistant; content = calls (last_text "" content) (tool_calls content) }
        ∷ map (λ (p : String × ToolResult). record { role = tool; content = tool_output p.0 p.1 })
            results
      else record { role = assistant; content = blocks content }
        ∷ record { role = user; content = tool_results results }
        ∷ []

  -- A round behind the answer of the model; `again` is the rest of the loop.
  unfoldable pub after_answer :
      (List Message → ℕ → Io RunOutcome) → ℕ → List Message → ℕ → Result Response → Io RunOutcome
  unfolding run_tools turn
  after_answer again round messages count (err e) w = (run_failed (call_failed round e), w)
  after_answer again round messages count (ok resp) w = elim resp.stop_reason [
    | end_turn ↦ (finished (get_text_response resp) count, w)
    | StopReason.tool_use ↦
        (let (results, w') = run_tools resp.content w in
          again (messages ++ turn resp.content results) (count + length results) w')
    | other_reason s ↦ again messages count w
  ]

  -- `left` rounds are left, and `round` of them are done.
  unfoldable pub rounds : ℕ → ℕ → ℕ → List Message → ℕ → Io RunOutcome
  unfolding after_answer
  rounds zero round start messages count w = (run_failed out_of_rounds, w)
  rounds (suc left) round start messages count w =
      let (now, w₁) = clock sv w in
      let again = rounds left (round + 1) start in
      if ltb (start + timeout_duration) now
      then (run_failed (timed_out round), w₁)
      else (let (answer, w₂) =
            call sv r.claude agent_prompt messages (to_ai_tools r.registry) 4096 w₁ in
          after_answer again round messages count answer w₂)

  unfoldable pub run : Io RunOutcome
  run w =
      let (start, w') = clock sv w in
      rounds max_rounds 0 start (record { role = user; content = plain cfg.description } ∷ []) 0 w'
