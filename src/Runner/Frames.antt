-- ===== src/Runner/Frames.antt =====
-- What a run of the agent leaves alone in general: runner.go.
use crew_im.Prelude.{
  ℕ, zero, suc, ◌+◌, String, ◌≡◌, refl, inl, inr, List, [], ◌∷◌, ◌++◌, ltb, Bool-cases, All, length,
  str_eq, Result, ok, err,
}
use crew_im.Model.{Params, Task, SubTask, PushEvent}
use crew_im.Claude.Model.{
  ContentBlock, text, other_block, Message, Response, StopReason, other_reason, end_turn,
}
use crew_im.Tools.Registry.{Registry, Definition, ToolContext, execute, get}
use crew_im.Claude.Calls.{call-LaterThan}
use crew_im.World.{World, Services, ExecutionLog, send, ticked}
use crew_im.Runner.{
  AgentRunner, RunConfig, run_tools, tool_context, progress_event, log_tool_call, rounds,
  RunOutcome, after_answer, Io, run, call, agent_prompt, max_rounds, to_ai_tools, timeout_duration,
  turn,
}

-- A relation of worlds that the work on a task of a user goes along with: time, the tables of tasks and
-- logs, and pushes to this user do not matter to it.
pub record IsFrame (user : ℕ) (R : World → World → Type 0) : Type 0 where
  pub along : (u v w : World) → R u v → R v w → R u w
  pub own :
      (w : World) (t : ℕ) (ts : List Task) (ss : List SubTask) (ls : List ExecutionLog)
      → R w (record w { tick = t; tasks = ts; sub_tasks = ss; execution_logs = ls })
  pub pushes : (w : World) (e : PushEvent) → R w (record w { pushed = w.pushed ++ (user, e) ∷ [] })

-- A tool that goes along with it, when it works for this user.
abbrev pub Respects : ℕ → (World → World → Type 0) → Definition → Type 0
Respects user R d =
    (ps : Params) (ctx : ToolContext) (w : World) → ctx.user_id ≡ user → R w (d.execute ps ctx w).1

module _ (user : ℕ) (R : World → World → Type 0) (frame : IsFrame user R) where
  pub stay : (w : World) → R w w
  stay w = frame.own w w.tick w.tasks w.sub_tasks w.execution_logs

  pub later : (w : World) (t : ℕ) → R w (record w { tick = t })
  later w t = frame.own w t w.tasks w.sub_tasks w.execution_logs

  execute-Frame :
      (rs : Registry) (name : String) (ps : Params) (ctx : ToolContext) (w : World)
      → All (Respects user R) rs
      → ctx.user_id ≡ user
      → R w (execute rs name ps ctx w).1
  unfolding execute get
  execute-Frame [] name ps ctx w q same = stay w
  execute-Frame (d ∷ ds) name ps ctx w q same = elim (Bool-cases (str_eq d.name name)) [
    | inl e ↦ rw (e, execute) (q.0 ps ctx w same)
    | inr e ↦ rw (e, execute) (execute-Frame ds name ps ctx w q.1 same)
  ]

module _ (R : World → World → Type 0) (sv : Services) (r : AgentRunner) (cfg : RunConfig)
    (frame : IsFrame cfg.user_id R) (tools : All (Respects cfg.user_id R) r.registry) where
  log_and_send-Frame :
      (name : String) (w : World)
      → R w (send cfg.user_id (progress_event cfg name) (log_tool_call sv cfg name w).1).1
  unfolding log_tool_call
  log_and_send-Frame name w =
      (frame.along w (log_tool_call sv cfg name w).1 _
        (elim (Bool-cases (sv.db_ok w.tick)) [
          | inl e ↦ rw e (frame.own w (w.tick + 1) w.tasks w.sub_tasks _)
          | inr e ↦ rw e (later cfg.user_id R frame w (w.tick + 1))
        ])
        (frame.pushes (log_tool_call sv cfg name w).1 (progress_event cfg name)))

  run_tools-Frame : (bs : List ContentBlock) (w : World) → R w (run_tools sv r cfg bs w).1
  unfolding run_tools
  run_tools-Frame [] w = stay cfg.user_id R frame w
  run_tools-Frame (text t ∷ bs) w = run_tools-Frame bs w
  run_tools-Frame (other_block t ∷ bs) w = run_tools-Frame bs w
  run_tools-Frame (ContentBlock.tool_use id name input ∷ bs) w =
      let w₁ = (execute r.registry name input (tool_context sv r cfg) w).1 in
      let w₃ = (send cfg.user_id (progress_event cfg name) (log_tool_call sv cfg name w₁).1).1 in
      frame.along w w₁ _
        (execute-Frame cfg.user_id R frame r.registry name input (tool_context sv r cfg) w tools
          refl)
        (frame.along w₁ w₃ _ (log_and_send-Frame name w₁) (run_tools-Frame bs w₃))

  after_answer-Frame :
      (again : List Message → ℕ → Io RunOutcome) (round : ℕ) (messages : List Message) (count : ℕ)
      (answer : Result Response) (w : World)
      → ((ms : List Message) (n : ℕ) (v : World) → R v (again ms n v).1)
      → R w (after_answer sv r cfg again round messages count answer w).1
  unfolding after_answer
  after_answer-Frame again round messages count (err e) w h = stay cfg.user_id R frame w
  after_answer-Frame again round messages count (ok resp) w h = by_reason resp.stop_reason refl
    where
      by_reason :
          (s : StopReason)
          → resp.stop_reason ≡ s
          → R w (after_answer sv r cfg again round messages count (ok resp) w).1
      by_reason end_turn e = rw (e, after_answer) (stay cfg.user_id R frame w)
      by_reason StopReason.tool_use e =
          let (results, w') = run_tools sv r cfg resp.content w in
          rw (e, after_answer)
            (frame.along w w' _ (run_tools-Frame resp.content w)
              (h (messages ++ turn sv r cfg resp.content results) (count + length results) w'))
      by_reason (other_reason t) e = rw (e, after_answer) (h messages count w)

  call-Frame :
      (w : World) (messages : List Message)
      → R w (call sv r.claude agent_prompt messages (to_ai_tools r.registry) 4096 w).1
  call-Frame w messages =
      rw ((call-LaterThan sv r.claude agent_prompt messages (to_ai_tools r.registry) 4096 w).0)
        (later cfg.user_id R frame w _)

  rounds-Frame :
      (left round start : ℕ) (messages : List Message) (count : ℕ) (w : World)
      → R w (rounds sv r cfg left round start messages count w).1
  unfolding rounds
  rounds-Frame zero round start messages count w = stay cfg.user_id R frame w
  rounds-Frame (suc left) round start messages count w =
      let (answer, v) =
        call sv r.claude agent_prompt messages (to_ai_tools r.registry) 4096 (ticked w) in
      frame.along w (ticked w) _ (later cfg.user_id R frame w (w.tick + 1))
        (elim (Bool-cases (ltb (start + timeout_duration) (sv.now w.tick))) [
          | inl late ↦ rw late (stay cfg.user_id R frame (ticked w))
          | inr soon ↦ rw soon (
              frame.along (ticked w) v _ (call-Frame (ticked w) messages) (
                after_answer-Frame (rounds sv r cfg left (round + 1) start) round messages count
                  answer v (λ ms n u. rounds-Frame left (round + 1) start ms n u)))
        ])

  -- A run of the agent goes along with every relation that its tools go along with.
  pub run-Frame : (w : World) → R w (run sv r cfg w).1
  unfolding run
  run-Frame w =
      frame.along w (ticked w) _ (later cfg.user_id R frame w (w.tick + 1))
        (rounds-Frame max_rounds 0 (sv.now w.tick) _ 0 (ticked w))
