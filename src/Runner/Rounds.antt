-- ===== src/Runner/Rounds.antt =====
-- What a run of the agent leaves behind, where its tools keep to their own tables: runner.go.
use crew_im.Prelude.{
  ℕ, ◌+◌, String, ◌≡◌, refl, ap, ◌∙◌, inl, inr, List, [], ◌∷◌, arith, Bool-cases, All, length,
  length-append, str_eq, suc, Result, err, ok, zero, ltb,
}
use crew_im.Model.{Params}
use crew_im.Claude.Model.{
  ContentBlock, text, other_block, Message, Response, StopReason, other_reason, end_turn,
}
use crew_im.Tools.Registry.{Registry, Definition, ToolContext, execute, get}
use crew_im.Claude.Calls.{call-LaterThan}
use crew_im.World.{World, Services, send, ticked}
use crew_im.Runner.{
  AgentRunner, RunConfig, run_tools, tool_context, progress_event, log_tool_call, rounds,
  RunOutcome, after_answer, RunError, finished, run_failed, out_of_rounds, Io, call_failed, run,
  call, agent_prompt, max_rounds, to_ai_tools, timeout_duration, timed_out,
}

-- What tools leave alone.
pub record Kept (w w' : World) : Type 0 where
  pub tasks : w'.tasks ≡ w.tasks
  pub sub_tasks : w'.sub_tasks ≡ w.sub_tasks
  pub sessions : w'.sessions ≡ w.sessions
  pub enqueued : w'.enqueued ≡ w.enqueued
  pub started : w'.started ≡ w.started

-- The contract of a tool with the runner: it keeps to its own tables and pushes nothing.
pub record IsQuiet (d : Definition) : Type 0 where
  pub kept : (ps : Params) (ctx : ToolContext) (w : World) → Kept w (d.execute ps ctx w).1
  pub pushed :
      (ps : Params) (ctx : ToolContext) (w : World) → (d.execute ps ctx w).1.pushed ≡ w.pushed

Kept-refl : (w : World) → Kept w w
Kept-refl w = record {
  tasks = refl;
  sub_tasks = refl;
  sessions = refl;
  enqueued = refl;
  started = refl;
}

Kept-trans : (u v w : World) → Kept u v → Kept v w → Kept u w
Kept-trans u v w h k = record {
  tasks = k.tasks ∙ h.tasks;
  sub_tasks = k.sub_tasks ∙ h.sub_tasks;
  sessions = k.sessions ∙ h.sessions;
  enqueued = k.enqueued ∙ h.enqueued;
  started = k.started ∙ h.started;
}

-- A world with so many more pushes, and what tools leave alone left alone.
record Effect (n : ℕ) (w w' : World) : Type 0 where
  kept : Kept w w'
  pushes : length w'.pushed ≡ length w.pushed + n

Effect-trans :
    (m n total : ℕ) (u v w : World) → m + n ≡ total → Effect m u v → Effect n v w → Effect total u w
Effect-trans m n total u v w e h k = record {
  kept = Kept-trans u v w h.kept k.kept;
  pushes = omega (arith, h.pushes, k.pushes);
}

Effect-tick : (w : World) (t : ℕ) → Effect 0 w (record w { tick = t })
Effect-tick w t = record {
  kept = record {
    tasks = refl;
    sub_tasks = refl;
    sessions = refl;
    enqueued = refl;
    started = refl;
  };
  pushes = omega arith;
}

execute-Effect :
    (rs : Registry) (name : String) (ps : Params) (ctx : ToolContext) (w : World)
    → All IsQuiet rs
    → Effect 0 w (execute rs name ps ctx w).1
unfolding execute get
execute-Effect [] name ps ctx w q = Effect-tick w w.tick
execute-Effect (d ∷ ds) name ps ctx w q = elim (Bool-cases (str_eq d.name name)) [
  | inl e ↦
      rw (e, execute)
        (record {
          kept = q.0.kept ps ctx w;
          pushes = omega (arith, ap length (q.0.pushed ps ctx w));
        })
  | inr e ↦ rw (e, execute) (execute-Effect ds name ps ctx w q.1)
]

module _ (sv : Services) (r : AgentRunner) (cfg : RunConfig) (quiet : All IsQuiet r.registry) where
  log_and_send-Effect :
      (name : String) (w : World)
      → Effect 1 w (send cfg.user_id (progress_event cfg name) (log_tool_call sv cfg name w).1).1
  unfolding log_tool_call
  log_and_send-Effect name w = elim (Bool-cases (sv.db_ok w.tick)) [
    | inl e ↦ rw e (record {
      kept = record {
        tasks = refl;
        sub_tasks = refl;
        sessions = refl;
        enqueued = refl;
        started = refl;
      };
      pushes = length-append w.pushed _;
    })
    | inr e ↦ rw e (record {
      kept = record {
        tasks = refl;
        sub_tasks = refl;
        sessions = refl;
        enqueued = refl;
        started = refl;
      };
      pushes = length-append w.pushed _;
    })
  ]

  run_tools-Effect :
      (bs : List ContentBlock) (w : World)
      → Effect (length (run_tools sv r cfg bs w).0) w (run_tools sv r cfg bs w).1
  unfolding run_tools
  run_tools-Effect [] w = Effect-tick w w.tick
  run_tools-Effect (text t ∷ bs) w = run_tools-Effect bs w
  run_tools-Effect (other_block t ∷ bs) w = run_tools-Effect bs w
  run_tools-Effect (ContentBlock.tool_use id name input ∷ bs) w =
      let w₁ = (execute r.registry name input (tool_context sv r cfg) w).1 in
      let w₃ = (send cfg.user_id (progress_event cfg name) (log_tool_call sv cfg name w₁).1).1 in
      let more : ℕ = length (run_tools sv r cfg bs w₃).0 in
      Effect-trans 0 (suc more) (suc more) w w₁ _ (omega arith)
        (execute-Effect r.registry name input (tool_context sv r cfg) w quiet)
        (Effect-trans 1 more (suc more) w₁ w₃ _ (omega arith) (log_and_send-Effect name w₁)
          (run_tools-Effect bs w₃))

  -- A run from a count of tool calls on: it pushes as often as it adds to the count.
  record Counted (count : ℕ) (w : World) (p : RunOutcome × World) : Type 0 where
    extra : ℕ
    effect : Effect extra w p.1
    exact : (out : String) (n : ℕ) → p.0 ≡ finished out n → n ≡ count + extra

  Counted-behind :
      (m count : ℕ) (v w : World) (p : RunOutcome × World)
      → Effect m v w
      → Counted (count + m) w p
      → Counted count v p
  Counted-behind m count v w p e c = record {
    extra = m + c.extra;
    effect = Effect-trans m c.extra (m + c.extra) v w p.1 refl e c.effect;
    exact = λ out n h. omega (arith, c.exact out n h);
  }

  Counted-after :
      (count : ℕ) (v w : World) (p : RunOutcome × World)
      → Effect 0 v w
      → Counted count w p
      → Counted count v p
  Counted-after count v w p e c = record {
    extra = c.extra;
    effect = Effect-trans 0 c.extra c.extra v w p.1 (omega arith) e c.effect;
    exact = c.exact;
  }

  Counted-failed : (count : ℕ) (w : World) (e : RunError) → Counted count w (run_failed e, w)
  Counted-failed count w e = record {
    extra = 0;
    effect = Effect-tick w w.tick;
    exact = λ out n h. cc;
  }

  after_answer-Counted :
      (again : List Message → ℕ → Io RunOutcome) (round : ℕ) (messages : List Message) (count : ℕ)
      (answer : Result Response) (w : World)
      → ((ms : List Message) (n : ℕ) (v : World) → Counted n v (again ms n v))
      → Counted count w (after_answer sv r cfg again round messages count answer w)
  unfolding after_answer
  after_answer-Counted again round messages count (err e) w h =
      Counted-failed count w (call_failed round e)
  after_answer-Counted again round messages count (ok resp) w h = by_reason resp.stop_reason refl
    where
      by_reason :
          (s : StopReason)
          → resp.stop_reason ≡ s
          → Counted count w (after_answer sv r cfg again round messages count (ok resp) w)
      by_reason end_turn e =
          rw (e, after_answer)
            (record { extra = 0; effect = Effect-tick w w.tick; exact = λ out n k. ground arith })
      by_reason StopReason.tool_use e =
          rw (e, after_answer)
            (Counted-behind (length (run_tools sv r cfg resp.content w).0) count w
              (run_tools sv r cfg resp.content w).1 _ (run_tools-Effect resp.content w) (h _ _ _))
      by_reason (other_reason t) e = rw (e, after_answer) (h messages count w)

  call-Effect :
      (w : World) (messages : List Message)
      → Effect 0 w (call sv r.claude agent_prompt messages (to_ai_tools r.registry) 4096 w).1
  call-Effect w messages =
      rw ((call-LaterThan sv r.claude agent_prompt messages (to_ai_tools r.registry) 4096 w).0)
        (Effect-tick w _)

  rounds-Counted :
      (left round start : ℕ) (messages : List Message) (count : ℕ) (w : World)
      → Counted count w (rounds sv r cfg left round start messages count w)
  unfolding rounds
  rounds-Counted zero round start messages count w = Counted-failed count w out_of_rounds
  rounds-Counted (suc left) round start messages count w =
      Counted-after count w (ticked w) _ (Effect-tick w (w.tick + 1))
        (elim (Bool-cases (ltb (start + timeout_duration) (sv.now w.tick))) [
          | inl late ↦ rw late (Counted-failed count (ticked w) (timed_out round))
          | inr soon ↦ rw soon (
              Counted-after count (ticked w) _ _ (call-Effect (ticked w) messages) (
                after_answer-Counted (rounds sv r cfg left (round + 1) start) round messages count _
                  _ (λ ms n v. rounds-Counted left (round + 1) start ms n v)))
        ])

  run-Counted : (w : World) → Counted 0 w (run sv r cfg w)
  unfolding run
  run-Counted w =
      Counted-after 0 w (ticked w) _ (Effect-tick w (w.tick + 1))
        (rounds-Counted max_rounds 0 (sv.now w.tick) _ 0 (ticked w))

  -- Whatever the model answers and however the run ends, a run of the agent leaves the tasks, the
  -- subtasks, the sessions, the jobs for the workers and the started routines as they were, where
  -- the registry's tools do.
  pub run-Kept : (w : World) → Kept w (run sv r cfg w).1
  run-Kept w = (run-Counted w).effect.kept

  -- A run that finishes reports as many tool calls as it has pushed progress events, where the
  -- registry's tools push nothing.
  pub run_reports :
      (w : World) (out : String) (n : ℕ)
      → (run sv r cfg w).0 ≡ finished out n
      → length (run sv r cfg w).1.pushed ≡ length w.pushed + n
  run_reports w out n h = let c = run-Counted w in omega (arith, c.effect.pushes, c.exact out n h)
