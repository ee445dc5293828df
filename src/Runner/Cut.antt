-- ===== src/Runner/Cut.antt =====
-- The agent's loop on answers that stop for another reason than the loop knows: runner.go.
use crew_im.Prelude.{
  ℕ, zero, suc, ◌+◌, ◌≤◌, String, ◌≡◌, refl, false, List, [], ◌∷◌, arith, ltb, is_empty, ok, ◌*◌,
  ap, decimal, ◌∙◌,
}
use crew_im.Claude.Model.{ChatRequest, Response, replied, text, other_reason, Message, Tool}
use crew_im.Tools.Registry.{to_ai_tools}
use crew_im.Claude.Client.{anthropic_model, ClaudeClient, call, call_anthropic_direct}
use crew_im.World.{World, Services, ticked}
use crew_im.Runner.{
  AgentRunner, RunConfig, run, rounds, after_answer, run_failed, out_of_rounds, agent_prompt,
  error_text, timeout_duration, max_rounds,
}

-- An answer that was cut at the token limit: its text, and the reason `max_tokens`.
abbrev pub cut_answer : String → Response
cut_answer s = record { id = ""; content = text s ∷ []; stop_reason = other_reason "max_tokens" }

-- A service that answers each request, and never to the end.
abbrev pub IsCut : Services → Type 0
IsCut sv =
    (tick : ℕ) (q : ChatRequest)
    → (s : String) × (sv.anthropic tick q ≡ replied 200 "" (cut_answer s))

call-cut :
    (sv : Services) (c : ClaudeClient) (sys : String) (messages : List Message) (tools : List Tool)
    (w : World)
    → IsCut sv
    → c.is_open_router ≡ false
    → is_empty c.api_key ≡ false
    → (s : String) × (call sv c sys messages tools 4096 w ≡ (ok (cut_answer s), ticked w))
unfolding call call_anthropic_direct
call-cut sv c sys messages tools w cut direct key =
    let (s, e) = cut w.tick (record {
      key = c.api_key;
      model = anthropic_model;
      max_tokens = 4096;
      system = sys;
      messages = messages;
      tools = tools;
    }) in
    (s, rw (direct, key, e))

rounds-cut :
    (sv : Services) (r : AgentRunner) (cfg : RunConfig) (left round start : ℕ)
    (messages : List Message) (count : ℕ) (w : World)
    → IsCut sv
    → r.claude.is_open_router ≡ false
    → is_empty r.claude.api_key ≡ false
    → ((t : ℕ) → sv.now t ≤ start + timeout_duration)
    → rounds sv r cfg left round start messages count w
      ≡ (run_failed out_of_rounds, record w { tick = w.tick + 2 * left })
unfolding rounds after_answer
rounds-cut sv r cfg zero round start messages count w cut direct key soon =
    let still : w.tick + 2 * 0 ≡ w.tick = omega arith in rw still refl
rounds-cut sv r cfg (suc left) round start messages count w cut direct key soon =
    let in_time : ltb (start + timeout_duration) (sv.now w.tick) ≡ false =
      ground (arith, soon w.tick) in
    let (s, e) =
      call-cut sv r.claude agent_prompt messages (to_ai_tools r.registry) (ticked w) cut direct
        key in
    let count_up : w.tick + 1 + 1 + 2 * left ≡ w.tick + 2 * suc left = omega arith in
    let rest =
      rounds-cut sv r cfg left (round + 1) start messages count (ticked (ticked w)) cut direct key
        soon in
    rw (in_time, e) (rest ∙ ap (λ n. (run_failed out_of_rounds, record w { tick = n })) count_up)

-- A model whose answers are all cut at the token limit makes every run fail with the error "agent
-- exceeded maximum 10 rounds", although each answer had a text, and the run has then asked it ten
-- times: it looks at the clock once at the start, and each of ten rounds looks at the clock and
-- makes one request; nothing else happens to the world. The client asks Anthropic with a key, and a
-- minute does not pass.
pub run_cut :
    (sv : Services) (r : AgentRunner) (cfg : RunConfig) (w : World)
    → IsCut sv
    → r.claude.is_open_router ≡ false
    → is_empty r.claude.api_key ≡ false
    → ((t u : ℕ) → sv.now t ≤ sv.now u + timeout_duration)
    → ((run sv r cfg w).0 ≡ run_failed out_of_rounds)
      × (error_text out_of_rounds ≡ "agent exceeded maximum 10 rounds")
      × ((run sv r cfg w).1 ≡ record w { tick = w.tick + 1 + 10 * 2 })
unfolding run error_text decimal
run_cut sv r cfg w cut direct key soon =
    let all =
      rounds-cut sv r cfg max_rounds 0 (sv.now w.tick) _ 0 (ticked w) cut direct key
        (λ t. soon t w.tick) in
    (ap (λ o. o.0) all, refl, ap (λ o. o.1) all)
