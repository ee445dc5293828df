-- ===== src/Claude/Client.antt =====
-- `ClaudeClient` of server/internal/ai/claude.go: which key, model and address it takes, its call
-- of OpenRouter with Anthropic to fall back on, and the first text of an answer. The variables of
-- the environment are arguments, and so is the HTTP service behind `Services`.
use crew_im.Prelude.{
  ℕ, String, Bool, true, false, not, Option, none, some, List, [], ◌∷◌, ◌++◌, map, ◌==◌,
  if◌then◌else◌, is_empty, ◌<>◌, decimal, str_eq, Result, ok, err,
}
use crew_im.Claude.Model.{
  ContentBlock, text, StopReason, end_turn, Response, Content, plain, blocks, tool_results,
  blocks_text, results_text, user, system, Message, Tool, ToolCall, HttpReply, unreachable, replied,
  OpenRouterChoice, OpenRouterReply,
}
use crew_im.World.{Services, Io, ticked}

pub record ClaudeClient : Type 0 where
  pub api_key : String
  pub model : String
  pub base_url : String
  pub is_open_router : Bool
  pub anthropic_key : String

abbrev pub anthropic_model : String
anthropic_model = "claude-sonnet-4-20250514"

abbrev pub anthropic_url : String
anthropic_url = "https://api.anthropic.com/v1/messages"

-- `NewClaudeClient` by the keys of the two variables and the argument.
unfoldable pub new_claude_client : String → String → String → ClaudeClient
new_claude_client or_key an_key api_key =
    if not (is_empty or_key)
    then record {
      api_key = or_key;
      model = "anthropic/claude-sonnet-4";
      base_url = "https://openrouter.ai/api/v1/chat/completions";
      is_open_router = true;
      anthropic_key = an_key;
    }
    else if not (is_empty an_key)
    then record {
      api_key = an_key;
      model = anthropic_model;
      base_url = anthropic_url;
      is_open_router = false;
      anthropic_key = an_key;
    }
    else record {
      api_key = api_key;
      model = anthropic_model;
      base_url = anthropic_url;
      is_open_router = false;
      anthropic_key = "";
    }

-- The answer of `api.anthropic.com`: what is no JSON leaves an empty `Response`, which is part of
-- what the service is said to answer.
anthropic_result : HttpReply Response → Result Response
anthropic_result (unreachable e) = err ("anthropic api: " <> e)
anthropic_result (replied status body r) =
    if status == 200 then ok r else err ("anthropic error " <> decimal status <> ": " <> body)

unfoldable pub call_anthropic_direct :
    Services → String → String → List Message → List Tool → ℕ → Io (Result Response)
unfolding anthropic_result
call_anthropic_direct sv key sys messages tools max_tokens w =
    if is_empty key then (err "no Anthropic API key configured", w) else (
      anthropic_result (
          sv.anthropic w.tick (record {
            key = key;
            model = anthropic_model;
            max_tokens = max_tokens;
            system = sys;
            messages = messages;
            tools = tools;
          })),
      ticked w,
    )

-- The `switch` over `m.Content`: what is neither a string nor a map is marshalled into a text.
unfoldable pub or_content : Content → Content
or_content (blocks bs) = blocks_text bs
or_content (tool_results rs) = results_text rs
or_content c = c

unfoldable pub or_messages : String → List Message → List Message
unfolding or_content
or_messages sys messages =
    record { role = system; content = plain sys }
    ∷ map (λ (m : Message). record m { content = or_content m.content }) messages

or_call : ToolCall → ContentBlock
or_call c = ContentBlock.tool_use c.id c.name c.arguments

unfoldable pub or_response : String → OpenRouterChoice → Response
unfolding or_call
or_response id choice = record {
  id = id;
  content =
      (if is_empty choice.content then [] else text choice.content ∷ [])
      ++ map or_call choice.tool_calls;
  stop_reason = if str_eq choice.finish_reason "tool_calls" then StopReason.tool_use else end_turn;
}

or_choice : String → List OpenRouterChoice → Result Response
unfolding or_response
or_choice id [] = err "openrouter: no choices in response"
or_choice id (choice ∷ rest) = ok (or_response id choice)

or_result : HttpReply (Option OpenRouterReply) → Result Response
unfolding or_choice
or_result (unreachable e) = err ("openrouter api: " <> e)
or_result (replied status body none) =
    if status == 200
    then err "parse openrouter response"
    else err ("openrouter error " <> decimal status <> ": " <> body)
or_result (replied status body (some r)) =
    if status == 200
    then or_choice r.id r.choices
    else err ("openrouter error " <> decimal status <> ": " <> body)

unfoldable pub call_open_router :
    Services → ClaudeClient → String → List Message → List Tool → ℕ → Io (Result Response)
unfolding or_result or_messages
call_open_router sv c sys messages tools max_tokens w = (
  or_result (
      sv.open_router w.tick (record {
        key = c.api_key;
        model = c.model;
        max_tokens = max_tokens;
        system = sys;
        messages = or_messages sys messages;
        tools = tools;
      })),
  ticked w,
)

-- Anthropic is asked where OpenRouter failed and there is a key for it.
fall_back :
    Services
    → ClaudeClient
    → String
    → List Message
    → List Tool
    → ℕ
    → Result Response
    → Io (Result Response)
fall_back sv c sys messages tools max_tokens (ok r) w = (ok r, w)
fall_back sv c sys messages tools max_tokens (err e) w =
    if not (is_empty c.anthropic_key)
    then call_anthropic_direct sv c.anthropic_key sys messages tools max_tokens w
    else (err e, w)

unfoldable pub call :
    Services → ClaudeClient → String → List Message → List Tool → ℕ → Io (Result Response)
unfolding fall_back
call sv c sys messages tools max_tokens w =
    let max = if max_tokens == 0 then 4096 else max_tokens in
    if c.is_open_router
    then (let (r, w') = call_open_router sv c sys messages tools max w in
        fall_back sv c sys messages tools max r w')
    else call_anthropic_direct sv c.api_key sys messages tools max w

-- The first text block, or "".
unfoldable pub get_text_blocks : List ContentBlock → String
get_text_blocks [] = ""
get_text_blocks (text t ∷ bs) = t
get_text_blocks (_ ∷ bs) = get_text_blocks bs

unfoldable pub get_text_response : Response → String
unfolding get_text_blocks
get_text_response r = get_text_blocks r.content

text_result : Result Response → Result String
text_result (ok r) = ok (get_text_response r)
text_result (err e) = err e

unfoldable pub call_simple : Services → ClaudeClient → String → String → ℕ → Io (Result String)
unfolding text_result
call_simple sv c sys message max_tokens w =
    let (r, w') =
      call sv c sys (record { role = user; content = plain message } ∷ []) [] max_tokens w in
    (text_result r, w')
