-- ===== src/Claude/Calls.antt =====
-- What a call of the language model does: claude.go.
use crew_im.Prelude.{ℕ, ◌+◌, ◌≤◌, String, ◌≡◌, refl, List, arith, err}
use crew_im.Claude.Model.{Message, Tool}
use crew_im.World.{World, Services}
use crew_im.Claude.Client.{
  ClaudeClient, new_claude_client, call, call_open_router, call_anthropic_direct,
}

-- A call only takes time: the tables, pushes and jobs stay as they are, and it asks two services at
-- most.
abbrev pub LaterThan : ℕ → World → World → Type 0
LaterThan n w w' = (w' ≡ record w { tick = w'.tick }) × (w.tick ≤ w'.tick) × (w'.tick ≤ w.tick + n)

pub call-LaterThan :
    (sv : Services) (c : ClaudeClient) (sys : String) (messages : List Message) (tools : List Tool)
    (max : ℕ) (w : World)
    → LaterThan 2 w (call sv c sys messages tools max w).1
unfolding call call_open_router call_anthropic_direct
call-LaterThan sv c sys messages tools max w = (ground arith, ground arith, ground arith)

-- Without any key there is no answer and no request: the call fails at once.
pub call_without_key :
    (sv : Services) (sys : String) (messages : List Message) (tools : List Tool) (max : ℕ)
    (w : World)
    → call sv (new_claude_client "" "" "") sys messages tools max w
      ≡ (err "no Anthropic API key configured", w)
unfolding call new_claude_client call_anthropic_direct
call_without_key sv sys messages tools max w = refl
