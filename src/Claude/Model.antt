-- ===== src/Claude/Model.antt =====
-- The types of server/internal/ai/claude.go: messages, tools, content blocks and answers, and what
-- the two HTTP services answer.
use crew_im.Prelude.{ℕ, String, Bool, List}
use crew_im.Model.{Params}

-- A `ContentBlock` by its `Type`; any other type is never looked into.
pub data ContentBlock : Type 0 where
  text : String → ContentBlock
  tool_use : String → String → Params → ContentBlock
  other_block : String → ContentBlock

pub data StopReason : Type 0 where
  end_turn : StopReason
  tool_use : StopReason
  other_reason : String → StopReason

pub record Response : Type 0 where
  pub id : String
  pub content : List ContentBlock
  pub stop_reason : StopReason

-- `tool.Result`, with the parts of `Data` that the tools build.
pub record ToolResult : Type 0 where
  pub success : Bool
  pub entries : List (List (String × String))
  pub error : String

-- A `tool_calls` entry: the id, the name and the arguments, which are marshalled into it.
pub record ToolCall : Type 0 where
  pub id : String
  pub name : String
  pub arguments : Params

-- The `Content` of a `Message`, of type `any`, by the values that the program puts there. A tool's
-- result is marshalled into its message.
pub data Content : Type 0 where
  plain : String → Content
  blocks : List ContentBlock → Content
  calls : String → List ToolCall → Content
  tool_output : String → ToolResult → Content
  tool_results : List (String × ToolResult) → Content
  -- the two lists as the text of their JSON
  blocks_text : List ContentBlock → Content
  results_text : List (String × ToolResult) → Content

pub data Role : Type 0 where
  user assistant tool system : Role

pub record Message : Type 0 where
  pub role : Role
  pub content : Content

pub record Tool : Type 0 where
  pub name : String
  pub description : String

-- The body of a request, with the key that goes into its header.
pub record ChatRequest : Type 0 where
  pub key : String
  pub model : String
  pub max_tokens : ℕ
  pub system : String
  pub messages : List Message
  pub tools : List Tool

-- What `http.DefaultClient.Do` gives: an error, or a status, the body's text and the body as
-- `json.Unmarshal` reads it.
pub data HttpReply (B : Type 0) : Type 0 where
  unreachable : String → HttpReply B
  replied : ℕ → String → B → HttpReply B

pub record OpenRouterChoice : Type 0 where
  pub content : String
  pub tool_calls : List ToolCall
  pub finish_reason : String

pub record OpenRouterReply : Type 0 where
  pub id : String
  pub choices : List OpenRouterChoice
