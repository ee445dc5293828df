-- ===== src/Tools/Documents.antt =====
-- `NewDocumentTool` of server/internal/tool/document.go.
use crew_im.Prelude.{String, [], ◌∷◌, ◌<>◌, Result, ok, err}
use crew_im.Model.{Params}
use crew_im.Claude.Model.{ToolResult}
use crew_im.World.{Services, Io}
use crew_im.Tools.Registry.{Definition, ToolContext, failure, success, string_param}
use crew_im.Claude.Model.{Response, Role, plain}
use crew_im.Claude.Client.{ClaudeClient, call, get_text_response}

document_reply : String → Result Response → ToolResult
document_reply title (err e) = failure e
document_reply title (ok resp) =
    success ((("title", title) ∷ ("content", get_text_response resp) ∷ []) ∷ [])

unfoldable pub generate_document : Services → ClaudeClient → Params → ToolContext → Io ToolResult
unfolding document_reply
generate_document sv claude ps ctx w =
    let title = string_param ps "title" in
    let question =
      "类型："
      <> string_param ps "type"
      <> "\n标题："
      <> title
      <> "\n要求："
      <> string_param ps "content_prompt"
      <> "\n\n直接输出内容，简洁清晰。" in
    let (answer, w') =
      call sv claude "你是一个专业的文档撰写助手。直接输出高质量的内容。"
        (record { role = Role.user; content = plain question } ∷ []) [] 2048 w in
    (document_reply title answer, w')

abbrev pub document_tool : Services → ClaudeClient → Definition
document_tool sv claude = record {
  name = "generate_document";
  description = "生成文档、方案、简报、清单等";
  execute = generate_document sv claude;
}
