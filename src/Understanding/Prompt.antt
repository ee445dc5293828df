-- ===== src/Understanding/Prompt.antt =====
-- `BuildUnderstandingPrompt` of server/internal/ai/prompts.go. The profile is a Go map, whose order
-- is not fixed; here it is the list's.
use crew_im.Prelude.{String, List, [], ◌∷◌, map, join, ◌<>◌}
use crew_im.Model.{Params, Json, text, other}

pub record UserContext : Type 0 where
  pub profile : Params
  pub rules : List String
  -- a status and an understanding
  pub active_tasks : List (String × String)
  -- an input and an understanding
  pub history : List (String × String)
  pub memories : List String

part_a : String
part_a = "你是一位管理者的 AI 参谋长。你的唯一职责是：\n准确理解管理者的指令，并转化为可执行的任务计划。\n\n## 管理者信息\n"

part_b : String
part_b = "\n\n## 管理者的规则\n"

part_c : String
part_c = "\n\n## 当前正在进行的任务\n"

part_d : String
part_d = "\n\n## 近期历史（供指代消解）\n"

part_e : String
part_e = "\n\n## 相关记忆\n"

part_f : String
part_f =
    "\n\n## 你的输出\n严格返回以下 JSON（不要附加其他内容，不要用 markdown 代码块包裹）：\n{\n"
    <> "  \"understanding\": \"用一句管理者能看懂的话描述你的理解\",\n  \"execution_plan\": {\n    \"steps\": [\n"
    <> "      {\n        \"description\": \"步骤描述\",\n        \"tools_needed\": [\"需要的工具名\"],\n"
    <> "        \"can_parallel\": false\n      }\n    ],\n"
    <> "    \"requires_confirmation\": false,\n    \"confirmation_message\": \"\"\n  },\n"
    <> "  \"risk_level\": \"low\",\n  \"intent_type\": \"task\",\n  \"related_task_id\": null\n}\n\n"
    <> "## 风险判断\n- 读取/整理/分析/生成/提醒 → \"low\"\n- 涉及通知他人/修改数据/触发外部动作 → \"medium\"\n"
    <> "- 大范围影响/不可逆/涉及敏感信息 → \"high\"\n\n## intent_type 判断\n- \"goal\": 持续性目标\n- \"focus\": 持续性监控\n"
    <> "- \"rule\": 持续性规则\n- \"task\": 一次性管理动作"

-- `%v` of a value of the profile.
printed : Json → String
printed (text s) = s
printed (other s) = s

-- A default for no lines, and the lines joined.
unfoldable pub lines_or : String → List String → String
lines_or d [] = d
lines_or d (l ∷ ls) = join "\n" (l ∷ ls)

unfoldable pub build_understanding_prompt : UserContext → String
unfolding lines_or printed part_a part_b part_c part_d part_e part_f
build_understanding_prompt ctx =
    let profile =
      lines_or "尚未设定" (map (λ (p : String × Json). p.0 <> ": " <> printed p.1) ctx.profile) in
    let rules = lines_or "无" (map (λ (r : String). "- " <> r) ctx.rules) in
    let active =
      lines_or "无" (map (λ (t : String × String). "- [" <> t.0 <> "] " <> t.1) ctx.active_tasks) in
    let history =
      lines_or "无" (map (λ (h : String × String). "- " <> h.0 <> " → " <> h.1) ctx.history) in
    let memory = lines_or "无" (map (λ (s : String). "- " <> s) ctx.memories) in
    part_a <> profile <> part_b <> rules <> part_c <> active <> part_d <> history <> part_e
    <> memory <> part_f
