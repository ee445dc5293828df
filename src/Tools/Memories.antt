-- ===== src/Tools/Memories.antt =====
-- `StoreMemory` and `SearchMemory` of server/internal/tool/memory.go. `strings.ToLower` is a parameter.
use crew_im.Prelude.{
  ℕ, String, Bool, true, false, Option, none, some, List, [], ◌∷◌, ◌++◌, map, ◌==◌, if◌then◌else◌,
  take, keep, is_empty,
}
use crew_im.Model.{Params}
use crew_im.Claude.Model.{ToolResult}
use crew_im.World.{World, Services, Io, query_row, insert_row, is_none}
use crew_im.World.Table.{find_by}
use crew_im.Tools.Registry.{Definition, ToolContext, failure, success, string_param}
use text.Mathlib.Text.{find?}
use crew_im.World.{Memory}
use crew_im.Understanding.Context.{latest_first}

pub record MemoryText : Type 0 where
  pub to_lower : String → String
  -- the text of a database error, and of an identifier
  pub db_error : String
  pub id_text : ℕ → String
  -- whether the driver reads a TIMESTAMPTZ into a Go string
  pub reads_times : Bool

id_reply : MemoryText → Option ℕ → ToolResult
id_reply m none = failure m.db_error
id_reply m (some id) = success ((("id", m.id_text id) ∷ []) ∷ [])

unfoldable pub new_memory : ℕ → ToolContext → String → String → ℕ → Memory
new_memory id ctx content type now = record {
  id = id;
  user_id = ctx.user_id;
  task_id = some ctx.task_id;
  content = content;
  memory_type = if is_empty type then "key_info" else type;
  created_at = now;
}

unfoldable pub store_memory : Services → MemoryText → Params → ToolContext → Io ToolResult
unfolding id_reply new_memory
store_memory sv m ps ctx w =
    let (id, w') =
      insert_row sv (λ id v. is_none (find_by (λ (r : Memory). r.id) id v.memories))
        (λ id v. record v {
          memories =
              v.memories
              ++ new_memory id ctx (string_param ps "content") (string_param ps "memory_type")
                  (sv.now w.tick)
                ∷ [];
        })
        w in
    (id_reply m id, w')

holds : String → String → Bool
holds s part = elim (find? s part) [ none ↦ false | some n ↦ true ]

memory_entry : MemoryText → Memory → List (String × String)
memory_entry m r = ("id", m.id_text r.id) ∷ ("content", r.content) ∷ ("type", r.memory_type) ∷ []

-- The latest twenty memories of the user.
select_memories : ℕ → World → List Memory
select_memories user w = take 20 (
    latest_first (λ (r : Memory). r.created_at)
      (keep (λ (r : Memory). r.user_id == user) w.memories))

-- A row whose time cannot be read has its other columns, and ends the rows.
rows_read : MemoryText → List Memory → List Memory
rows_read m rows = if m.reads_times then rows else take 1 rows

matching : MemoryText → String → List Memory → List Memory
unfolding holds
matching m query rows = keep (λ (r : Memory). holds (m.to_lower r.content) (m.to_lower query)) rows

search_reply : MemoryText → String → Option (List Memory) → ToolResult
unfolding rows_read matching memory_entry
search_reply m query none = failure m.db_error
search_reply m query (some rows) =
    success (map (memory_entry m) (matching m query (rows_read m rows)))

unfoldable pub search_memory : Services → MemoryText → Params → ToolContext → Io ToolResult
unfolding search_reply select_memories
search_memory sv m ps ctx w =
    let (rows, w') = query_row sv (λ v. some (select_memories ctx.user_id v)) w in
    (search_reply m (string_param ps "query") rows, w')

abbrev pub store_memory_tool : Services → MemoryText → Definition
store_memory_tool sv m = record {
  name = "store_memory";
  description = "存储关键信息到长期记忆";
  execute = store_memory sv m;
}

abbrev pub search_memory_tool : Services → MemoryText → Definition
search_memory_tool sv m = record {
  name = "search_memory";
  description = "搜索历史记忆中的相关信息";
  execute = search_memory sv m;
}
