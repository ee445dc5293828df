-- ===== src/Tools/Items.antt =====
-- `CreateTaskItem` and `ListTaskItems` of server/internal/tool/task_item.go.
use crew_im.Prelude.{
  ℕ, String, ◌&&◌, not, Option, none, some, List, [], ◌∷◌, ◌++◌, map, ◌==◌, if◌then◌else◌, take,
  keep, is_empty, str_eq,
}
use crew_im.Model.{Params}
use crew_im.Claude.Model.{ToolResult}
use crew_im.World.{World, Services, Io, query_row, insert_row, is_none}
use crew_im.World.Table.{find_by}
use crew_im.Tools.Registry.{Definition, ToolContext, failure, success, string_param}
use crew_im.World.{TaskItem}
use crew_im.Understanding.Context.{latest_first}

-- The texts of a database error and of an identifier.
pub record ItemText : Type 0 where
  pub db_error : String
  pub id_text : ℕ → String

unfoldable pub new_item : ℕ → ToolContext → String → String → String → String → ℕ → TaskItem
new_item id ctx title description assignee priority now = record {
  id = id;
  user_id = ctx.user_id;
  source_task_id = some ctx.task_id;
  title = title;
  description = some description;
  assignee = some assignee;
  priority = if is_empty priority then "medium" else priority;
  status = "open";
  created_at = now;
}

item_reply : ItemText → String → Option ℕ → ToolResult
item_reply t title none = failure t.db_error
item_reply t title (some id) = success ((("id", t.id_text id) ∷ ("title", title) ∷ []) ∷ [])

unfoldable pub create_task_item : Services → ItemText → Params → ToolContext → Io ToolResult
unfolding item_reply new_item
create_task_item sv t ps ctx w =
    let title = string_param ps "title" in
    if is_empty title
    then (failure "title is required", w)
    else (let (id, w') =
          insert_row sv (λ id v. is_none (find_by (λ (i : TaskItem). i.id) id v.task_items))
            (λ id v. record v {
              task_items =
                  v.task_items
                  ++ new_item id ctx title (string_param ps "description")
                      (string_param ps "assignee") (string_param ps "priority") (sv.now w.tick)
                    ∷ [];
            })
            w in
        (item_reply t title id, w'))

column : String → Option String → List (String × String)
column key none = []
column key (some s) = (key, s) ∷ []

item_entry : ItemText → TaskItem → List (String × String)
unfolding column
item_entry t i =
    (("id", t.id_text i.id)
      ∷ ("title", i.title)
      ∷ ("priority", i.priority)
      ∷ ("status", i.status)
      ∷ [])
    ++ (column "description" i.description ++ column "assignee" i.assignee)

select_items : ℕ → World → List TaskItem
select_items user w = take 20 (
    latest_first (λ (i : TaskItem). i.created_at)
      (keep (λ (i : TaskItem). i.user_id == user && not (str_eq i.status "deleted")) w.task_items))

items_reply : ItemText → Option (List TaskItem) → ToolResult
unfolding item_entry
items_reply t none = failure t.db_error
items_reply t (some rows) = success (map (item_entry t) rows)

unfoldable pub list_task_items : Services → ItemText → Params → ToolContext → Io ToolResult
unfolding items_reply select_items
list_task_items sv t ps ctx w =
    let (rows, w') = query_row sv (λ v. some (select_items ctx.user_id v)) w in
    (items_reply t rows, w')

abbrev pub create_task_item_tool : Services → ItemText → Definition
create_task_item_tool sv t = record {
  name = "create_task_item";
  description = "创建一条管理事项（如待办、跟进任务等）";
  execute = create_task_item sv t;
}

abbrev pub list_task_items_tool : Services → ItemText → Definition
list_task_items_tool sv t = record {
  name = "list_task_items";
  description = "查询管理事项列表";
  execute = list_task_items sv t;
}
