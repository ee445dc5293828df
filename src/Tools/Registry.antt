-- ===== src/Tools/Registry.antt =====
-- `Registry` of server/internal/tool/registry.go: a map from names to definitions, as a list with
-- one definition for a name. A Go map is ranged over in any order; here it is the list's.
use crew_im.Prelude.{
  ℕ, String, ◌≡◌, true, false, Option, none, some, List, [], ◌∷◌, map, arith, if◌then◌else◌, ◌<>◌,
  str_eq, str_eq_iff,
}
use crew_im.Model.{Params, text, other}
use crew_im.Claude.Model.{Tool, ToolResult}
use crew_im.World.{Io}

-- `tool.Context`
pub record ToolContext : Type 0 where
  pub user_id : ℕ
  pub task_id : ℕ
  pub sub_task_id : Option ℕ

pub record Definition : Type 0 where
  pub name : String
  pub description : String
  pub execute : Params → ToolContext → Io ToolResult

abbrev pub Registry : Type 0
Registry = List Definition

without : String → Registry → Registry
without name [] = []
without name (d ∷ ds) = let rest = without name ds in if str_eq d.name name then rest else d ∷ rest

unfoldable pub register : Registry → Definition → Registry
unfolding without
register r d = d ∷ without d.name r

unfoldable pub get : Registry → String → Option Definition
get [] name = none
get (d ∷ ds) name = if str_eq d.name name then some d else get ds name

unfoldable pub to_ai_tools : Registry → List Tool
to_ai_tools r = map (λ (d : Definition). record { name = d.name; description = d.description }) r

abbrev pub failure : String → ToolResult
failure e = record { success = false; entries = []; error = e }

abbrev pub success : List (List (String × String)) → ToolResult
success entries = record { success = true; entries = entries; error = "" }

execute_found : String → Option Definition → Params → ToolContext → Io ToolResult
execute_found name none params ctx w = (failure ("tool " <> name <> " not found"), w)
execute_found name (some d) params ctx w = d.execute params ctx w

unfoldable pub execute : Registry → String → Params → ToolContext → Io ToolResult
unfolding execute_found
execute r name params ctx = execute_found name (get r name) params ctx

-- `s, _ := params[key].(string)`: "" where the key is missing or holds no string.
unfoldable pub string_param : Params → String → String
string_param [] key = ""
string_param ((k, text s) ∷ ps) key = if str_eq k key then s else string_param ps key
string_param ((k, other s) ∷ ps) key = if str_eq k key then "" else string_param ps key

get-without :
    (r : Registry) (name other_name : String)
    → get (without name r) other_name ≡ (if str_eq name other_name then none else get r other_name)
unfolding get without
get-without [] name j = ground arith
get-without (d ∷ ds) name j =
    ground
      (arith, str_eq_iff d.name name, str_eq_iff d.name j, str_eq_iff name j, get-without ds name j)

-- A tool that is registered is the one that its name stands for from then on, also where the name
-- was taken, and the other names stand for what they stood for.
pub get-register :
    (r : Registry) (d : Definition) (name : String)
    → get (register r d) name ≡ (if str_eq d.name name then some d else get r name)
unfolding get register
get-register r d name = ground (arith, get-without r d.name name)
