-- ===== src/Tools/Box.antt =====
-- The tools of server/internal/tool together, and that they keep to the rows of the user they work for.
use crew_im.Prelude.{
  ℕ, ◌+◌, String, ◌≡◌, refl, sym, ◌≢◌, inl, inr, ◌&&◌, ◌||◌, Option, none, some, List, [], ◌∷◌,
  Bool-cases, All, All-map, is_empty,
}
use mathlib.Core.Path.{subst}
use crew_im.Model.{Params}
use crew_im.World.{World, Services, Memory, TaskItem, ScheduledJob, is_none}
use crew_im.World.Table.{find_by, of_user, of_user-append}
use crew_im.Claude.Client.{ClaudeClient}
use crew_im.Claude.Calls.{call-LaterThan}
use crew_im.Tools.Registry.{string_param, Definition, Registry, ToolContext}
use crew_im.Tools.Memories.{
  MemoryText, new_memory, store_memory, search_memory, store_memory_tool, search_memory_tool,
}
use crew_im.Tools.Items.{
  ItemText, new_item, create_task_item, list_task_items, create_task_item_tool,
  list_task_items_tool,
}
use crew_im.Tools.Reminders.{ReminderText, set_reminder, set_reminder_tool, new_job, remind}
use crew_im.Tools.Documents.{generate_document, document_tool}
use crew_im.Tools.Email.{Mailer, send_email, email_tool, load_email_credentials}
use crew_im.Runner.Rounds.{Kept, IsQuiet}

pub record Toolbox : Type 0 where
  pub claude : ClaudeClient
  pub memory : MemoryText
  pub item : ItemText
  pub reminder : ReminderText
  pub mailer : Mailer

-- Each tool that the package declares.
abbrev pub tools : Services → Toolbox → Registry
tools sv b =
    store_memory_tool sv b.memory
    ∷ search_memory_tool sv b.memory
    ∷ create_task_item_tool sv b.item
    ∷ list_task_items_tool sv b.item
    ∷ set_reminder_tool sv b.reminder
    ∷ document_tool sv b.claude
    ∷ email_tool sv b.mailer
    ∷ []

-- What a tool leaves as it was: all that the runner wants, the pushes, the tables of users and their
-- settings, and what other users have of the tables it writes.
pub record Within (user : ℕ) (w w' : World) : Type 0 where
  pub kept : Kept w w'
  pub pushed : w'.pushed ≡ w.pushed
  pub users : w'.users ≡ w.users
  pub profiles : w'.user_profiles ≡ w.user_profiles
  pub accounts : w'.user_accounts ≡ w.user_accounts
  pub rules : w'.user_rules ≡ w.user_rules
  pub memories :
      (v : ℕ)
      → user ≢ v
      → of_user (λ (r : Memory). r.user_id) v w'.memories
        ≡ of_user (λ (r : Memory). r.user_id) v w.memories
  pub items :
      (v : ℕ)
      → user ≢ v
      → of_user (λ (i : TaskItem). i.user_id) v w'.task_items
        ≡ of_user (λ (i : TaskItem). i.user_id) v w.task_items
  pub jobs :
      (v : ℕ)
      → user ≢ v
      → of_user (λ (j : ScheduledJob). j.user_id) v w'.scheduled_jobs
        ≡ of_user (λ (j : ScheduledJob). j.user_id) v w.scheduled_jobs

module _ (user n : ℕ) (w : World) where
  -- Only the time and the tables of the tools change, and they for the user alone.
  Within-rows :
      (ms : List Memory) (is' : List TaskItem) (js : List ScheduledJob)
      → ((v : ℕ)
          → user ≢ v
          → of_user (λ (r : Memory). r.user_id) v ms
            ≡ of_user (λ (r : Memory). r.user_id) v w.memories)
      → ((v : ℕ)
          → user ≢ v
          → of_user (λ (i : TaskItem). i.user_id) v is'
            ≡ of_user (λ (i : TaskItem). i.user_id) v w.task_items)
      → ((v : ℕ)
          → user ≢ v
          → of_user (λ (j : ScheduledJob). j.user_id) v js
            ≡ of_user (λ (j : ScheduledJob). j.user_id) v w.scheduled_jobs)
      → Within user w (record w { tick = n; memories = ms; task_items = is'; scheduled_jobs = js })
  Within-rows ms is' js h k l = record {
    kept = record {
      tasks = refl;
      sub_tasks = refl;
      sessions = refl;
      enqueued = refl;
      started = refl;
    };
    pushed = refl;
    users = refl;
    profiles = refl;
    accounts = refl;
    rules = refl;
    memories = h;
    items = k;
    jobs = l;
  }

  -- Only time passes.
  Within-tick : Within user w (record w { tick = n })
  Within-tick =
      Within-rows w.memories w.task_items w.scheduled_jobs (λ v h. refl) (λ v h. refl) (λ v h. refl)

abbrev pub Stays : Definition → Type 0
Stays d =
    (ps : Params) (ctx : ToolContext) (w : World) → Within ctx.user_id w (d.execute ps ctx w).1

store_memory-Stays : (sv : Services) (m : MemoryText) → Stays (store_memory_tool sv m)
unfolding store_memory new_memory
store_memory-Stays sv m ps ctx w =
    elim (Bool-cases
      (sv.db_ok w.tick && is_none (find_by (λ (r : Memory). r.id) (sv.new_id w.tick) w.memories))) [
        | inl e ↦ rw e (
            Within-rows ctx.user_id (w.tick + 1) w _ w.task_items w.scheduled_jobs
              (λ v h. of_user-append (λ (r : Memory). r.user_id) v w.memories _ h) (λ v h. refl)
              (λ v h. refl))
        | inr e ↦ rw e (Within-tick ctx.user_id (w.tick + 1) w)
      ]

create_task_item-Stays : (sv : Services) (t : ItemText) → Stays (create_task_item_tool sv t)
unfolding create_task_item new_item
create_task_item-Stays sv t ps ctx w = elim (Bool-cases (is_empty (string_param ps "title"))) [
  | inl none_given ↦ rw none_given (Within-tick ctx.user_id w.tick w)
  | inr given ↦
      elim (Bool-cases (
        sv.db_ok w.tick
        && is_none (find_by (λ (i : TaskItem). i.id) (sv.new_id w.tick) w.task_items))) [
          | inl e ↦
              rw (given, e)
                (Within-rows ctx.user_id (w.tick + 1) w w.memories _ w.scheduled_jobs (λ v h. refl)
                  (λ v h. of_user-append (λ (i : TaskItem). i.user_id) v w.task_items _ h)
                  (λ v h. refl))
          | inr e ↦ rw (given, e) (Within-tick ctx.user_id (w.tick + 1) w)
        ]
]

remind-Within :
    (sv : Services) (t : ReminderText) (user : ℕ) (message repeat : String) (at : Option ℕ)
    (w : World)
    → Within user w (remind sv t user message repeat at w).1
unfolding remind new_job
remind-Within sv t user message repeat none w = Within-tick user w.tick w
remind-Within sv t user message repeat (some at) w =
    elim (Bool-cases (
      sv.db_ok w.tick
      && is_none (find_by (λ (j : ScheduledJob). j.id) (sv.new_id w.tick) w.scheduled_jobs))) [
        | inl e ↦ rw e (
            Within-rows user (w.tick + 1) w w.memories w.task_items _ (λ v h. refl) (λ v h. refl)
              (λ v h. of_user-append (λ (j : ScheduledJob). j.user_id) v w.scheduled_jobs _ h))
        | inr e ↦ rw e (Within-tick user (w.tick + 1) w)
      ]

Within-later : (user : ℕ) (w w' : World) → w' ≡ record w { tick = w'.tick } → Within user w w'
Within-later user w w' e = subst (Within user w) (sym e) (Within-tick user w'.tick w)

generate_document-Stays : (sv : Services) (c : ClaudeClient) → Stays (document_tool sv c)
unfolding generate_document
generate_document-Stays sv c ps ctx w =
    Within-later ctx.user_id w _ (call-LaterThan sv c _ _ [] 2048 w).0

send_email-Stays : (sv : Services) (m : Mailer) → Stays (email_tool sv m)
unfolding send_email load_email_credentials
send_email-Stays sv m ps ctx w =
    elim (Bool-cases (is_empty (string_param ps "to") || is_empty (string_param ps "subject"))) [
      | inl e ↦ rw e (Within-tick ctx.user_id w.tick w)
      | inr e ↦ rw e (Within-tick ctx.user_id (w.tick + 1) w)
    ]

-- Every tool of the package, whatever it is called with and whichever requests fail, leaves the tasks,
-- subtasks, sessions, jobs of the workers, started routines, pushes, users, profiles, accounts and
-- rules as they were, and of the memories, items and reminders those of every user but its own.
pub tools-Stays : (sv : Services) (b : Toolbox) → All Stays (tools sv b)
unfolding search_memory list_task_items set_reminder
tools-Stays sv b = (
  store_memory-Stays sv b.memory,
  (
    λ ps ctx w. Within-tick ctx.user_id (w.tick + 1) w,
    (
      create_task_item-Stays sv b.item,
      (
        λ ps ctx w. Within-tick ctx.user_id (w.tick + 1) w,
        (
          λ ps ctx w. remind-Within sv b.reminder ctx.user_id _ _ _ w,
          (generate_document-Stays sv b.claude, (send_email-Stays sv b.mailer, tt)),
        ),
      ),
    ),
  ),
)

Stays-IsQuiet : (d : Definition) → Stays d → IsQuiet d
Stays-IsQuiet d s = record {
  kept = λ ps ctx w. (s ps ctx w).kept;
  pushed = λ ps ctx w. (s ps ctx w).pushed;
}

-- So they keep to the contract of the runner.
pub tools-IsQuiet : (sv : Services) (b : Toolbox) → All IsQuiet (tools sv b)
tools-IsQuiet sv b = All-map Stays (tools sv b) Stays-IsQuiet (tools-Stays sv b)
