-- ===== src/Orchestrator/Foreign.antt =====
-- What the execution of a task leaves alone of everybody else: orchestrator.go with the tools of
-- server/internal/tool.
use crew_im.Prelude.{ℕ, ◌≡◌, [], some, ◌∙◌, sym, All, All-map, ap}
use mathlib.Core.Path.{subst}
use mathlib.Core.List.{append-nil}
use crew_im.Model.{Task}
use crew_im.World.{UserRule, World, Services}
use crew_im.World.Table.{of_user}
use crew_im.World.Foreign.{Foreign, Foreign-along, Foreign-aside, Foreign-push}
use crew_im.Tools.Registry.{Definition}
use crew_im.Tools.Box.{Toolbox, tools, tools-Stays, Stays, Within}
use crew_im.Tasks.Actions.{row}
use crew_im.Runner.{AgentRunner}
use crew_im.Runner.Frames.{IsFrame, Respects}
use crew_im.Orchestrator.{execute}
use crew_im.Orchestrator.Frames.{execute-Frame}

module _ (user : ℕ) where
  Within-Foreign : (w w' : World) → Within user w w' → Foreign user w w'
  Within-Foreign w w' h = record {
    added = [];
    pushed = h.pushed ∙ sym (append-nil w.pushed);
    addressed = tt;
    users = h.users;
    profiles = h.profiles;
    accounts = h.accounts;
    rules = λ v other. ap (of_user (λ (r : UserRule). r.user_id) v) h.rules;
    sessions = h.kept.sessions;
    memories = h.memories;
    items = h.items;
    jobs = h.jobs;
  }

  Foreign-IsFrame : IsFrame user (Foreign user)
  Foreign-IsFrame = record {
    along = Foreign-along user;
    own = λ w t ts ss ls. Foreign-aside user w t ts ss ls w.enqueued w.started;
    pushes = Foreign-push user;
  }

  Stays-Respects : (d : Definition) → Stays d → Respects user (Foreign user) d
  Stays-Respects d s ps ctx w same =
      Within-Foreign w _ (subst (λ u. Within u w (d.execute ps ctx w).1) same (s ps ctx w))

-- The execution of a task with the tools of the program leaves alone what belongs to others than the
-- owner of the task, whatever the model answers and whichever statements fail.
pub execute-Foreign :
    (sv : Services) (b : Toolbox) (r : AgentRunner) (id user : ℕ) (w : World)
    → r.registry ≡ tools sv b
    → ((t : Task) → row id w ≡ some t → t.user_id ≡ user)
    → Foreign user w (execute sv r id w).1
execute-Foreign sv b r id user w all own =
    execute-Frame (Foreign user) sv r id user (Foreign-IsFrame user)
      (subst (All (Respects user (Foreign user))) (sym all)
        (All-map Stays (tools sv b) (Stays-Respects user) (tools-Stays sv b)))
      w own
