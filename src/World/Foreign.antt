-- ===== src/World/Foreign.antt =====
-- What belongs to other users than one, and stays.
use crew_im.Prelude.{refl, ℕ, ◌≡◌, ◌++◌, List, sym, All-append, ◌∷◌, ◌≢◌, All, [], ◌∙◌}
use mathlib.Core.Path.{subst}
use mathlib.Core.List.{append_assoc, append-nil}
use crew_im.Model.{Task, SubTask, PushEvent}
use crew_im.World.{UserRule, World, Memory, TaskItem, ScheduledJob, ExecutionLog, Enqueued, Routine}
use crew_im.World.Table.{of_user}

-- Between two worlds, what belongs to no user or to another one is as it was, and every push that was
-- added is to this user.
pub record Foreign (user : ℕ) (w w' : World) : Type 0 where
  pub added : List (ℕ × PushEvent)
  pub pushed : w'.pushed ≡ w.pushed ++ added
  pub addressed : All (λ (p : ℕ × PushEvent). p.0 ≡ user) added
  pub users : w'.users ≡ w.users
  pub profiles : w'.user_profiles ≡ w.user_profiles
  pub accounts : w'.user_accounts ≡ w.user_accounts
  pub rules :
      (v : ℕ)
      → user ≢ v
      → of_user (λ (r : UserRule). r.user_id) v w'.user_rules
        ≡ of_user (λ (r : UserRule). r.user_id) v w.user_rules
  pub sessions : w'.sessions ≡ w.sessions
  pub memories :
      (v : ℕ)
      → user ≢ v
      → of_user (λ (r : Memory). r.user_id) v w'.memories
        ≡ of_user (λ (r : Memory). r.user_id) v w.memories
  pub items :
      (v : ℕ)
      → user ≢ v
      → of_user (λ (i : TaskItem). i.user_id) v w'.task_items
        ≡ of_user (λ (i : TaskItem). i.user_id) v w.task_items
  pub jobs :
      (v : ℕ)
      → user ≢ v
      → of_user (λ (j : ScheduledJob). j.user_id) v w'.scheduled_jobs
        ≡ of_user (λ (j : ScheduledJob). j.user_id) v w.scheduled_jobs

module _ (user : ℕ) where
  pub Foreign-along : (u v w : World) → Foreign user u v → Foreign user v w → Foreign user u w
  Foreign-along u v w f g = record {
    added = f.added ++ g.added;
    pushed = rw (g.pushed, f.pushed) (append_assoc u.pushed f.added g.added);
    addressed = All-append _ f.added g.added f.addressed g.addressed;
    users = g.users ∙ f.users;
    profiles = g.profiles ∙ f.profiles;
    accounts = g.accounts ∙ f.accounts;
    rules = λ x h. g.rules x h ∙ f.rules x h;
    sessions = g.sessions ∙ f.sessions;
    memories = λ x h. g.memories x h ∙ f.memories x h;
    items = λ x h. g.items x h ∙ f.items x h;
    jobs = λ x h. g.jobs x h ∙ f.jobs x h;
  }

  -- Time, the tables of tasks and logs, the jobs and the routines do not matter.
  pub Foreign-aside :
      (w : World) (t : ℕ) (ts : List Task) (ss : List SubTask) (ls : List ExecutionLog)
      (es : List Enqueued) (rs : List Routine)
      → Foreign user w (record w {
        tick = t;
        tasks = ts;
        sub_tasks = ss;
        execution_logs = ls;
        enqueued = es;
        started = rs;
      })
  Foreign-aside w t ts ss ls es rs = record {
    added = [];
    pushed = sym (append-nil w.pushed);
    addressed = tt;
    users = refl;
    profiles = refl;
    accounts = refl;
    rules = λ v h. refl;
    sessions = refl;
    memories = λ v h. refl;
    items = λ v h. refl;
    jobs = λ v h. refl;
  }

  pub Foreign-later : (w w' : World) → w' ≡ record w { tick = w'.tick } → Foreign user w w'
  Foreign-later w w' e =
      subst (Foreign user w) (sym e)
        (Foreign-aside w w'.tick w.tasks w.sub_tasks w.execution_logs w.enqueued w.started)

  pub Foreign-push :
      (w : World) (e : PushEvent)
      → Foreign user w (record w { pushed = w.pushed ++ (user, e) ∷ [] })
  Foreign-push w e = record {
    added = (user, e) ∷ [];
    pushed = refl;
    addressed = (refl, tt);
    users = refl;
    profiles = refl;
    accounts = refl;
    rules = λ v h. refl;
    sessions = refl;
    memories = λ v h. refl;
    items = λ v h. refl;
    jobs = λ v h. refl;
  }

  pub Foreign-rules :
      (w : World) (t : ℕ) (rs : List UserRule)
      → ((v : ℕ)
          → user ≢ v
          → of_user (λ (r : UserRule). r.user_id) v rs
            ≡ of_user (λ (r : UserRule). r.user_id) v w.user_rules)
      → Foreign user w (record w { tick = t; user_rules = rs })
  Foreign-rules w t rs same = record {
    added = [];
    pushed = sym (append-nil w.pushed);
    addressed = tt;
    users = refl;
    profiles = refl;
    accounts = refl;
    rules = same;
    sessions = refl;
    memories = λ v h. refl;
    items = λ v h. refl;
    jobs = λ v h. refl;
  }
