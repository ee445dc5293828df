-- ===== src/Commands/Effects.antt =====
-- What a command leaves behind, whichever way it comes in: commands.go.
pub mod Replies
use crew_im.Prelude.{
  ℕ, String, ◌≡◌, refl, ap, ◌∙◌, inl, inr, Bool, true, false, ◌&&◌, not, Option, none, some, [],
  ◌∷◌, ◌++◌, if◌then◌else◌, Bool-cases, is_empty, arith,
}
use crew_im.Model.{Task, created}
use crew_im.World.{World, Services, understand, route_via_open_claw, is_none, ticked}
use crew_im.World.Table.{find_by}
use crew_im.Commands.Body.{Command}
use crew_im.Commands.{
  CommandHandler, CommandReply, http_error, accepted, created_event, new_task, insert_at,
  touch_session, get_gateway_url, route, follow_up, inserted, followed, create_command,
  route_via_gateway, insert_task, session_of, Gateway, TaskRef, CommandBody, column, command_text,
  read_body, uuid,
}

-- A new task of the user, under an identifier that was free, with its push, and either handed to the
-- workers or to the gateway.
pub record Taken (has_queue : Bool) (user : ℕ) (text : String) (id : ℕ) (via : Bool) (w w' : World)
    : Type 0 where
  pub task : Task
  pub rows : w'.tasks ≡ w.tasks ++ task ∷ []
  pub named : task.id ≡ id
  pub free : find_by (λ (t : Task). t.id) id w.tasks ≡ none
  pub owned : task.user_id ≡ user
  pub worded : task.input_text ≡ some text
  pub fresh : task.status ≡ created
  pub told : w'.pushed ≡ w.pushed ++ (user, created_event id text task.created_at) ∷ []
  pub jobs : w'.enqueued ≡ (
      if via
      then w.enqueued
      else if has_queue
      then w.enqueued ++ understand id ∷ []
      else w.enqueued)
  pub routines :
      w'.started ≡ (if via then w.started ++ route_via_open_claw user id text ∷ [] else w.started)

-- What a reply promises: an error, that nothing was done, a task, that it was taken.
unfoldable pub Answers : Bool → ℕ → String → World → CommandReply → World → Type 0
Answers has_queue user text w (http_error code) w' =
    (w'.tasks ≡ w.tasks)
    × (w'.pushed ≡ w.pushed)
    × (w'.enqueued ≡ w.enqueued)
    × (w'.started ≡ w.started)
Answers has_queue user text w (accepted id via) w' = Taken has_queue user text id via w w'

-- What an insertion comes to.
Inserts : ℕ → ℕ → String → World → Option ℕ → World → Type 0
Inserts now user text w none w' =
    (w'.tasks ≡ w.tasks)
    × (w'.pushed ≡ w.pushed)
    × (w'.enqueued ≡ w.enqueued)
    × (w'.started ≡ w.started)
Inserts now user text w (some id) w' =
    (session : Option ℕ) × (parent : Option ℕ) × (c : Command) × (w'.tasks
      ≡ w.tasks ++ new_task id user now session parent c text ∷ [])
    × (w'.pushed ≡ w.pushed)
    × (w'.enqueued ≡ w.enqueued)
    × (w'.started ≡ w.started)
    × (find_by (λ (t : Task). t.id) id w.tasks ≡ none)

none_of : {A : Type 0} (o : Option A) → is_none o ≡ true → o ≡ none
none_of none h = refl
none_of (some a) h = cc

and_right : (a b : Bool) → a && b ≡ true → b ≡ true
and_right true b h = h
and_right false b h = cc

insert_at-Inserts :
    (sv : Services) (user : ℕ) (c : Command) (text : String) (session parent : Option (Option ℕ))
    (w : World)
    → Inserts
        (sv.now w.tick)
        user
        text
        w
        (insert_at sv user c text session parent w).0
        (insert_at sv user c text session parent w).1
unfolding insert_at Inserts
insert_at-Inserts sv user c text none parent w = elim (Bool-cases (sv.db_ok w.tick)) [
  | inl h ↦ rw h (refl, refl, refl, refl)
  | inr h ↦ rw h (refl, refl, refl, refl)
]
insert_at-Inserts sv user c text (some session) none w = elim (Bool-cases (sv.db_ok w.tick)) [
  | inl h ↦ rw h (refl, refl, refl, refl)
  | inr h ↦ rw h (refl, refl, refl, refl)
]
insert_at-Inserts sv user c text (some session) (some parent) w =
    let free = find_by (λ (t : Task). t.id) (sv.new_id w.tick) w.tasks in
    elim (Bool-cases (sv.db_ok w.tick && is_none free)) [
      | inl h ↦ rw h (
        session,
        parent,
        c,
        refl,
        refl,
        refl,
        refl,
        none_of free (and_right (sv.db_ok w.tick) (is_none free) h),
      )
      | inr h ↦ rw h (refl, refl, refl, refl)
    ]

-- What the way of a new task adds: a job, a routine, or nothing without workers.
Routed : Bool → ℕ → ℕ → String → World → CommandReply → World → Type 0
Routed has_queue user id text w reply w' =
    (via : Bool) × (reply ≡ accepted id via)
    × (w'.tasks ≡ w.tasks)
    × (w'.pushed ≡ w.pushed)
    × (w'.enqueued ≡ (
        if via
        then w.enqueued
        else if has_queue
        then w.enqueued ++ understand id ∷ []
        else w.enqueued))
    × (w'.started ≡ (if via then w.started ++ route_via_open_claw user id text ∷ [] else w.started))

route-Routed :
    (sv : Services) (h : CommandHandler) (user id : ℕ) (text : String) (w : World)
    → Routed h.has_queue user id text w (route sv h user id text w).0 (route sv h user id text w).1
unfolding route get_gateway_url Routed
route-Routed sv h user id text w = elim (Bool-cases h.has_open_claw) [
  | inl c ↦ elim (Bool-cases (not (is_empty (get_gateway_url sv user w).0))) [
    | inl g ↦ rw (c, g) (true, refl, refl, refl, refl, refl)
    | inr g ↦ rw (c, g) (false, refl, refl, refl, refl, refl)
  ]
  | inr c ↦ rw c (false, refl, refl, refl, refl, refl)
]

touch_session-same :
    (sv : Services) (s : Option ℕ) (w : World)
    → ((touch_session sv s w).1.tasks ≡ w.tasks)
      × ((touch_session sv s w).1.pushed ≡ w.pushed)
      × ((touch_session sv s w).1.enqueued ≡ w.enqueued)
      × ((touch_session sv s w).1.started ≡ w.started)
unfolding touch_session
touch_session-same sv none w = (refl, refl, refl, refl)
touch_session-same sv (some s) w = elim (Bool-cases (sv.db_ok w.tick)) [
  | inl h ↦ rw h (refl, refl, refl, refl)
  | inr h ↦ rw h (refl, refl, refl, refl)
]

-- An insertion, the push, and the way taken make a task that is taken.
Taken-of :
    (has_queue : Bool) (user : ℕ) (text : String) (now : ℕ) (w v w' : World) (id : ℕ)
    (reply : CommandReply)
    → Inserts now user text w (some id) v
    → Routed has_queue user id text
        (record v { pushed = v.pushed ++ (user, created_event id text now) ∷ [] })
        reply
        w'
    → Answers has_queue user text w reply w'
unfolding Inserts Routed Answers new_task
Taken-of q user text now w v w' id reply (session, parent, c, rows, pushed, jobs, started, free)
      (via, e, rows', pushed', jobs', started') =
    rw e (record {
      task = new_task id user now session parent c text;
      rows = rows' ∙ rows;
      named = refl;
      free = free;
      owned = refl;
      worded = refl;
      fresh = refl;
      told = pushed' ∙ ap (λ p. p ++ (user, created_event id text now) ∷ []) pushed;
      jobs = rw jobs at jobs';
      routines = rw started at started';
    })
