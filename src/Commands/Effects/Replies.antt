-- ===== src/Commands/Effects/Replies.antt =====
-- The handlers of commands.go and what their replies promise.
use crew_im.Prelude.{
  ℕ, String, ◌≡◌, refl, ◌∙◌, inl, inr, false, ◌&&◌, Option, none, some, [], ◌∷◌, ◌++◌, arith,
  if◌then◌else◌, Bool-cases, is_empty,
}
use crew_im.World.{World, Services, understand, ticked}
use crew_im.Commands.{
  CommandHandler, accepted, Gateway, column, insert_task, touch_session, session_of, inserted,
  create_command, route_via_gateway, followed, follow_up, uuid, TaskRef, CommandBody, command_text,
  read_body,
}
use crew_im.Commands.Effects.{
  Answers, Inserts, Routed, Taken-of, touch_session-same, route-Routed, insert_at-Inserts,
}

Inserts-touched :
    (sv : Services) (now user id : ℕ) (text : String) (s : Option ℕ) (w v : World)
    → Inserts now user text w (some id) v
    → Inserts now user text w (some id) (touch_session sv s v).1
unfolding Inserts
Inserts-touched sv now user id text s w v (session, parent, c, rows, pushed, jobs, started, free) =
    let (t, p, j, r) = touch_session-same sv s v in
    (session, parent, c, t ∙ rows, p ∙ pushed, j ∙ jobs, r ∙ started, free)

inserted-Answers :
    (sv : Services) (h : CommandHandler) (user : ℕ) (s : Option TaskRef) (text : String) (now : ℕ)
    (id : Option ℕ) (w v : World)
    → Inserts now user text w id v
    → Answers h.has_queue user text w
        (inserted sv h user s text now id v).0
        (inserted sv h user s text now id v).1
unfolding inserted Inserts Answers session_of
inserted-Answers sv h user s text now none w v i = i
inserted-Answers sv h user s text now (some id) w v i =
    Taken-of h.has_queue user text now w _ _ id _
      (Inserts-touched sv now user id text (session_of s) w v i) (route-Routed sv h user id text _)

followed-Answers :
    (sv : Services) (h : CommandHandler) (user : ℕ) (s : Option ℕ) (text : String) (now : ℕ)
    (id : Option ℕ) (w v : World)
    → Inserts now user text w id v
    → Answers h.has_queue user text w
        (followed sv h user s text now id v).0
        (followed sv h user s text now id v).1
unfolding followed Inserts Answers Routed
followed-Answers sv h user s text now none w v i = i
followed-Answers sv h user s text now (some id) w v i =
    Taken-of h.has_queue user text now w (touch_session sv s v).1 _ id (accepted id false)
      (Inserts-touched sv now user id text s w v i) (false, refl, refl, refl, refl, refl)

-- A command that is refused or cannot be stored leaves the tasks, pushes, jobs and routines as they
-- were. One that is accepted has added exactly one task, created, with the words of the command and
-- of the user, under an identifier that was free, and one push of it to that user; and either its
-- routine for the gateway was started or, where there are workers, it is their job, never both.
pub create_command-Answers :
    (sv : Services) (h : CommandHandler) (user : ℕ) (body : CommandBody) (w : World)
    → Answers h.has_queue user
        (command_text (read_body h.transcribe body).text)
        w
        (create_command sv h user body w).0
        (create_command sv h user body w).1
unfolding create_command insert_task Answers
create_command-Answers sv h user body w =
    let c = read_body h.transcribe body in
    elim (Bool-cases (is_empty (command_text c.text))) [
      | inl e ↦ rw e (refl, refl, refl, refl)
      | inr e ↦ rw e (
          inserted-Answers sv h user c.session_id (command_text c.text) (sv.now w.tick) _ w _ (
            insert_at-Inserts sv user c (command_text c.text) (column c.session_id)
              (column c.parent_task_id) w))
    ]

-- A follow-up that is refused or cannot be stored leaves the tasks, pushes, jobs and routines as they
-- were too, and one that is accepted has added exactly one created task of the user with its words,
-- one push of it, and its job or its routine, in the same way as a command.
pub follow_up-Answers :
    (sv : Services) (h : CommandHandler) (user parent : ℕ) (text : String) (w : World)
    → Answers h.has_queue user text w
        (follow_up sv h user parent text w).0
        (follow_up sv h user parent text w).1
unfolding follow_up insert_task Answers Inserts
follow_up-Answers sv h user parent text w = elim (Bool-cases (is_empty text)) [
  | inl e ↦ rw e (refl, refl, refl, refl)
  | inr e ↦ rw e (
      followed-Answers sv h user _ text (sv.now (ticked w).tick) _ w _
        (insert_at-Inserts sv user _ text (column _) (column (some (uuid parent))) (ticked w)))
]

-- The routine of the gateway: the task becomes a job of the workers exactly where the connection or
-- the message fails and the handler has a queue, and the tasks are left alone.
pub route_via_gateway_jobs :
    (h : CommandHandler) (g : Gateway) (user id : ℕ) (w : World)
    → ((route_via_gateway h g user id w).1.tasks ≡ w.tasks)
      × ((route_via_gateway h g user id w).1.enqueued ≡ (
          if g.connected && g.message_sent
          then w.enqueued
          else if h.has_queue
          then w.enqueued ++ understand id ∷ []
          else w.enqueued))
unfolding route_via_gateway
route_via_gateway_jobs h g user id w = (ground arith, ground arith)
