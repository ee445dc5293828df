-- ===== src/Understanding/Foreign.antt =====
-- What the reading of a command leaves alone of everybody else: understanding.go.
use crew_im.Prelude.{
  ℕ, ◌≡◌, refl, none, some, err, ok, inl, inr, true, false, Option, Result, Bool-cases, String,
  arith, is_empty, ◌+◌, str_eq, ◌&&◌, not, [], if◌then◌else◌, Bool,
}
use mathlib.Core.Path.{subst}
use crew_im.Model.{Task, TaskRef, uuid, no_uuid, UnderstandingResult}
use crew_im.Claude.Model.{Response}
use crew_im.Claude.Calls.{call-LaterThan}
use crew_im.World.{UserRule, World, Services, ticked, send, is_none}
use crew_im.World.Table.{find_by, of_user-append}
use crew_im.World.Foreign.{
  Foreign, Foreign-along, Foreign-aside, Foreign-push, Foreign-later, Foreign-rules,
}
use crew_im.Tasks.Actions.{row}
use crew_im.Understanding.{
  UnderstandingService, link_parent, save_rule, save_plan, record_answer, understand, or_empty,
  understand_found, start_title, ask_model, after_call, reading_event, understood_event,
  confirm_event,
}
use crew_im.Understanding.Context.{gather}

module _ (user : ℕ) where
  later : (w : World) (n : ℕ) → Foreign user w (record w { tick = n })
  later w n = Foreign-aside user w n w.tasks w.sub_tasks w.execution_logs w.enqueued w.started

  either-Foreign :
      (b : Bool) (w x y : World)
      → Foreign user w x
      → Foreign user w y
      → Foreign user w (if b then x else y)
  either-Foreign true w x y h k = h
  either-Foreign false w x y h k = k

  link_parent-Foreign :
      (sv : Services) (id : ℕ) (r : Option TaskRef) (w : World)
      → Foreign user w (link_parent sv id r w).1
  unfolding link_parent
  link_parent-Foreign sv id none w = later w w.tick
  link_parent-Foreign sv id (some (no_uuid s)) w = elim (Bool-cases (is_empty s)) [
    | inl e ↦ rw e (later w w.tick)
    | inr e ↦ rw e (elim (Bool-cases (sv.db_ok w.tick)) [
      | inl up ↦ rw up (later w (w.tick + 1))
      | inr down ↦ rw down (later w (w.tick + 1))
    ])
  ]
  link_parent-Foreign sv id (some (uuid parent)) w = elim (Bool-cases (sv.db_ok w.tick)) [
    | inl up ↦
        rw up
          (Foreign-aside user w (w.tick + 1) _ w.sub_tasks w.execution_logs w.enqueued w.started)
    | inr down ↦ rw down (later w (w.tick + 1))
  ]

  save_rule-Foreign :
      (sv : Services) (r : UnderstandingResult) (w : World)
      → Foreign user w (save_rule sv user r w).1
  unfolding save_rule
  save_rule-Foreign sv r w =
      elim (Bool-cases (str_eq r.intent_type "rule" && not (is_empty r.understanding))) [
        | inr e ↦ rw e (later w w.tick)
        | inl e ↦
            rw e
              (elim (Bool-cases (
                sv.db_ok w.tick
                && is_none (find_by (λ (u : UserRule). u.id) (sv.new_id w.tick) w.user_rules))) [
                  | inl stored ↦ rw stored (
                      Foreign-rules user w (w.tick + 1) _
                        (λ v h. of_user-append (λ (u : UserRule). u.user_id) v w.user_rules _ h))
                  | inr lost ↦ rw lost (later w (w.tick + 1))
                ])
      ]

  save_plan-Foreign :
      (sv : Services) (id : ℕ) (r : UnderstandingResult) (w : World)
      → Foreign user w (save_plan sv id r w).1
  unfolding save_plan
  save_plan-Foreign sv id r w = elim (Bool-cases (sv.db_ok w.tick)) [
    | inl up ↦
        rw up
          (Foreign-aside user w (w.tick + 1) _ w.sub_tasks w.execution_logs w.enqueued w.started)
    | inr down ↦ rw down (later w (w.tick + 1))
  ]

  start_title-Foreign :
      (session : Option ℕ) (input : String) (w : World)
      → Foreign user w (start_title user session input w).1
  unfolding start_title
  start_title-Foreign none input w = later w w.tick
  start_title-Foreign (some session) input w =
      Foreign-aside user w w.tick w.tasks w.sub_tasks w.execution_logs w.enqueued _

  gather-Foreign :
      (sv : Services) (id : ℕ) (t : Task) (w : World) → Foreign user w (gather sv id t w).1
  unfolding gather
  gather-Foreign sv id t w = Foreign-later user w (gather sv id t w).1 (ground arith)

  record_answer-Foreign :
      (sv : Services) (id : ℕ) (t : Task) (r : UnderstandingResult) (w : World)
      → t.user_id ≡ user
      → Foreign user w (record_answer sv id t r w).1
  unfolding record_answer
  record_answer-Foreign sv id t r w same =
      let input = or_empty t.input_text in
      let w₁ = (link_parent sv id r.related_task_id w).1 in
      let w₂ = (save_rule sv user r w₁).1 in
      let w₃ = (save_plan sv id r w₂).1 in
      let w₄ = (send user (understood_event id input r) w₃).1 in
      let saved =
        Foreign-along user w w₁ w₃ (link_parent-Foreign sv id r.related_task_id w) (
          Foreign-along user w₁ w₂ w₃ (save_rule-Foreign sv r w₁) (save_plan-Foreign sv id r w₂)) in
      let told = Foreign-along user w w₃ w₄ saved (Foreign-push user w₃ _) in
      let asked =
        Foreign-along user w w₄ _ told (Foreign-push user w₄ (confirm_event id input r)) in
      let w₅ =
        if r.execution_plan.requires_confirmation
        then (send user (confirm_event id input r) w₄).1
        else w₄ in
      rw same (
        Foreign-along user w w₅ _
          (either-Foreign r.execution_plan.requires_confirmation w _ w₄ asked told)
          (start_title-Foreign t.session_id input w₅))

ask_model-Foreign :
    (sv : Services) (s : UnderstandingService) (id : ℕ) (t : Task) (w : World)
    → Foreign t.user_id w (ask_model sv s id t w).1
unfolding ask_model
ask_model-Foreign sv s id t w =
    let w₁ = (gather sv id t w).1 in
    let w₂ = (send t.user_id (reading_event id (or_empty t.input_text)) w₁).1 in
    Foreign-along t.user_id w w₂ _
      (Foreign-along t.user_id w w₁ w₂ (gather-Foreign t.user_id sv id t w)
        (Foreign-push t.user_id w₁ _))
      (Foreign-later t.user_id w₂ _ (call-LaterThan sv s.claude _ _ [] 4096 w₂).0)

after_call-Foreign :
    (sv : Services) (s : UnderstandingService) (id : ℕ) (t : Task) (answer : Result Response)
    (w : World)
    → Foreign t.user_id w (after_call sv s id t answer w).1
unfolding after_call
after_call-Foreign sv s id t (err e) w = later t.user_id w w.tick
after_call-Foreign sv s id t (ok resp) w = record_answer-Foreign t.user_id sv id t _ w refl

understand_found-Foreign :
    (user : ℕ) (sv : Services) (s : UnderstandingService) (id : ℕ) (found : Option Task) (w : World)
    → ((t : Task) → found ≡ some t → t.user_id ≡ user)
    → Foreign user w (understand_found sv s id found w).1
unfolding understand_found
understand_found-Foreign user sv s id none w own = later user w w.tick
understand_found-Foreign user sv s id (some t) w own =
    let (answer, v) = ask_model sv s id t w in
    subst (λ u. Foreign u w (after_call sv s id t answer v).1) (own t refl)
      (Foreign-along t.user_id w v _ (ask_model-Foreign sv s id t w)
        (after_call-Foreign sv s id t answer v))

-- The reading of a command leaves alone what belongs to others than the owner of its task, whichever
-- statements fail and whatever the model answers.
pub understand-Foreign :
    (user : ℕ) (sv : Services) (s : UnderstandingService) (id : ℕ) (w : World)
    → ((t : Task) → row id w ≡ some t → t.user_id ≡ user)
    → Foreign user w (understand sv s id w).1
unfolding understand
understand-Foreign user sv s id w own = elim (Bool-cases (sv.db_ok w.tick)) [
  | inl up ↦ rw up (
      Foreign-along user w (ticked w) _ (later user w (w.tick + 1))
        (understand_found-Foreign user sv s id (row id w) (ticked w) own))
  | inr down ↦ rw down (later user w (w.tick + 1))
]
