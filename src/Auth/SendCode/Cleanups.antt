-- ===== src/Auth/SendCode/Cleanups.antt =====
-- That nobody can tell whether the store is cleaned up: sms.go with the handlers of auth.go.
use crew_im.Prelude.{ℕ, ◌≡◌, refl, ap, Bool, List, [], ◌∷◌, arith}
use crew_im.Sms.{CodeStore, new_code_store, verify, cleanup}
use crew_im.Auth.SendCode.{SendReply, send_code}
use crew_im.Auth.SendCode.Runs.{Op, request, check_code, clean, InOrder}
use crew_im.Auth.SendCode.Alike.{Alike, Alike-clean, send_code-Alike, verify-Alike}

-- What the users see of an operation.
pub data Seen : Type 0 where
  replied : SendReply → Seen
  verified : Bool → Seen

-- What they see of a run.
unfoldable pub seen : Bool → CodeStore → List Op → List Seen
seen mock s [] = []
seen mock s (request r ∷ ops) =
    let (s', reply) = send_code mock s r in replied reply ∷ seen mock s' ops
seen mock s (check_code p code now ∷ ops) =
    let (s', good) = verify s p code now in verified good ∷ seen mock s' ops
seen mock s (clean now ∷ ops) = seen mock (cleanup s now) ops

-- The same run without a cleanup.
unfoldable pub uncleaned : List Op → List Op
uncleaned [] = []
uncleaned (clean now ∷ ops) = uncleaned ops
uncleaned (request r ∷ ops) = request r ∷ uncleaned ops
uncleaned (check_code p code now ∷ ops) = check_code p code now ∷ uncleaned ops

seen-Alike :
    (mock : Bool) (ops : List Op) (clock : ℕ) (s t : CodeStore)
    → InOrder clock ops
    → Alike clock s t
    → seen mock s ops ≡ seen mock t (uncleaned ops)
unfolding seen uncleaned
seen-Alike mock [] clock s t o a = refl
seen-Alike mock (clean now ∷ ops) clock s t (h, o) a =
    seen-Alike mock ops now (cleanup s now) t o (Alike-clean clock now s t h a)
seen-Alike mock (request r ∷ ops) clock s t (h, o) a =
    let (same, later) = send_code-Alike mock clock r s t h a in
    let (s', reply) = send_code mock s r in
    let (t', reply') = send_code mock t r in
    rw same (ap (λ rest. replied reply' ∷ rest) (seen-Alike mock ops r.generated s' t' o later))
seen-Alike mock (check_code p code now ∷ ops) clock s t (h, o) a =
    let (same, later) = verify-Alike clock now p code s t h a in
    let (s', good) = verify s p code now in
    let (t', good') = verify t p code now in
    rw same (ap (λ rest. verified good' ∷ rest) (seen-Alike mock ops now s' t' o later))

-- Whatever requests for codes, logins and cleanups a server meets from its start, one after the other on
-- a clock that never goes back: every reply of `SendCode` and every answer of `Verify` is what it
-- would have been without a cleanup.
pub seen-uncleaned :
    (mock : Bool) (clock : ℕ) (ops : List Op)
    → InOrder clock ops
    → seen mock new_code_store ops ≡ seen mock new_code_store (uncleaned ops)
seen-uncleaned mock clock ops o =
    seen-Alike mock ops clock new_code_store new_code_store o (record {
      codes = λ p code now h. refl;
      sends = λ p. record {
        cleaned = 0;
        before = omega arith;
        kept = refl;
        past = tt;
        latest = λ t e. cc;
      };
    })
