-- ===== src/Push/Safety.antt =====
-- Which devices a push goes to, and when it is safe: apns.go.
use crew_im.Prelude.{
  ℕ, String, ◌≡◌, refl, true, ◌||◌, not, List, [], ◌∷◌, ◌++◌, map, arith, leb, ◌==◌, if◌then◌else◌,
  All,
}
use Prim.Native.String.{len}
use crew_im.World.{PushToken}
use crew_im.Push.{
  ApnsPusher, Apns, notification, push_each, pushed, tokens_of, upsert_token, is_registered,
  and_then,
}

-- Where every token has eight bytes, each device gets the notification, whatever happens to the others.
pub push_each-All :
    (p : ApnsPusher) (apns : Apns) (title body : String) (tokens : List String)
    → All (λ t. leb 8 (len t) ≡ true) tokens
    → push_each p apns title body tokens ≡ pushed (map (λ t. notification p t title body) tokens)
unfolding push_each and_then
push_each-All p apns title body [] h = refl
push_each-All p apns title body (t ∷ ts) (long, rest) =
    rw (push_each-All p apns title body ts rest) (ground arith)

-- A device that is registered again is pushed to once all the same; a new one comes behind the others.
pub tokens_of-upsert_token :
    (id owner user now : ℕ) (token : String) (ts : List PushToken)
    → tokens_of owner (upsert_token id user token now ts) ≡ (
        if is_registered user token ts || not (owner == user)
        then tokens_of owner ts
        else tokens_of owner ts ++ token ∷ [])
unfolding upsert_token is_registered
tokens_of-upsert_token id owner user now token [] = ground arith
tokens_of-upsert_token id owner user now token (t ∷ ts) =
    let ih = tokens_of-upsert_token id owner user now token ts in ground arith
