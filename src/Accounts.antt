-- ===== src/Accounts.antt =====
-- `AccountHandler` of server/internal/handler/accounts.go over the table of accounts. A body that
-- cannot be decoded is `none`; `random` is the nonce that the random source gives; `marshal` is `json.Marshal`.
pub mod Credentials
use crew_im.Prelude.{
  ℕ, zero, suc, ◌+◌, ◌-◌, ◌*◌, ◌/◌, ◌%◌, ◌≤◌, ◌<◌, String, ◌≡◌, refl, sym, ap, ◌∙◌, ◌≢◌, ◌↔◌, ◌⊎◌,
  inl, inr, Bool, true, false, ◌&&◌, ◌||◌, not, Option, none, some, List, [], ◌∷◌, ◌++◌, map, arith,
  ltb, leb, ◌==◌, if◌then◌else◌, ltb→lt, lt→ltb, leb→le, ==_iff, Bool-cases, Option-cases, All,
  length, take, drop, take-append, drop-append, last?, keep, length-append, last?-append,
  length-keep-le, All-append, All-keep, All-map, Bytes, bytes_eq, bytes_eq_iff, bytes_eq_refl,
  eq_of_bytes_eq, bytes_ne, is_empty, join, ◌<>◌, decimal, str_eq, str_eq_iff, trim_space,
  trim_prefix, trim_suffix, Result, ok, err,
}
use crew_im.Model.{Params}
use crew_im.World.{World, Services, UserAccount, Io, exec, insert_row, query_row, is_none}
use crew_im.World.Table.{find_by, update_by}
use crew_im.Crypto.{Ciphers, encrypt}

pub record AccountHandler : Type 0 where
  pub encrypt_key : String
  pub ciphers : Ciphers
  pub marshal : Params → Bytes
  -- whether the driver reads a TIMESTAMPTZ into a Go string
  pub reads_times : Bool

pub record AccountRequest : Type 0 where
  pub platform : String
  pub display_name : String
  pub credentials : Option Params

pub data AccountReply : Type 0 where
  http_error : ℕ → AccountReply
  created : ℕ → AccountReply
  success : AccountReply

unfoldable pub new_account : ℕ → ℕ → String → String → Bytes → ℕ → UserAccount
new_account id user platform name e now = record {
  id = id;
  user_id = user;
  platform = platform;
  display_name = name;
  credentials_enc = e;
  created_at = now;
  updated_at = now;
}

reply_created : Option ℕ → AccountReply
reply_created none = http_error 500
reply_created (some id) = created id

-- `INSERT INTO user_accounts … RETURNING id`
unfoldable pub insert_account : Services → ℕ → String → String → Result Bytes → Io AccountReply
unfolding reply_created new_account
insert_account sv user platform name (err e) w = (http_error 500, w)
insert_account sv user platform name (ok e) w =
    let (id, w') =
      insert_row sv (λ id v. is_none (find_by (λ (a : UserAccount). a.id) id v.user_accounts))
        (λ id v. record v {
          user_accounts =
              v.user_accounts ++ new_account id user platform name e (sv.now w.tick) ∷ [];
        })
        w in
    (reply_created id, w')

create_checked :
    Services → AccountHandler → Option Bytes → ℕ → String → String → Option Params → Io AccountReply
create_checked sv h random user platform name none w = (http_error 400, w)
create_checked sv h random user platform name (some c) w =
    if is_empty platform
    then (http_error 400, w)
    else insert_account sv user platform name (encrypt h.ciphers random (h.marshal c) h.encrypt_key)
        w

unfoldable pub create :
    Services → AccountHandler → Option Bytes → ℕ → Option AccountRequest → Io AccountReply
unfolding create_checked
create sv h random user none w = (http_error 400, w)
create sv h random user (some r) w =
    create_checked sv h random user r.platform r.display_name r.credentials w

-- `UPDATE user_accounts SET … WHERE id = $3 AND user_id = $4`
update_owned : Services → ℕ → ℕ → (UserAccount → UserAccount) → Io AccountReply
update_owned sv user id f w =
    let (done, w') =
      exec sv
        (λ v. record v {
          user_accounts =
              update_by (λ (a : UserAccount). a.id) id (λ a. if a.user_id == user then f a else a)
                v.user_accounts;
        })
        w in
    (if done then success else http_error 500, w')

update_credentials : Services → ℕ → ℕ → String → Result Bytes → Io AccountReply
unfolding update_owned
update_credentials sv user id name (err e) w = (http_error 500, w)
update_credentials sv user id name (ok e) w =
    update_owned sv user id
      (λ a. record a {
        display_name = if is_empty name then a.display_name else name;
        credentials_enc = e;
        updated_at = sv.now w.tick;
      })
      w

update_with :
    Services → AccountHandler → Option Bytes → ℕ → ℕ → String → Option Params → Io AccountReply
unfolding update_credentials update_owned
update_with sv h random user id name (some c) w =
    update_credentials sv user id name (encrypt h.ciphers random (h.marshal c) h.encrypt_key) w
update_with sv h random user id name none w =
    if is_empty name
    then (success, w)
    else update_owned sv user id (λ a. record a { display_name = name; updated_at = sv.now w.tick })
        w

unfoldable pub update :
    Services → AccountHandler → Option Bytes → ℕ → ℕ → Option AccountRequest → Io AccountReply
unfolding update_with
update sv h random user id none w = (http_error 400, w)
update sv h random user id (some r) w =
    update_with sv h random user id r.display_name r.credentials w

-- `DELETE FROM user_accounts WHERE id = $1 AND user_id = $2`
unfoldable pub delete : Services → ℕ → ℕ → Io AccountReply
delete sv user id w =
    let (done, w') =
      exec sv
        (λ v. record v {
          user_accounts =
              keep (λ (a : UserAccount). not (a.id == id && a.user_id == user)) v.user_accounts;
        })
        w in
    (if done then success else http_error 500, w')

-- `ORDER BY created_at`: a row stands before those that are not earlier.
insert_earliest : UserAccount → List UserAccount → List UserAccount
insert_earliest a [] = a ∷ []
insert_earliest a (b ∷ bs) =
    let rest = insert_earliest a bs in
    if ltb b.created_at a.created_at then b ∷ rest else a ∷ b ∷ bs

earliest_first : List UserAccount → List UserAccount
unfolding insert_earliest
earliest_first [] = []
earliest_first (a ∷ as') = insert_earliest a (earliest_first as')

-- `List`: `none` is the reply 500. A row that cannot be read closes the rows.
unfoldable pub list : Services → AccountHandler → ℕ → Io (Option (List UserAccount))
unfolding earliest_first
list sv h user = query_row sv (λ w. some (
    if h.reads_times
    then earliest_first (keep (λ (a : UserAccount). a.user_id == user) w.user_accounts)
    else []))
