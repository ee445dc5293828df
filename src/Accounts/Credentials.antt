-- ===== src/Accounts/Credentials.antt =====
-- Credentials from the settings to the mail: accounts.go and email.go.
use crew_im.Prelude.{
  ℕ, String, ◌≡◌, refl, ap, ◌∙◌, inl, inr, true, false, ◌&&◌, none, some, List, [], ◌∷◌, ◌++◌,
  arith, if◌then◌else◌, Bool-cases, length, Bytes, is_empty, str_eq_iff, Result, ok, err,
}
use crew_im.Model.{Params}
use crew_im.World.{World, Services, UserAccount, is_none}
use crew_im.World.Table.{find_by}
use crew_im.Crypto.{encrypt, decrypt}
use crew_im.Crypto.Laws.{IsCipher, decrypt-encrypt}
use crew_im.Accounts.{
  AccountHandler, http_error, created, create, insert_account, new_account, reply_created,
}
use crew_im.Tools.Email.{
  SmtpCredentials, Mailer, email_account, read_credentials, load_email_credentials,
}

email_account-append :
    (user : ℕ) (as' : List UserAccount) (a : UserAccount)
    → email_account user as' ≡ none
    → a.user_id ≡ user
    → a.platform ≡ "email"
    → email_account user (as' ++ a ∷ []) ≡ some a.credentials_enc
unfolding email_account
email_account-append user [] a h u p = ground (arith, str_eq_iff a.platform "email")
email_account-append user (b ∷ bs) a h u p = ground (arith, email_account-append user bs a)

-- What is stored for an account that was created.
stored :
    (sv : Services) (user : ℕ) (platform name : String) (e : Result Bytes) (w : World) (id : ℕ)
    → (insert_account sv user platform name e w).0 ≡ created id
    → (enc : Bytes) × (e ≡ ok enc)
      × ((insert_account sv user platform name e w).1.user_accounts
          ≡ w.user_accounts ++ new_account id user platform name enc (sv.now w.tick) ∷ [])
unfolding insert_account reply_created
stored sv user platform name (err x) w id h = cc
stored sv user platform name (ok enc) w id h =
    elim (Bool-cases (
      sv.db_ok w.tick
      && is_none (find_by (λ (a : UserAccount). a.id) (sv.new_id w.tick) w.user_accounts))) [
        | inl good ↦
            let same : created (sv.new_id w.tick) ≡ created id = rw good at h in
            let id_is : sv.new_id w.tick ≡ id = cc in (enc, refl, rw good (rw id_is refl))
        | inr bad ↦ let no : http_error 500 ≡ created id = rw bad at h in cc
      ]

-- A mailer of the same server.
pub record Shares (h : AccountHandler) (m : Mailer) : Type 0 where
  pub key : m.encrypt_key ≡ h.encrypt_key
  pub ciphers : m.ciphers ≡ h.ciphers

-- What makes credentials complete.
pub record IsComplete (c : SmtpCredentials) : Type 0 where
  pub host : is_empty c.host ≡ false
  pub email : is_empty c.email ≡ false
  pub password : is_empty c.password ≡ false

-- The credentials with the port that the tool falls back to.
abbrev pub with_port : SmtpCredentials → SmtpCredentials
with_port c = record c { port = if is_empty c.port then "465" else c.port }

read_credentials-stored :
    (m : Mailer) (e s : Bytes) (c : SmtpCredentials)
    → decrypt m.ciphers e m.encrypt_key ≡ ok s
    → m.parse s ≡ some c
    → IsComplete c
    → read_credentials m (some e) ≡ ok (with_port c)
unfolding read_credentials
read_credentials-stored m e s c h p k = rw (h, p, k.host, k.email, k.password) refl

-- Where a user without an email account stores complete credentials for one, the email tool finds
-- these credentials for this user afterwards, whatever nonce they were encrypted with, and takes 465
-- for a missing port.
pub load_email_credentials-create :
    (sv : Services) (h : AccountHandler) (m : Mailer) (nonce : Bytes) (user : ℕ) (name : String)
    (ps : Params) (c : SmtpCredentials) (id : ℕ) (w : World)
    → IsCipher h.ciphers
    → Shares h m
    → length nonce ≡ h.ciphers.nonce_size
    → m.parse (h.marshal ps) ≡ some c
    → IsComplete c
    → email_account user w.user_accounts ≡ none
    → ((n : ℕ) → sv.db_ok n ≡ true)
    → (create sv h
        (some nonce)
        user
        (some (record { platform = "email"; display_name = name; credentials = some ps }))
        w).0
      ≡ created id
    → (load_email_credentials sv m user
        (create sv h
          (some nonce)
          user
          (some (record { platform = "email"; display_name = name; credentials = some ps }))
          w).1).0
      ≡ ok (with_port c)
unfolding create load_email_credentials new_account
load_email_credentials-create sv h m nonce user name ps c id w law same size p k free up done =
    let (enc, e, rows) =
      stored sv user "email" name (encrypt h.ciphers (some nonce) (h.marshal ps) h.encrypt_key) w id
        done in
    let plain : decrypt m.ciphers enc m.encrypt_key ≡ ok (h.marshal ps) =
      rw (same.ciphers, same.key)
        (decrypt-encrypt h.ciphers nonce (h.marshal ps) h.encrypt_key enc law size e) in
    let found =
      ap (email_account user) rows
      ∙ email_account-append user w.user_accounts
          (new_account id user "email" name enc (sv.now w.tick)) free refl refl in
    rw (up _) (rw found (read_credentials-stored m enc (h.marshal ps) c plain p k))
