-- ===== src/Checks/Toolbox.antt =====
-- Accounts, credentials and tools at concrete inputs.
use crew_im.Prelude.{◌≡◌, refl, true, false, none, some, [], ◌∷◌, All, decimal, ok}
use crew_im.Model.{Params, text}
use crew_im.World.Table.{find_by}
use crew_im.Crypto.{Ciphers, encrypt}
use crew_im.Crypto.Laws.{IsCipher}
use crew_im.Claude.Client.{new_claude_client}
use crew_im.Accounts.{AccountHandler, AccountRequest, created, create, insert_account}
use crew_im.Accounts.Credentials.{with_port, load_email_credentials-create}
use crew_im.Tools.Email.{SmtpCredentials, Mailer, email_account, load_email_credentials}
use crew_im.Tools.Box.{Toolbox, tools, Stays, tools-Stays}
use crew_im.Checks.Data.{services, world}

-- A cipher that hides nothing.
abbrev ciphers : Ciphers
ciphers = record {
  sha256 = λ s. [];
  takes_key = λ k. true;
  nonce_size = 1;
  seal = λ k n s. s;
  open_sealed = λ k n s. some s;
  encode = λ bytes. bytes;
  decode = λ bytes. some bytes;
}

ciphers-IsCipher : IsCipher ciphers
ciphers-IsCipher = record { opens = λ k n s. refl; decodes = λ bytes. refl }

abbrev pub handler : AccountHandler
handler = record { encrypt_key = "k"; ciphers = ciphers; marshal = λ ps. []; reads_times = true }

abbrev credentials : SmtpCredentials
credentials = record {
  host = "smtp.example.com";
  port = "";
  email = "a@example.com";
  password = "p";
}

abbrev mailer : Mailer
mailer = record {
  encrypt_key = "k";
  ciphers = ciphers;
  parse = λ bytes. some credentials;
  send_mail = λ mail. none;
}

abbrev params : Params
params = ("email", text "a@example.com") ∷ []

abbrev request : AccountRequest
request = record { platform = "email"; display_name = "work"; credentials = some params }

account_created : (create services handler (some (7 ∷ [])) 1 (some request) world).0 ≡ created 100
unfolding create insert_account encrypt find_by
account_created = refl

no_account : email_account 1 world.user_accounts ≡ none
unfolding email_account
no_account = refl

load_email_credentials-create_example :
    (load_email_credentials services mailer 1
      (create services handler (some (7 ∷ [])) 1 (some request) world).1).0
    ≡ ok (with_port credentials)
load_email_credentials-create_example =
    load_email_credentials-create services handler mailer (7 ∷ []) 1 "work" params credentials 100
      world ciphers-IsCipher (record { key = refl; ciphers = refl }) refl refl
      (record { host = refl; email = refl; password = refl }) no_account (λ n. refl) account_created

abbrev pub box : Toolbox
box = record {
  claude = new_claude_client "" "key" "";
  memory = record { to_lower = λ s. s; db_error = "e"; id_text = decimal; reads_times = false };
  item = record { db_error = "e"; id_text = decimal };
  reminder = record {
    parse_time = λ s. some 5;
    format_time = decimal;
    db_error = "e";
    id_text = decimal;
  };
  mailer = mailer;
}

tools-Stays_example : All Stays (tools services box)
tools-Stays_example = tools-Stays services box
