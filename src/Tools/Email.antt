-- ===== src/Tools/Email.antt =====
-- `NewEmailTool` of server/internal/tool/email.go: who gets a mail, with which account it is sent, and
-- what the tool answers. `smtp.SendMail`, and `json.Unmarshal` of the credentials, are parameters.
use crew_im.Prelude.{
  ℕ, String, ◌&&◌, ◌||◌, not, Option, none, some, List, [], ◌∷◌, ◌++◌, map, ◌==◌, if◌then◌else◌,
  keep, Bytes, is_empty, ◌<>◌, str_eq, trim_space, split, Result, ok, err,
}
use text.Mathlib.Text.{find?}
use crew_im.Model.{Params}
use crew_im.Claude.Model.{ToolResult}
use crew_im.World.{Services, UserAccount, Io, query_row}
use crew_im.Crypto.{Ciphers, decrypt}
use crew_im.Tools.Registry.{Definition, ToolContext, failure, success, string_param}

pub record SmtpCredentials : Type 0 where
  pub host : String
  pub port : String
  pub email : String
  pub password : String

-- What `smtp.SendMail` is called with.
pub record Mail : Type 0 where
  pub addr : String
  pub host : String
  pub email : String
  pub password : String
  pub recipients : List String
  pub message : String

pub record Mailer : Type 0 where
  pub encrypt_key : String
  pub ciphers : Ciphers
  pub parse : Bytes → Option SmtpCredentials
  -- the error of `smtp.SendMail`, if there is one
  pub send_mail : Mail → Option String

unfoldable pub parse_addresses : String → List String
parse_addresses s = keep (λ p. not (is_empty p)) (map trim_space (split b',' s))

-- `net.JoinHostPort`
join_host_port : String → String → String
join_host_port host port = elim (find? host ":") [
  | none ↦ host <> ":" <> port
  | some n ↦ "[" <> host <> "]:" <> port
]

headers : SmtpCredentials → String → String → String → String
headers c to cc_list subject =
    "From: "
    <> c.email
    <> "\r\nTo: "
    <> to
    <> "\r\nSubject: "
    <> subject
    <> "\r\nMIME-Version: 1.0\r\nContent-Type: text/plain; charset=UTF-8\r\n"
    <> (if is_empty cc_list then "" else "Cc: " <> cc_list <> "\r\n")

-- The mail of `sendSMTP`; both of its branches send it alike.
unfoldable pub mail_of : SmtpCredentials → String → String → String → String → Mail
unfolding join_host_port headers
mail_of c to cc_list subject body = record {
  addr = join_host_port c.host c.port;
  host = c.host;
  email = c.email;
  password = c.password;
  recipients = parse_addresses to ++ (if is_empty cc_list then [] else parse_addresses cc_list);
  message = headers c to cc_list subject <> "\r\n" <> body;
}

unfoldable pub email_account : ℕ → List UserAccount → Option Bytes
email_account user [] = none
email_account user (a ∷ as') =
    if a.user_id == user && str_eq a.platform "email"
    then some a.credentials_enc
    else email_account user as'

complete : Option SmtpCredentials → Result SmtpCredentials
complete none = err "parse credentials"
complete (some c) =
    if is_empty c.host || is_empty c.email || is_empty c.password
    then err "incomplete SMTP configuration"
    else ok (record c { port = if is_empty c.port then "465" else c.port })

read_plaintext : Mailer → Result Bytes → Result SmtpCredentials
unfolding complete
read_plaintext m (err e) = err ("decrypt credentials: " <> e)
read_plaintext m (ok s) = complete (m.parse s)

unfoldable pub read_credentials : Mailer → Option Bytes → Result SmtpCredentials
unfolding read_plaintext
read_credentials m none = err "no email account bound"
read_credentials m (some e) = read_plaintext m (decrypt m.ciphers e m.encrypt_key)

unfoldable pub load_email_credentials : Services → Mailer → ℕ → Io (Result SmtpCredentials)
load_email_credentials sv m user w =
    let (e, w') = query_row sv (λ v. email_account user v.user_accounts) w in
    (read_credentials m e, w')

sent : SmtpCredentials → String → String → Option String → ToolResult
sent c to subject (some e) = failure ("发送失败：" <> e)
sent c to subject none =
    success ((("from", c.email) ∷ ("to", to) ∷ ("subject", subject) ∷ ("status", "已发送") ∷ []) ∷ [])

send_with : Mailer → String → String → String → String → Result SmtpCredentials → ToolResult
unfolding sent
send_with m to cc_list subject body (err e) = failure ("未找到邮箱配置：" <> e)
send_with m to cc_list subject body (ok c) =
    sent c to subject (m.send_mail (mail_of c to cc_list subject body))

unfoldable pub send_email : Services → Mailer → Params → ToolContext → Io ToolResult
unfolding send_with
send_email sv m ps ctx w =
    let to = string_param ps "to" in
    let subject = string_param ps "subject" in
    if is_empty to || is_empty subject
    then (failure "收件人和主题不能为空", w)
    else (let (c, w') = load_email_credentials sv m ctx.user_id w in
        (send_with m to (string_param ps "cc") subject (string_param ps "body") c, w'))

abbrev pub email_tool : Services → Mailer → Definition
email_tool sv m = record {
  name = "send_email";
  description = "使用用户绑定的邮箱发送邮件。需要用户在设置中配置了邮箱 SMTP 信息。";
  execute = send_email sv m;
}
