-- ===== src/Tencent.antt =====
-- The requests to Tencent Cloud, as `TencentCloudSender` of server/internal/sms/sms.go makes them, and
-- the other senders of that file. The canonical request and the chain of hashes stand in
-- server/internal/asr/tencent.go once more. The hashes, the calendar, `json.Marshal` of a request and
-- what the server answers are parameters.
use crew_im.Prelude.{
  ℕ, String, ◌||◌, not, Option, none, some, List, [], ◌∷◌, ◌==◌, if◌then◌else◌, Bytes, is_empty,
  ◌<>◌, decimal, str_eq, Result, ok, err,
}
use text.Mathlib.Text.{starts_with}

pub record Signing : Type 0 where
  -- `sha256Hex` of a text
  pub sha256_hex : String → String
  -- `hmacSHA256`
  pub hmac_sha256 : Bytes → String → Bytes
  pub to_bytes : String → Bytes
  -- `hex.EncodeToString`
  pub hex : Bytes → String
  -- the date of a second of the epoch, in UTC
  pub date : ℕ → String

-- A request that is signed: its body, its authorization and its other headers.
pub record SignedRequest : Type 0 where
  pub host : String
  pub action : String
  pub version : String
  pub region : Option String
  pub timestamp : ℕ
  pub authorization : String
  pub body : String

-- A code and a message.
pub record ApiStatus : Type 0 where
  pub code : String
  pub message : String

-- What `http.DefaultClient.Do` gives: an error, or a status with the body; `json` is what
-- `json.Unmarshal` reads in it, or its error.
pub data Answer (A : Type 0) : Type 0 where
  request_error : String → Answer A
  answered : ℕ → String → Result A → Answer A

pub record SmsResponse : Type 0 where
  pub statuses : List ApiStatus
  pub error : Option ApiStatus

pub record TencentCloudSender : Type 0 where
  pub sdk_app_id : String
  pub sign_name : String
  pub template_id : String
  pub secret_id : String
  pub secret_key : String

unfoldable pub canonical_request : Signing → String → String → String
canonical_request g host payload =
    "POST\n/\n\ncontent-type:application/json\nhost:"
    <> host
    <> "\n\ncontent-type;host\n"
    <> g.sha256_hex payload

unfoldable pub signature : Signing → String → String → String → String → String
signature g key date service to_sign = g.hex (
    g.hmac_sha256
      (g.hmac_sha256 (g.hmac_sha256 (g.hmac_sha256 (g.to_bytes ("TC3" <> key)) date) service)
        "tc3_request")
      to_sign)

-- `signV3`
unfoldable pub sign_v3 : Signing → TencentCloudSender → String → String → ℕ → String → String
unfolding canonical_request signature
sign_v3 g t host service timestamp payload =
    let date = g.date timestamp in
    let to_sign =
      "TC3-HMAC-SHA256\n"
      <> decimal timestamp
      <> "\n"
      <> date
      <> "/"
      <> service
      <> "/tc3_request\n"
      <> g.sha256_hex (canonical_request g host payload) in
    "TC3-HMAC-SHA256 Credential="
    <> t.secret_id
    <> "/"
    <> date
    <> "/"
    <> service
    <> "/tc3_request, SignedHeaders=content-type;host, Signature="
    <> signature g t.secret_key date service to_sign

pub record SmsPayload : Type 0 where
  pub sms_sdk_app_id : String
  pub sign_name : String
  pub template_id : String
  pub phone_number_set : List String
  pub template_param_set : List String

unfoldable pub phone_number : String → String
phone_number phone = if starts_with phone "+" then phone else "+86" <> phone

unfoldable pub sms_payload : TencentCloudSender → String → String → SmsPayload
unfolding phone_number
sms_payload t phone code = record {
  sms_sdk_app_id = t.sdk_app_id;
  sign_name = t.sign_name;
  template_id = t.template_id;
  phone_number_set = phone_number phone ∷ [];
  template_param_set = code ∷ "5" ∷ [];
}

unfoldable pub sms_request : Signing → TencentCloudSender → ℕ → String → SignedRequest
sms_request g t timestamp body = record {
  host = "sms.tencentcloudapi.com";
  action = "SendSms";
  version = "2021-01-11";
  region = none;
  timestamp = timestamp;
  authorization = sign_v3 g t "sms.tencentcloudapi.com" "sms" timestamp body;
  body = body;
}

first_status : List ApiStatus → Option String
first_status [] = none
first_status (s ∷ ss) = if str_eq s.code "Ok" then none else some ("SMS send failed: " <> s.message)

-- The error of `Send` for an answer, if there is one.
sms_answer : Answer SmsResponse → Option String
unfolding first_status
sms_answer (request_error e) = some ("SMS HTTP request failed: " <> e)
sms_answer (answered status text (err e)) =
    if not (status == 200)
    then some ("SMS API returned " <> decimal status <> ": " <> text)
    else some ("parse SMS response: " <> e)
sms_answer (answered status text (ok r)) =
    if not (status == 200)
    then some ("SMS API returned " <> decimal status <> ": " <> text)
    else elim r.error [
      | some e ↦ some ("SMS API error: " <> e.code <> " - " <> e.message)
      | none ↦ first_status r.statuses
    ]

-- `Send`: `none` is no error. `marshal` and `post` are json.Marshal and the server.
unfoldable pub send_sms :
    Signing
    → (SmsPayload → String)
    → (SignedRequest → Answer SmsResponse)
    → TencentCloudSender
    → ℕ
    → String
    → String
    → Option String
unfolding sms_answer
send_sms g marshal post t now phone code =
    if is_empty t.sdk_app_id || is_empty t.secret_id || is_empty t.secret_key
    then some "tencent SMS config incomplete"
    else sms_answer (post (sms_request g t now (marshal (sms_payload t phone code))))

pub data Sender : Type 0 where
  mock_sender : Sender
  tencent_sender : TencentCloudSender → Sender

unfoldable pub new_sender : String → Option TencentCloudSender → Sender
new_sender provider none = mock_sender
new_sender provider (some cfg) =
    if str_eq provider "tencent" then tencent_sender cfg else mock_sender

-- `Send` of each sender.
unfoldable pub send_with_sender :
    Signing
    → (SmsPayload → String)
    → (SignedRequest → Answer SmsResponse)
    → Sender
    → ℕ
    → String
    → String
    → Option String
send_with_sender g marshal post mock_sender now phone code = none
send_with_sender g marshal post (tencent_sender t) now phone code =
    send_sms g marshal post t now phone code
