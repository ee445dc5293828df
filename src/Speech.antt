-- ===== src/Speech.antt =====
-- Speech recognition: server/internal/asr/tencent.go and server/internal/ai/whisper.go. What the file
-- system and the servers answer is a parameter.
pub mod Signatures
use crew_im.Prelude.{
  ℕ, zero, suc, ◌+◌, ◌-◌, ◌*◌, ◌/◌, ◌%◌, ◌^◌, ◌≤◌, ◌<◌, String, ◌≡◌, refl, sym, ap, ◌∙◌, ◌≢◌, ◌↔◌,
  ◌⊎◌, inl, inr, Bool, true, false, ◌&&◌, ◌||◌, not, Option, none, some, List, [], ◌∷◌, ◌++◌, map,
  arith, ltb, leb, ◌==◌, if◌then◌else◌, ltb→lt, lt→ltb, leb→le, ==_iff, Bool-cases, Option-cases,
  All, length, take, drop, take-append, drop-append, last?, keep, length-append, last?-append,
  length-keep-le, All-append, All-keep, All-map, Bytes, bytes_eq, bytes_eq_iff, bytes_eq_refl,
  eq_of_bytes_eq, bytes_ne, is_empty, join, ◌<>◌, decimal, str_eq, str_eq_iff, trim_space,
  trim_prefix, trim_suffix, split, Result, ok, err,
}
use crew_im.Tencent.{
  Signing, SignedRequest, ApiStatus, Answer, request_error, answered, canonical_request, signature,
}

pub record TencentAsr : Type 0 where
  pub secret_id : String
  pub secret_key : String

pub record AsrResponse : Type 0 where
  pub result : String
  pub error : Option ApiStatus

-- `credentialScope`
unfoldable pub credential_scope : String → String → String
credential_scope date service = date <> "/" <> service <> "/tc3_request"

-- The authorization that `Transcribe` builds.
unfoldable pub authorization : Signing → TencentAsr → String → String → ℕ → String → String
unfolding credential_scope
authorization g t host service timestamp payload =
    let date = g.date timestamp in
    let scope = credential_scope date service in
    let to_sign =
      "TC3-HMAC-SHA256\n"
      <> decimal timestamp
      <> "\n"
      <> scope
      <> "\n"
      <> g.sha256_hex (canonical_request g host payload) in
    "TC3-HMAC-SHA256 Credential="
    <> t.secret_id
    <> "/"
    <> scope
    <> ", SignedHeaders=content-type;host, Signature="
    <> signature g t.secret_key date service to_sign

unfoldable pub asr_request : Signing → TencentAsr → ℕ → String → SignedRequest
asr_request g t timestamp body = record {
  host = "asr.tencentcloudapi.com";
  action = "SentenceRecognition";
  version = "2019-06-14";
  region = some "ap-shanghai";
  timestamp = timestamp;
  authorization = authorization g t "asr.tencentcloudapi.com" "asr" timestamp body;
  body = body;
}

-- The status of the answer is not looked at.
asr_answer : Answer AsrResponse → Result String
asr_answer (request_error e) = err ("tencent asr request: " <> e)
asr_answer (answered status text (err e)) = err ("parse asr response: " <> e)
asr_answer (answered status text (ok r)) = elim r.error [
  | some e ↦ err ("tencent asr error: " <> e.code <> " - " <> e.message)
  | none ↦ ok (trim_space r.result)
]

-- `Transcribe` of a file that was read, or not; `encode` is the JSON with the audio in base 64.
unfoldable pub transcribe_tencent :
    Signing
    → (Bytes → String)
    → (SignedRequest → Answer AsrResponse)
    → TencentAsr
    → ℕ
    → Result Bytes
    → Result String
unfolding asr_answer
transcribe_tencent g encode post t now (err e) = err ("read audio: " <> e)
transcribe_tencent g encode post t now (ok audio) =
    asr_answer (post (asr_request g t now (encode audio)))

pub data Transcriber : Type 0 where
  mock_transcriber : Transcriber
  tencent_asr : TencentAsr → Transcriber

unfoldable pub new_transcriber : String → String → String → Transcriber
new_transcriber provider secret_id secret_key =
    if str_eq provider "tencent" && not (is_empty secret_id) && not (is_empty secret_key)
    then tencent_asr (record { secret_id = secret_id; secret_key = secret_key })
    else mock_transcriber

unfoldable pub transcribe :
    Signing
    → (Bytes → String)
    → (SignedRequest → Answer AsrResponse)
    → Transcriber
    → ℕ
    → Result Bytes
    → Result String
transcribe g encode post mock_transcriber now file = ok "[语音转写] 这是一条测试语音指令"
transcribe g encode post (tencent_asr t) now file = transcribe_tencent g encode post t now file

pub record WhisperClient : Type 0 where
  pub api_key : String
  pub api_url : String

unfoldable pub new_whisper_client : String → String → WhisperClient
new_whisper_client key url = record {
  api_key = key;
  api_url = if is_empty url then "https://api.openai.com/v1/audio/transcriptions" else url;
}

-- The form of the request: the file with its name, the model and the language.
pub record WhisperRequest : Type 0 where
  pub url : String
  pub authorization : String
  pub file_name : String
  pub file : Bytes
  pub model : String
  pub language : String

-- A body that is no JSON gives the empty text.
whisper_answer : Answer String → Result String
whisper_answer (request_error e) = err ("whisper api: " <> e)
whisper_answer (answered status text json) =
    if not (status == 200)
    then err ("whisper error " <> decimal status <> ": " <> text)
    else elim json [ ok s ↦ ok s | err e ↦ ok "" ]

transcribe_file :
    WhisperClient → (WhisperRequest → Answer String) → String → Result Bytes → Result String
unfolding whisper_answer
transcribe_file w post name (err e) = err e
transcribe_file w post name (ok file) = whisper_answer (
    post (record {
      url = w.api_url;
      authorization = "Bearer " <> w.api_key;
      file_name = name;
      file = file;
      model = "whisper-1";
      language = "zh";
    }))

-- `Transcribe`; `base` is `filepath.Base`, `read` the file that is opened and copied. A URL that
-- `http.NewRequest` refuses is left out.
unfoldable pub transcribe_whisper :
    WhisperClient
    → (WhisperRequest → Answer String)
    → (String → String)
    → (String → Result Bytes)
    → String
    → Result String
unfolding transcribe_file
transcribe_whisper w post base read path =
    if is_empty w.api_key
    then ok ("[Mock transcription of " <> base path <> "]")
    else transcribe_file w post (base path) (read path)
