-- ===== src/Commands/Body.antt =====
-- What `CreateCommand` of server/internal/handler/commands.go reads from a request: the fields of the
-- form or the JSON, the audio with its transcription, and the images. A file's `saved` is the path
-- that `service.SaveFile` gave, or its error.
use crew_im.Prelude.{
  String, Bool, true, false, ◌&&◌, not, Option, none, some, List, [], ◌∷◌, ltb, if◌then◌else◌,
  length, take, Bytes, bytes_eq, is_empty, ◌<>◌, decimal,
}
use text.Mathlib.Text.{starts_with, find?}
use crew_im.Model.{TaskRef, uuid, no_uuid}

pub record ImagePart : Type 0 where
  pub disposition : String
  pub opened : Bool
  pub saved : Option String

pub record Form : Type 0 where
  pub text : String
  pub parent_task_id : TaskRef
  pub session_id : TaskRef
  -- no audio, an audio that could not be saved, or its path
  pub audio : Option (Option String)
  pub parts : List ImagePart

pub record JsonBody : Type 0 where
  pub text : Option String
  pub parent_task_id : Option TaskRef
  pub session_id : Option TaskRef

-- The request's `Content-Type` and its body as either reader takes it.
pub record CommandBody : Type 0 where
  pub content_type : Bytes
  pub form : Form
  pub json : JsonBody

pub record Command : Type 0 where
  pub text : Option String
  pub parent_task_id : Option TaskRef
  pub session_id : Option TaskRef
  pub audio_url : Option String
  pub image_urls : List String

-- "multipart/form-data"
abbrev pub multipart : Bytes
multipart =
    109 ∷ 117 ∷ 108 ∷ 116 ∷ 105 ∷ 112 ∷ 97 ∷ 114 ∷ 116 ∷ 47 ∷ 102 ∷ 111 ∷ 114 ∷ 109 ∷ 45 ∷ 100 ∷ 97
    ∷ 116 ∷ 97 ∷ []

-- `len(ct) > 19 && ct[:19] == "multipart/form-data"`
unfoldable pub is_multipart : Bytes → Bool
is_multipart ct = ltb 19 (length ct) && bytes_eq (take 19 ct) multipart

-- `*text`, where nil counts as "".
abbrev pub command_text : Option String → String
command_text none = ""
command_text (some s) = s

text_or_nil : String → Option String
text_or_nil s = if is_empty s then none else some s

ref_or_nil : TaskRef → Option TaskRef
ref_or_nil (uuid n) = some (uuid n)
ref_or_nil (no_uuid s) = if is_empty s then none else some (no_uuid s)

-- The text of an audio, where the form has none.
transcribed :
    Option (String → Option String) → Option String → Option (Option String) → Option String
transcribed asr text (some (some path)) =
    if is_empty (command_text text)
    then elim asr [
      | none ↦ text
      | some f ↦ elim (f path) [ none ↦ text | some t ↦ if is_empty t then text else some t ]
    ]
    else text
transcribed asr text _ = text

audio_path : Option (Option String) → Option String
audio_path (some (some path)) = some path
audio_path _ = none

contains : String → String → Bool
contains s t = elim (find? s t) [ none ↦ false | some n ↦ true ]

is_image : ImagePart → Bool
unfolding contains
is_image p =
    not (starts_with p.disposition "form-data; name=\"audio\"")
    && contains p.disposition "name=\"images\""
    && p.opened

images_of : List ImagePart → List String
unfolding is_image
images_of [] = []
images_of (p ∷ ps) =
    let rest = images_of ps in
    if is_image p then elim p.saved [ none ↦ rest | some path ↦ path ∷ rest ] else rest

-- Images alone are a command to look at them.
described : Option String → List String → Option String
described text [] = text
described text (i ∷ is') =
    if is_empty (command_text text)
    then some ("请分析这" <> decimal (length (i ∷ is')) <> "张图片")
    else text

unfoldable pub read_form : Option (String → Option String) → Form → Command
unfolding text_or_nil ref_or_nil transcribed audio_path images_of described
read_form asr f = record {
  text = described (transcribed asr (text_or_nil f.text) f.audio) (images_of f.parts);
  parent_task_id = ref_or_nil f.parent_task_id;
  session_id = ref_or_nil f.session_id;
  audio_url = audio_path f.audio;
  image_urls = images_of f.parts;
}

unfoldable pub read_body : Option (String → Option String) → CommandBody → Command
unfolding read_form is_multipart
read_body asr b = if is_multipart b.content_type then read_form asr b.form else record {
  text = b.json.text;
  parent_task_id = b.json.parent_task_id;
  session_id = b.json.session_id;
  audio_url = none;
  image_urls = [];
}
