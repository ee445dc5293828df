-- ===== src/Uploads.antt =====
-- `SaveFile` of server/internal/service/upload.go. The file system, the fresh name and
-- `filepath.Join` are parameters.
use crew_im.Prelude.{String, Option, none, some, Bytes, ◌<>◌}

pub record Files : Type 0 where
  -- the errors of `os.MkdirAll` and `os.WriteFile`, if there are any
  pub mkdir_all : String → Option String
  pub write_file : String → Bytes → Option String
  pub new_uuid : String
  pub join_path : String → String → String

-- The path and the error.
unfoldable pub save_file : Files → String → Bytes → String → String × Option String
save_file f dir content ext = elim (f.mkdir_all dir) [
  | some e ↦ ("", some e)
  | none ↦ let path = f.join_path dir (f.new_uuid <> ext) in (path, f.write_file path content)
]
