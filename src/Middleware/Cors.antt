-- ===== src/Middleware/Cors.antt =====
-- `CORS` of server/internal/middleware/cors.go.
use crew_im.Prelude.{String, List, [], ◌∷◌, if◌then◌else◌, str_eq}
use crew_im.World.{Io}

abbrev pub cors_headers : List (String × String)
cors_headers =
    ("Access-Control-Allow-Origin", "*")
    ∷ ("Access-Control-Allow-Methods", "GET, POST, PUT, DELETE, OPTIONS")
    ∷ ("Access-Control-Allow-Headers", "Content-Type, Authorization")
    ∷ ("Access-Control-Max-Age", "86400")
    ∷ []

-- 204 in place of the handler's reply for the method OPTIONS, with the headers in any case.
pub data CorsReply (A : Type 0) : Type 0 where
  no_content : CorsReply A
  served : A → CorsReply A

unfoldable pub cors : {A : Type 0} → String → Io A → Io (List (String × String) × CorsReply A)
cors method next w =
    if str_eq method "OPTIONS"
    then ((cors_headers, no_content), w)
    else (let (a, w') = next w in ((cors_headers, served a), w'))
