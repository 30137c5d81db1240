-- ===== src/Server/Response.antt =====
-- What a request is answered, as far as the code chooses it: the status, and the body that axum
-- makes of a value (`IntoResponse`).
use trust_server.Common.{ℕ}
use trust_server.Exec.{Result, ok, err}
use trust_server.Protocol.Payload.{Json}
use trust_server.Server.Error.{AppError, into_response}
use trust_server.Server.World.{World}
use trust_server.Server.Blobs.{Download}

pub data Response : Type 0 where
  reply : ℕ → Json → Response
  status : ℕ → Response
  download : Download → Response

abbrev pub failed : AppError → Response
failed e = let (code, body) = into_response e in reply code body

-- the answer of a handler: its value rendered, or its error
abbrev pub answer : {A : Type 0} → (A → Response) → Result AppError A × World → Response × World
answer render (ok a, w) = (render a, w)
answer render (err e, w) = (failed e, w)
