-- ===== src/Server/Error.antt =====
-- crates/server/src/error.rs: the error type of the handlers and how it is rendered.
use trust_server.Common.{ℕ, String, [], ◌∷◌}
use trust_server.Protocol.Payload.{Json, str, json}
use trust_server.Storage.Outside.{Outside, SqlError, unique_violation}
use trust_server.Storage.Errors.{StorageError, sqlx, to_string}

pub data AppError : Type 0 where
  bad_request unauthorized not_found conflict internal : String → AppError

-- the status, the code and the message
unfoldable pub parts : AppError → ℕ × String × String
parts (AppError.bad_request m) = (400, "BAD_REQUEST", m)
parts (AppError.unauthorized m) = (401, "UNAUTHENTICATED", m)
parts (AppError.not_found m) = (404, "NOT_FOUND", m)
parts (AppError.conflict m) = (409, "CONFLICT", m)
parts (AppError.internal m) = (500, "INTERNAL", m)

-- the status and the body; the log line is left out
unfoldable pub into_response : AppError → ℕ × Json
unfolding parts
into_response e =
    let (status, code, message) = parts e in
    (status, json (("code", str code) ∷ ("message", str message) ∷ []))

-- `From<StorageError>`
unfoldable pub from_storage : Outside → StorageError → AppError
unfolding to_string
from_storage o (StorageError.conflict m) = AppError.conflict m
from_storage o (sqlx unique_violation) = AppError.conflict "already exists"
from_storage o e = AppError.internal (to_string o e)

-- `From<sqlx::Error>`
unfoldable pub from_sql : Outside → SqlError → AppError
from_sql o unique_violation = AppError.conflict "already exists"
from_sql o e = AppError.internal (o.display e)
