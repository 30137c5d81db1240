-- ===== src/Storage/Pool.antt =====
-- `Db` of crates/storage/src/lib.rs: the pool and the runner of the migrations, which sqlx provides.
use trust_server.Common.{ℕ, String}
use trust_server.Exec.{Result, Exec, map_err}
use trust_server.Storage.Outside.{SqlError}
use trust_server.Storage.Errors.{StorageError, sqlx, migrate}
use trust_server.Storage.Backend.{Backend}

-- what the code sets of `PgPoolOptions`
pub record PoolOptions : Type 0 where
  pub max_connections : ℕ
  pub acquire_timeout_seconds : ℕ

-- `PgPoolOptions::connect_lazy` is given: it parses the URL and connects to nothing yet
unfoldable pub connect_lazy :
    (PoolOptions → String → Result SqlError Backend) → String → ℕ → Result StorageError Backend
connect_lazy pool database_url max_connections =
    map_err sqlx (
      pool (record { max_connections = max_connections; acquire_timeout_seconds = 5 }) database_url)

-- `MIGRATOR.run` is given, with the text of its error
unfoldable pub apply_migrations :
    Exec Backend String (Unit {0}) → Exec Backend StorageError (Unit {0})
apply_migrations run b = let (r, b') = run b in (map_err migrate r, b')
