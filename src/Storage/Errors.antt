-- ===== src/Storage/Errors.antt =====
-- `StorageError` of crates/storage/src/lib.rs.
use Prim.Native.String.{◌++◌}
use trust_server.Common.{String}
use trust_server.Exec.{Exec, map_err}
use trust_server.Storage.Outside.{SqlError, Outside}
use trust_server.Storage.Backend.{Backend, Sql}

pub data StorageError : Type 0 where
  sqlx : SqlError → StorageError
  migrate : String → StorageError
  conflict : String → StorageError

-- its `Display`
unfoldable pub to_string : Outside → StorageError → String
to_string o (sqlx e) = "database error: " ++ o.display e
to_string o (migrate m) = "migration error: " ++ m
to_string o (conflict m) = "conflict: " ++ m

-- `?` from `sqlx::Error`
abbrev pub stored : {A : Type 0} → Sql A → Exec Backend StorageError A
stored m b = let (r, b') = m b in (map_err sqlx r, b')
