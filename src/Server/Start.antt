-- ===== src/Server/Start.antt =====
-- crates/server/src/main.rs: the start of the process and the task that applies the migrations.
pub mod Migrations
use trust_server.Common.{
  ℕ, zero, suc, ◌+◌, ◌%◌, ◌^◌, String, Option, none, some, List, [], ◌∷◌, ◌++◌,
}
use trust_server.Exec.{Result, ok, err}
use trust_server.Storage.Backend.{Backend}
use trust_server.Storage.Outside.{SqlError}
use trust_server.Storage.Errors.{StorageError}
use trust_server.Storage.Pool.{PoolOptions, connect_lazy}
use trust_server.Server.World.{World}
use trust_server.Server.World
use trust_server.Server.Config.{Config, Layer, load}

-- Where the task of the migrations stands: its counter, a u32 that wraps around, the numbers that
-- its warnings carry, and the seconds that it has slept.
pub record Task : Type 0 where
  pub attempt : ℕ
  pub warned : List ℕ
  pub slept : ℕ

abbrev pub not_tried : Task
not_tried = record { attempt = 0; warned = []; slept = 0 }

-- the branch of the loop on an error
abbrev pub failed_try : Task → Task
failed_try task =
    let attempt = (task.attempt + 1) % 2 ^ 32 in
    record { attempt = attempt; warned = task.warned ++ attempt ∷ []; slept = task.slept + 3 }

module _ {S E : Type 0} (migrate : S → Result E (Unit {0}) × S) where
  -- `loop { match migrate_db.migrate().await … }`, for at most as many tries as the fuel; `none` if
  -- it has not come to its `break` by then
  unfoldable pub migrations : ℕ → Task → S → Option (Task × S)
  migrations zero task s = none
  migrations (suc fuel) task s =
      let (r, s') = migrate s in
      elim r [ ok _ ↦ some (task, s') | err e ↦ migrations fuel (failed_try task) s' ]

-- What the start asks of its surroundings: the two providers of the configuration, the pool for a
-- URL, and the listener.
pub record Platform : Type 0 where
  pub toml : Result String Layer
  pub env : Result String Layer
  pub pool : PoolOptions → String → Result SqlError Backend
  pub bind : String → Result String (Unit {0})

pub data StartError : Type 0 where
  config : String → StartError
  storage : StorageError → StartError
  listener : String → StartError

abbrev pub listen : Config → Backend → Result String (Unit {0}) → Result StartError World
listen c db (ok _) = ok (World.new db)
listen c db (err e) = err (listener e)

abbrev pub with_pool : Platform → Config → Result StorageError Backend → Result StartError World
with_pool p c (ok db) = listen c db (p.bind c.bind_addr)
with_pool p c (err e) = err (storage e)

abbrev pub configured : Platform → Result String Config → Result StartError World
configured p (ok c) = with_pool p c (connect_lazy p.pool c.database_url c.max_connections)
configured p (err e) = err (config e)

-- the state with which the router starts to serve
unfoldable pub main : Platform → Result StartError World
main p = configured p (load p.toml p.env)
