-- ===== src/Tests/Startup.antt =====
-- The task of the migrations and the start of the process, on concrete surroundings.
use trust_server.Common.{ℕ, zero, suc, ◌<◌, ◌≡◌, refl, String, none, some, arith, length}
use trust_server.Exec.{Result, ok, err}
use trust_server.Storage.Outside.{unavailable}
use trust_server.Storage.Errors.{sqlx}
use trust_server.Storage.Pool.{connect_lazy}
use trust_server.Server.World.{World}
use trust_server.Server.World
use trust_server.Server.Config.{Layer, load}
use trust_server.Server.Start.{Task, Platform, storage, not_tried, migrations, main}
use trust_server.Server.Start.Migrations.{after_tries, migrations_end}
use trust_server.Tests.Sample.{backend}

-- the database is up at the second try
abbrev migrate : ℕ → Result String (Unit {0}) × ℕ
migrate zero = (err "connection refused", 1)
migrate (suc n) = (ok tt, suc n)

fails_first : (k : ℕ) → k < 1 → (e : String) × ((migrate (after_tries migrate k 0)).0 ≡ err e)
fails_first zero l = ("connection refused", refl)
fails_first (suc k) l = absurd (omega arith)

migrations_end_example :
    (migrations migrate 1 not_tried 0 ≡ none)
    × (task : Task) × (migrations migrate 2 not_tried 0 ≡ some (task, 1))
    × (task.slept ≡ 3)
    × (length task.warned ≡ 1)
    × (task.attempt ≡ 1)
migrations_end_example = migrations_end migrate 1 0 fails_first refl

abbrev nothing_set : Layer
nothing_set = record { bind_addr = none; database_url = none; max_connections = none; store = none }

abbrev platform : Platform
platform = record {
  toml = ok nothing_set;
  env = ok (record nothing_set { max_connections = some 9 });
  pool = λ options url. ok backend;
  bind = λ addr. ok tt;
}

main_starts : main platform ≡ ok (World.new backend)
unfolding main load connect_lazy
main_starts = refl

main_fails :
    main (record platform { pool = λ options url. err unavailable })
    ≡ err (storage (sqlx unavailable))
unfolding main load connect_lazy
main_fails = refl
