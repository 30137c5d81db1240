-- ===== src/Storage/Backend.antt =====
-- The state behind the connection pool, and how one SQL statement runs. A statement is atomic: it
-- fails and changes nothing, or it returns and its changes are made.
use trust_server.Common.{ℕ, suc, ◌≡◌, Bool, true, false, Option, none, some, if◌then◌else◌}
use trust_server.Exec.{Result, ok, err, Exec}
use trust_server.Storage.Models.{Uuid, Time}
use trust_server.Storage.Tables.{Tables}
use trust_server.Storage.Outside.{Outside, SqlError, unavailable, row_not_found}

pub record Backend : Type 0 where
  pub outside : Outside
  pub calls : ℕ
  pub tables : Tables

abbrev pub Sql : Type 0 → Type 0
Sql = Exec Backend SqlError

-- a statement at the time `now()`
abbrev pub Statement : Type 0 → Type 0
Statement A = Time → Tables → Result SqlError (A × Tables)

module _ {A : Type 0} where
  abbrev pub settle : Backend → Result SqlError (A × Tables) → Result SqlError A × Backend
  settle b (ok (a, t)) = (ok a, record b { calls = suc b.calls; tables = t })
  settle b (err e) = (err e, record b { calls = suc b.calls })

  -- `query.execute(pool).await`
  unfoldable pub execute : Statement A → Sql A
  execute q b =
      if b.outside.fault b.calls
      then (err unavailable, record b { calls = suc b.calls })
      else settle b (q (b.outside.clock b.calls) b.tables)

  -- a statement that only reads
  abbrev pub select : (Tables → A) → Statement A
  select f now t = ok (f t, t)

  -- `fetch_one`
  abbrev pub one : (Tables → Option A) → Statement A
  one f now t = elim (f t) [ none ↦ err row_not_found | some a ↦ ok (a, t) ]

  -- the check of a constraint in front of a write
  abbrev pub check : Bool → SqlError → Result SqlError A → Result SqlError A
  check true e r = r
  check false e r = err e

-- `Uuid::new_v4()`, `Uuid::now_v7()`
unfoldable pub new_uuid : {E : Type 0} → Exec Backend E Uuid
new_uuid b = (ok (b.outside.random b.calls), record b { calls = suc b.calls })

module _ {A : Type 0} (q : Statement A) (b : Backend) where
  -- a statement that reaches the database
  pub execute-up :
      b.outside.fault b.calls ≡ false
      → execute q b ≡ settle b (q (b.outside.clock b.calls) b.tables)
  unfolding execute
  execute-up up = rw (up, execute)

  -- a statement that does not
  pub execute-down :
      b.outside.fault b.calls ≡ true
      → execute q b ≡ (err unavailable, record b { calls = suc b.calls })
  unfolding execute
  execute-down down = rw (down, execute)
