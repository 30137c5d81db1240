-- ===== src/Server/World.antt =====
-- `AppState` of crates/server/src/app.rs as one state: the database behind the pool, the presence
-- maps, and the calls of `RealtimeBus::publish` in order (the handlers know the bus by its trait).
use trust_server.Common.{ℕ, suc, List, [], ◌∷◌, ◌++◌}
use trust_server.Protocol.{Envelope, Capability}
use trust_server.Exec.{Exec, ok, map_err}
use trust_server.Storage.Models.{Uuid, Time}
use trust_server.Storage.Outside.{Outside}
use trust_server.Storage.Backend.{Backend, Sql}
use trust_server.Storage.AuthRepo.{Stored}
use trust_server.Server.Error.{AppError, from_storage, from_sql}
use trust_server.Server.Presence.{Presence}
use trust_server.Server.Presence

pub record World : Type 0 where
  pub backend : Backend
  pub presence : Presence
  pub published : List (Uuid × Envelope)

-- `AppState::new`
abbrev pub new : Backend → World
new backend = record { backend = backend; presence = Presence.new; published = [] }

abbrev pub App : Type 0 → Type 0
App = Exec World AppError

-- the capabilities that `AppState::new` sets
abbrev pub capabilities : List Capability
capabilities =
    Capability.messaging ∷ Capability.receipts ∷ Capability.typing ∷ Capability.presence ∷ []

module _ {A : Type 0} where
  -- a call of the database, with `?`
  abbrev pub query : Sql A → App A
  query m w = let (r, b) = m w.backend in (map_err (from_sql b.outside) r, record w { backend = b })

  -- a call of the auth store, with `?`
  abbrev pub auth : Stored A → App A
  auth m w =
      let (r, b) = m w.backend in (map_err (from_storage b.outside) r, record w { backend = b })

-- a pure function of another crate
abbrev pub outside : {A : Type 0} → (Outside → A) → App A
outside f w = (ok (f w.backend.outside), w)

abbrev pub called : World → World
called w = record w { backend = record w.backend { calls = suc w.backend.calls } }

-- the world after some more calls of the outside
abbrev pub after_calls : World → ℕ → World
after_calls w k = record w { backend = record w.backend { calls = k } }

-- `OffsetDateTime::now_utc()`
abbrev pub now_utc : App Time
now_utc w = (ok (w.backend.outside.clock w.backend.calls), called w)

-- `Uuid::new_v4()`, `Uuid::now_v7()`, and the 256 bits of a token
abbrev pub fresh : App ℕ
fresh w = (ok (w.backend.outside.random w.backend.calls), called w)

-- `state.bus.publish`
abbrev pub publish : Uuid → Envelope → App (Unit {0})
publish device event w = (ok tt, record w { published = w.published ++ (device, event) ∷ [] })
