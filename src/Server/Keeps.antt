-- ===== src/Server/Keeps.antt =====
-- What every handler keeps: a property of the tables that holds before it holds after, whether the
-- handler returns or fails. One rule for each way to build a handler.
pub mod Queries
pub mod Sessions
pub mod Events
pub mod Sockets
pub mod Handlers
pub mod Requests
use trust_server.Common.{
  ℕ, String, Bool, true, false, Option, none, some, List, [], ◌∷◌, if◌then◌else◌,
}
use trust_server.Exec.{
  Result, ok, err, pure, raise, gets, ok_or, attempt, raise_if, when, for_each, continue, ◌>>=◌,
  ◌>>◌,
}
use trust_server.Protocol.{Envelope}
use trust_server.Storage.Models.{Uuid}
use trust_server.Storage.Tables.{Tables}
use trust_server.Storage.Outside.{Outside}
use trust_server.Storage.Backend.{Sql}
use trust_server.Storage.AuthRepo.{Stored}
use trust_server.Storage.Keeps.{KeepsDb}
use trust_server.Server.Error.{AppError}
use trust_server.Server.World.{World, App, query, auth, outside, now_utc, fresh, publish}

pub record Keeps {A : Type 0} (P : Tables → Type 0) (m : App A) : Type 0 where
  pub at : (w : World) → P w.backend.tables → P (m w).1.backend.tables

module _ {P : Tables → Type 0} where
  pub Keeps-pure : {A : Type 0} (a : A) → Keeps P (pure a)
  Keeps-pure a = record { at = λ w p. p }

  pub Keeps-raise : {A : Type 0} (e : AppError) → Keeps P (raise {A = A} e)
  Keeps-raise e = record { at = λ w p. p }

  pub Keeps-gets : {A : Type 0} (f : World → A) → Keeps P (gets f)
  Keeps-gets f = record { at = λ w p. p }

  pub Keeps-ok_or : {A : Type 0} (o : Option A) (e : AppError) → Keeps P (ok_or o e)
  Keeps-ok_or none e = record { at = λ w p. p }
  Keeps-ok_or (some a) e = record { at = λ w p. p }

  pub Keeps-raise_if : (c : Bool) (e : AppError) → Keeps P (raise_if c e)
  Keeps-raise_if true e = record { at = λ w p. p }
  Keeps-raise_if false e = record { at = λ w p. p }

  pub Keeps-outside : {A : Type 0} (f : Outside → A) → Keeps P (outside f)
  Keeps-outside f = record { at = λ w p. p }

  pub Keeps-now_utc : Keeps P now_utc
  Keeps-now_utc = record { at = λ w p. p }

  pub Keeps-fresh : Keeps P fresh
  Keeps-fresh = record { at = λ w p. p }

  pub Keeps-publish : (d : Uuid) (env : Envelope) → Keeps P (publish d env)
  Keeps-publish d env = record { at = λ w p. p }

  pub Keeps-query : {A : Type 0} (m : Sql A) → KeepsDb P m → Keeps P (query m)
  Keeps-query m k = record { at = λ w p. k.at w.backend p }

  pub Keeps-auth : {A : Type 0} (m : Stored A) → KeepsDb P m → Keeps P (auth m)
  Keeps-auth m k = record { at = λ w p. k.at w.backend p }

  pub Keeps-attempt : {A : Type 0} (m : App A) → Keeps P m → Keeps P (attempt m)
  Keeps-attempt m k = record { at = k.at }

  pub Keeps-if :
      {A : Type 0} (c : Bool) (m n : App A) → Keeps P m → Keeps P n → Keeps P (if c then m else n)
  Keeps-if true m n km kn = km
  Keeps-if false m n km kn = kn

  pub Keeps-when : (c : Bool) (m : App (Unit {0})) → Keeps P m → Keeps P (when c m)
  Keeps-when true m k = k
  Keeps-when false m k = Keeps-pure tt

  continue-keeps :
      {A B : Type 0} (r : Result AppError A × World) (f : A → App B)
      → P r.1.backend.tables
      → ((a : A) → Keeps P (f a))
      → P (continue r.0 f r.1).1.backend.tables
  continue-keeps (ok a, w) f p k = (k a).at w p
  continue-keeps (err e, w) f p k = p

  pub Keeps-bind :
      {A B : Type 0} (m : App A) (f : A → App B)
      → Keeps P m
      → ((a : A) → Keeps P (f a))
      → Keeps P (m >>= f)
  Keeps-bind m f km kf = record { at = λ w p. continue-keeps (m w) f (km.at w p) kf }

  pub Keeps-for_each :
      {A : Type 0} (xs : List A) (body : A → App (Unit {0}))
      → ((a : A) → Keeps P (body a))
      → Keeps P (for_each xs body)
  unfolding for_each
  Keeps-for_each [] body k = Keeps-pure tt
  Keeps-for_each (x ∷ xs) body k = Keeps-bind (body x) _ (k x) λ _. Keeps-for_each xs body k

pub ruleset keeps_rules = (
  Keeps-pure, Keeps-raise, Keeps-gets, Keeps-ok_or, Keeps-raise_if, Keeps-outside, Keeps-now_utc,
  Keeps-fresh, Keeps-publish, Keeps-query, Keeps-auth, Keeps-attempt, Keeps-if, Keeps-when,
  Keeps-bind, Keeps-for_each,
)
