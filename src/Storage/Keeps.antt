-- ===== src/Storage/Keeps.antt =====
-- What every query keeps: a property of the tables that holds before it holds after, whichever of
-- its statements fail. One rule for each way to build a query.
use trust_server.Common.{
  Bool, true, false, inl, inr, Bool-cases, if◌then◌else◌, Option, Option-cases,
}
use trust_server.Exec.{Result, ok, err, Exec, pure, when, ◌>>=◌, continue}
use trust_server.Storage.Models.{Time}
use trust_server.Storage.Tables.{Tables}
use trust_server.Storage.Outside.{SqlError}
use trust_server.Storage.Errors.{stored}
use trust_server.Storage.Backend.{
  Backend, Sql, Statement, execute, select, one, settle, execute-up, execute-down, new_uuid,
}
use trust_server.Storage.Ensures.{Outcome}

pub record KeepsDb {E A : Type 0} (P : Tables → Type 0) (m : Exec Backend E A) : Type 0 where
  pub at : (b : Backend) → P b.tables → P (m b).1.tables

settle-keeps :
    {A : Type 0} (P : Tables → Type 0) (b : Backend) (r : Result SqlError (A × Tables))
    → P b.tables
    → Outcome (λ _ t. P t) r
    → P (settle b r).1.tables
settle-keeps P b (ok (a, t)) p h = h
settle-keeps P b (err e) p h = p

module _ {P : Tables → Type 0} where
  pub KeepsDb-execute :
      {A : Type 0} (q : Statement A)
      → ((now : Time) (t : Tables) → P t → Outcome (λ _ t'. P t') (q now t))
      → KeepsDb P (execute q)
  KeepsDb-execute q h = record {
    at = λ b p. elim (Bool-cases (b.outside.fault b.calls)) [
      | inl down ↦ rw (execute-down q b down) p
      | inr up ↦ rw (execute-up q b up) (
          settle-keeps P b (q (b.outside.clock b.calls) b.tables) p
            (h (b.outside.clock b.calls) b.tables p))
    ];
  }

  pub KeepsDb-select : {A : Type 0} (f : Tables → A) → KeepsDb P (execute (select f))
  KeepsDb-select f = KeepsDb-execute (select f) λ now t p. p

  pub KeepsDb-one : {A : Type 0} (f : Tables → Option A) → KeepsDb P (execute (one f))
  KeepsDb-one f =
      KeepsDb-execute (one f)
        λ now t p. elim (Option-cases (f t)) [ inl e ↦ rw (one, e) tt | inr (a, e) ↦ rw (one, e) p ]

  pub KeepsDb-stored : {A : Type 0} (m : Sql A) → KeepsDb P m → KeepsDb P (stored m)
  KeepsDb-stored m k = record { at = k.at }

  pub KeepsDb-pure : {E A : Type 0} (a : A) → KeepsDb P (pure {E = E} a)
  KeepsDb-pure a = record { at = λ b p. p }

  pub KeepsDb-new_uuid : {E : Type 0} → KeepsDb P (new_uuid {E = E})
  unfolding new_uuid
  KeepsDb-new_uuid = record { at = λ b p. p }

  pub KeepsDb-when :
      {E : Type 0} (c : Bool) (m : Exec Backend E (Unit {0})) → KeepsDb P m → KeepsDb P (when c m)
  KeepsDb-when true m k = k
  KeepsDb-when false m k = KeepsDb-pure tt

  pub KeepsDb-if :
      {E A : Type 0} (c : Bool) (m n : Exec Backend E A)
      → KeepsDb P m
      → KeepsDb P n
      → KeepsDb P (if c then m else n)
  KeepsDb-if true m n km kn = km
  KeepsDb-if false m n km kn = kn

  continue-keeps :
      {E A B : Type 0} (r : Result E A × Backend) (f : A → Exec Backend E B)
      → P r.1.tables
      → ((a : A) → KeepsDb P (f a))
      → P (continue r.0 f r.1).1.tables
  continue-keeps (ok a, b) f p k = (k a).at b p
  continue-keeps (err e, b) f p k = p

  pub KeepsDb-bind :
      {E A B : Type 0} (m : Exec Backend E A) (f : A → Exec Backend E B)
      → KeepsDb P m
      → ((a : A) → KeepsDb P (f a))
      → KeepsDb P (m >>= f)
  KeepsDb-bind m f km kf = record { at = λ b p. continue-keeps (m b) f (km.at b p) kf }

pub ruleset keeps_db = (
  KeepsDb-select, KeepsDb-one, KeepsDb-stored, KeepsDb-pure, KeepsDb-new_uuid, KeepsDb-when,
  KeepsDb-if, KeepsDb-bind,
)
