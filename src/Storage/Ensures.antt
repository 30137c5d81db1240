-- ===== src/Storage/Ensures.antt =====
-- What a query ensures: from tables with `P` it returns a value and tables with `Q`, or an error and
-- tables with `F`, wherever statements fail to reach the database.
use trust_server.Common.{Bool, true, false, ◌≡◌, refl, subst, inl, inr, Bool-cases}
use trust_server.Exec.{Result, ok, err, pure, ◌>>=◌, continue}
use trust_server.Storage.Models.{Time}
use trust_server.Storage.Tables.{Tables}
use trust_server.Storage.Outside.{SqlError}
use trust_server.Storage.Backend.{
  Backend, Sql, Statement, execute, settle, execute-up, execute-down, new_uuid, check,
}

abbrev pub Post :
    {A : Type 0} → (A → Tables → Type 0) → (Tables → Type 0) → Result SqlError A × Backend → Type 0
Post Q F (ok a, b) = Q a b.tables
Post Q F (err e, b) = F b.tables

pub record Ensures {A : Type 0} (P : Tables → Type 0) (m : Sql A) (Q : A → Tables → Type 0)
    (F : Tables → Type 0) : Type 0 where
  pub at : (b : Backend) → P b.tables → Post Q F (m b)

-- the outcome of a statement that changes nothing if it fails
abbrev pub Outcome : {A : Type 0} → (A → Tables → Type 0) → Result SqlError (A × Tables) → Type 0
Outcome Q (ok (a, t)) = Q a t
Outcome Q (err e) = Unit

Post-settle :
    {A : Type 0} (Q : A → Tables → Type 0) (F : Tables → Type 0) (b : Backend)
    (r : Result SqlError (A × Tables))
    → F b.tables
    → Outcome Q r
    → Post Q F (settle b r)
Post-settle Q F b (ok (a, t)) f h = h
Post-settle Q F b (err e) f h = f

module _ {A : Type 0} {P : Tables → Type 0} (Q : A → Tables → Type 0) {F : Tables → Type 0} where
  pub Ensures-execute :
      (q : Statement A)
      → ((t : Tables) → P t → F t)
      → ((now : Time) (t : Tables) → P t → Outcome Q (q now t))
      → Ensures P (execute q) Q F
  Ensures-execute q f h = record {
    at = λ b p. elim (Bool-cases (b.outside.fault b.calls)) [
      | inl down ↦ rw (execute-down q b down) (f b.tables p)
      | inr up ↦ rw (execute-up q b up) (
          Post-settle Q F b (q (b.outside.clock b.calls) b.tables) (f b.tables p)
            (h (b.outside.clock b.calls) b.tables p))
    ];
  }

  pub Ensures-pure : (a : A) → ((t : Tables) → P t → Q a t) → Ensures P (pure a) Q F
  Ensures-pure a h = record { at = λ b p. h b.tables p }

pub Ensures-new_uuid :
    (P : Tables → Type 0) (F : Tables → Type 0) → Ensures P new_uuid (λ id t. P t) F
unfolding new_uuid
Ensures-new_uuid P F = record { at = λ b p. p }

Post-continue :
    {A B : Type 0} (Q : A → Tables → Type 0) (R : B → Tables → Type 0) (F : Tables → Type 0)
    (r : Result SqlError A × Backend) (f : A → Sql B)
    → Post Q F r
    → ((a : A) → Ensures (Q a) (f a) R F)
    → Post R F (continue r.0 f r.1)
Post-continue Q R F (ok a, b) f h k = (k a).at b h
Post-continue Q R F (err e, b) f h k = h

pub Ensures-bind :
    {A B : Type 0} {P : Tables → Type 0} {Q : A → Tables → Type 0} {R : B → Tables → Type 0}
    {F : Tables → Type 0} {m : Sql A} {f : A → Sql B}
    → Ensures P m Q F
    → ((a : A) → Ensures (Q a) (f a) R F)
    → Ensures P (m >>= f) R F
Ensures-bind {Q} {R} {F} {m} {f} h k = record {
  at = λ b p. Post-continue Q R F (m b) f (h.at b p) k;
}

Post-state :
    {A : Type 0} (P : Tables → Type 0) (r : Result SqlError A × Backend)
    → Post (λ _ t. P t) P r
    → P r.1.tables
Post-state P (ok a, b) h = h
Post-state P (err e, b) h = h

-- an invariant holds after the query, however it ends
pub Ensures-state :
    {A : Type 0} {P : Tables → Type 0} {m : Sql A}
    → Ensures P m (λ _ t. P t) P
    → (b : Backend) → P b.tables
    → P (m b).1.tables
Ensures-state {P} {m} h b p = Post-state P (m b) (h.at b p)

-- a constraint in front of a write
pub Outcome-check :
    {A : Type 0} (Q : A → Tables → Type 0) (c : Bool) (e : SqlError)
    (r : Result SqlError (A × Tables))
    → (c ≡ true → Outcome Q r)
    → Outcome Q (check c e r)
Outcome-check Q true e r h = h refl
Outcome-check Q false e r h = tt

Post-ok :
    {A : Type 0} (Q : A → Tables → Type 0) (F : Tables → Type 0) (r : Result SqlError A × Backend)
    (a : A) (b' : Backend)
    → r ≡ (ok a, b')
    → Post Q F r
    → Q a b'.tables
Post-ok Q F r a b' e h = subst (Post Q F) e h

-- what holds when the query returns a value
pub Ensures-ok :
    {A : Type 0} {P : Tables → Type 0} {m : Sql A} {Q : A → Tables → Type 0} {F : Tables → Type 0}
    → Ensures P m Q F
    → (b : Backend) (a : A) (b' : Backend) → m b ≡ (ok a, b')
    → P b.tables
    → Q a b'.tables
Ensures-ok {m} {Q} {F} h b a b' e p = Post-ok Q F (m b) a b' e (h.at b p)
