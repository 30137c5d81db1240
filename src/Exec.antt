-- ===== src/Exec.antt =====
-- Fallible code that changes a state: Rust's `Result<_, E>` from an `async fn` over shared state.
-- What was written before an error stays written, so the state comes back beside the error too.
use trust_server.Common.{
  ◌≡◌, refl, ◌⊎◌, inl, inr, Bool, true, false, Option, none, some, List, [], ◌∷◌,
}

pub data Result (E A : Type 0) : Type 0 where
  ok : A → Result E A
  err : E → Result E A

abbrev pub Exec : Type 0 → Type 0 → Type 0 → Type 0
Exec S E A = S → Result E A × S

module _ {S E A : Type 0} where
  abbrev pub pure : A → Exec S E A
  pure a s = (ok a, s)

  abbrev pub raise : E → Exec S E A
  raise e s = (err e, s)

  abbrev pub gets : (S → A) → Exec S E A
  gets f s = (ok (f s), s)

  -- `ok_or_else`
  abbrev pub ok_or : Option A → E → Exec S E A
  ok_or none e s = (err e, s)
  ok_or (some a) e s = (ok a, s)

  -- the result of a call as a value: `if let Ok(…)`, `let _ = …`
  abbrev pub attempt : Exec S E A → Exec S E (Result E A)
  attempt m s = let (r, s') = m s in (ok r, s')

module _ {S E A B : Type 0} where
  abbrev pub continue : Result E A → (A → Exec S E B) → Exec S E B
  continue (ok a) f s = f a s
  continue (err e) f s = (err e, s)

  infixl 5 ◌>>=◌
  abbrev pub ◌>>=◌ : Exec S E A → (A → Exec S E B) → Exec S E B
  ◌>>=◌ m f s = let (r, s') = m s in continue r f s'

  infixl 5 ◌>>◌
  abbrev pub ◌>>◌ : Exec S E A → Exec S E B → Exec S E B
  ◌>>◌ m n = m >>= λ _. n

module _ {S E : Type 0} where
  -- `if c { return Err(e) }`
  abbrev pub raise_if : Bool → E → Exec S E (Unit {0})
  raise_if true e s = (err e, s)
  raise_if false e s = (ok tt, s)

  abbrev pub when : Bool → Exec S E (Unit {0}) → Exec S E (Unit {0})
  when true m = m
  when false m = pure tt

  -- a `for` loop whose body may return an error
  unfoldable pub for_each : {A : Type 0} → List A → (A → Exec S E (Unit {0})) → Exec S E (Unit {0})
  for_each [] body = pure tt
  for_each (x ∷ xs) body = body x >> for_each xs body

-- `map_err`
abbrev pub map_err : {E F A : Type 0} → (E → F) → Result E A → Result F A
map_err f (ok a) = ok a
map_err f (err e) = err (f e)

abbrev pub map_ok : {E A B : Type 0} → (A → B) → Result E A → Result E B
map_ok f (ok a) = ok (f a)
map_ok f (err e) = err e

pub Result-cases :
    {E A : Type 0} (r : Result E A) → ((e : E) × (r ≡ err e)) ⊎ ((a : A) × (r ≡ ok a))
Result-cases (ok a) = inr (a, refl)
Result-cases (err e) = inl (e, refl)
