-- ===== src/Server/Returns.antt =====
-- What is known of a handler's parts when the handler returns.
use trust_server.Common.{◌≡◌, refl, sym, ap, ◌∙◌, Bool, true, false}
use trust_server.Exec.{Result, ok, err, raise_if, continue, ◌>>=◌}
use trust_server.Storage.Backend.{Backend, Sql}
use trust_server.Storage.Outside.{SqlError}
use trust_server.Server.Error.{AppError}
use trust_server.Server.World.{World, App, query}

-- a block that returns: its first action returned, and then the rest did
pub bind-ok :
    {A B : Type 0} (m : App A) (f : A → App B) (w : World) (b : B) (w' : World)
    → (m >>= f) w ≡ (ok b, w')
    → (a : A) × (w1 : World) × (m w ≡ (ok a, w1)) × (f a w1 ≡ (ok b, w'))
bind-ok {A} {B} m f w b w' e = cases (m w) refl e
  where
    cases :
        (r : Result AppError A × World)
        → m w ≡ r
        → continue r.0 f r.1 ≡ (ok b, w')
        → (a : A) × (w1 : World) × (m w ≡ (ok a, w1)) × (f a w1 ≡ (ok b, w'))
    cases (ok a, w1) h g = (a, w1, h, g)
    cases (err x, w1) h g = cc

pub raise_if-ok :
    (c : Bool) (x : AppError) (w w' : World) (u : Unit {0})
    → raise_if c x w ≡ (ok u, w')
    → (c ≡ false) × (w ≡ w')
raise_if-ok true x w w' u e = cc
raise_if-ok false x w w' u e = (refl, cc)

pub query-ok :
    {A : Type 0} (m : Sql A) (w w' : World) (a : A)
    → query m w ≡ (ok a, w')
    → (m w.backend ≡ (ok a, w'.backend)) × (w' ≡ record w { backend = w'.backend })
query-ok {A} m w w' a e = cases (m w.backend) refl
  where
    cases :
        (r : Result SqlError A × Backend)
        → m w.backend ≡ r
        → (m w.backend ≡ (ok a, w'.backend)) × (w' ≡ record w { backend = w'.backend })
    cases (ok x, b) h =
        let g = rw h at e in
        let after = sym (ap (λ (r : Result AppError A × World). r.1) g) in
        let same : x ≡ a = cc in rw after (h ∙ rw same refl, refl)
    cases (err x, b) h = let bad = rw h at e in cc
