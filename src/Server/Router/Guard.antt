-- ===== src/Server/Router/Guard.antt =====
-- Which requests reach a handler without the header of the protocol's version.
use trust_server.Common.{
  ◌≡◌, refl, String, Bool, true, false, not, ◌&&◌, List, [], ◌∷◌, any, All, arith, if◌then◌else◌,
  Bool-cases, inl, inr,
}
use trust_server.Common.Text.{str_eq, is_empty}
use trust_server.Server.World.{World}
use trust_server.Server.Headers.{header}
use trust_server.Server.App.{unsupported_version}
use trust_server.Server.App.Version.{admitted, guard_admits_zeros}
use trust_server.Server.Response.{status}
use trust_server.Server.Routes.{Route, routes, matches}
use trust_server.Server.Router.{Request, Extractors, dispatch, serve}

-- `/health`, `/v0/ws` and `/v0/blobs/{id}`
abbrev pub is_open : List String → Bool
is_open (a ∷ []) = str_eq "health" a
is_open (a ∷ b ∷ []) = str_eq "v0" a && str_eq "ws" b
is_open (a ∷ b ∷ c ∷ []) = str_eq "v0" a && str_eq "blobs" b && not (is_empty c)
is_open path = false

abbrev pub is_route : List String → Bool
is_route path = any (λ r. matches r.pattern path) routes

-- an unversioned route of a closed path is not the one that matches
abbrev Closed : List String → List Route → Type 0
Closed path rs = All (λ r. matches r.pattern path ≡ true → r.versioned ≡ true) rs

routes-Closed : (path : List String) → is_open path ≡ false → Closed path routes
unfolding matches
routes-Closed [] h = ground arith
routes-Closed (a ∷ []) h = ground arith
routes-Closed (a ∷ b ∷ []) h = ground arith
routes-Closed (a ∷ b ∷ c ∷ []) h = ground arith
routes-Closed (a ∷ b ∷ c ∷ d ∷ path) h = ground arith

dispatch-Closed :
    (x : Extractors) (req : Request) (w : World) (rs : List Route)
    → Closed req.path rs
    → admitted (header "trust-protocol-version" req.headers) ≡ false
    → dispatch x rs req w
      ≡ (if any (λ r. matches r.pattern req.path) rs then unsupported_version else status 404, w)
unfolding dispatch
dispatch-Closed x req w [] c h = refl
dispatch-Closed x req w (r ∷ rs) c h = elim (Bool-cases (matches r.pattern req.path)) [
  | inr e ↦ rw (e, dispatch-Closed x req w rs c.1 h) refl
  | inl e ↦ rw (e, c.0 e, guard_admits_zeros, h) refl
]

-- Outside of the paths `/health`, `/v0/ws` and `/v0/blobs/{id}` a request without a compatible
-- version in its header changes nothing, whatever its method and however its arguments are read:
-- it is answered 426 if the path is one of the router's, and 404 if not.
pub serve_needs_version :
    (x : Extractors) (req : Request) (w : World)
    → is_open req.path ≡ false
    → admitted (header "trust-protocol-version" req.headers) ≡ false
    → serve x req w ≡ (if is_route req.path then unsupported_version else status 404, w)
unfolding serve
serve_needs_version x req w c h = dispatch-Closed x req w routes (routes-Closed req.path c) h
