-- ===== src/Server/Headers.antt =====
-- The header map of a request: names in lower case, and `none` for a value that is not visible
-- ASCII, on which `to_str` fails.
use trust_server.Common.{String, Option, none, some, List, [], ◌∷◌, if◌then◌else◌}
use trust_server.Common.Text.{str_eq, strip_prefix}

abbrev pub Headers : Type 0
Headers = List (String × Option String)

-- `headers.get(name).and_then(|v| v.to_str().ok())`
unfoldable pub header : String → Headers → Option String
header name [] = none
header name ((n, v) ∷ hs) = let rest = header name hs in if str_eq n name then v else rest

abbrev pub and_then {ℓ} : {A B : Type ℓ} → Option A → (A → Option B) → Option B
and_then none f = none
and_then (some a) f = f a

-- the bearer token of a request
unfoldable pub bearer : Headers → Option String
unfolding header strip_prefix
bearer hs = and_then (header "authorization" hs) (strip_prefix "Bearer ")
