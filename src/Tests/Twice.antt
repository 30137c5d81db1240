-- ===== src/Tests/Twice.antt =====
-- Two interleaved calls of `refresh`, on the sample database.
use trust_server.Common.{ℕ, ◌≡◌, refl, String, List, [], ◌∷◌, ltb, bytes_eq, if◌then◌else◌}
use trust_server.Common.Text.{str_eq}
use trust_server.Exec.{ok, err}
use trust_server.Protocol.Rest.{TokenPair}
use trust_server.Server.Error.{unauthorized}
use trust_server.Server.Presence as Presence
use trust_server.Server.World.{World}
use trust_server.Server.Auth.{refresh, authed_from_token}
use trust_server.Server.Auth.Twice.{interleaved}
use trust_server.Server.Auth.Twice.Outcome.{refresh_twice}
use trust_server.Tests.Sample.{backend, outside, session}

-- the bits of the first rotation are drawn before call 4
abbrev token : ℕ → String
token bits = if ltb bits 1004 then "x" else "y"

abbrev hash : String → List ℕ
hash s =
    if str_eq s "tka_x"
    then 3 ∷ []
    else if str_eq s "tkr_x"
    then 4 ∷ []
    else if str_eq s "tka_y"
    then 5 ∷ []
    else if str_eq s "tkr_y"
    then 6 ∷ []
    else 2 ∷ []

abbrev world : World
world = record {
  backend = record backend { outside = record outside { sha256 = hash; base64_url = token } };
  presence = Presence.new;
  published = [];
}

abbrev pair : String → String → TokenPair
pair a r = record { access_token = a; refresh_token = r; expires_in = 3600 }

refresh_twice_example :
    let (r, after) = interleaved "tkr_1" world in
    (r ≡ ok (pair "tka_x" "tkr_x", pair "tka_y" "tkr_y"))
    × ((authed_from_token "tka_x" after).0 ≡ err (unauthorized "invalid token"))
    × ((refresh (record { refresh_token = "tkr_x" }) after).0
        ≡ err (unauthorized "invalid refresh token"))
unfolding bytes_eq
refresh_twice_example = refresh_twice "tkr_1" world session (λ n. refl) refl refl refl refl refl
