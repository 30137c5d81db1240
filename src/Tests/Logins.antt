-- ===== src/Tests/Logins.antt =====
-- Registration, login and the router, on a small database.
use trust_server.Common.{
  ℕ, suc, ◌≡◌, refl, String, true, false, List, [], ◌∷◌, ltb, bytes_eq, unwrap_or, if◌then◌else◌,
  any,
}
use trust_server.Common.Text.{str_eq, is_blank}
use trust_server.Exec.{ok, err}
use trust_server.Protocol.Rest.{RegisterRequest, LoginRequest, AuthSession}
use trust_server.Storage.Backend.{execute}
use trust_server.Storage.AuthRepo
use trust_server.Storage.AuthRepo.{device_has_id}
use trust_server.Server.Error.{unauthorized}
use trust_server.Server.Presence as Presence
use trust_server.Server.World.{World, after_calls}
use trust_server.Server.Auth.{
  register, login, decode_identity, hash_password, issue_session, new_token,
}
use trust_server.Server.Auth.Login.{register-login}
use trust_server.Server.Auth.Issue.{draws_new}
use trust_server.Tests.Sample.{backend, outside}

-- tokens and hashes that differ from one session to the next
abbrev token : ℕ → String
token bits = if ltb bits 1012 then "x" else "y"

abbrev hash : String → List ℕ
hash s =
    if str_eq s "tka_x"
    then 3 ∷ []
    else if str_eq s "tkr_x"
    then 4 ∷ []
    else if str_eq s "tka_y"
    then 5 ∷ []
    else 6 ∷ []

abbrev world : World
world = record {
  backend = record backend { outside = record outside { sha256 = hash; base64_url = token } };
  presence = Presence.new;
  published = [];
}

abbrev carol : RegisterRequest
carol = record {
  username = "carol";
  password = "long enough";
  device = record { display_name = "laptop"; public_identity = "AA==" };
}

abbrev again : LoginRequest
again = record {
  username = "carol";
  password = "long enough";
  device = record { display_name = "tablet"; public_identity = "AA==" };
}

abbrev session : AuthSession
session = record {
  account_id = 1001;
  device_id = 1003;
  tokens = record { access_token = "tka_x"; refresh_token = "tkr_x"; expires_in = 3600 };
}

register-runs : (register carol world).0 ≡ ok (201, session)
unfolding register decode_identity hash_password AuthRepo.create_account AuthRepo.create_device
    issue_session new_token AuthRepo.create_session execute is_blank bytes_eq
register-runs = refl

device_new :
    any
      (device_has_id (world.backend.outside.random (suc (register carol world).1.backend.calls)))
      (register carol world).1.backend.tables.devices
    ≡ false
unfolding register decode_identity hash_password AuthRepo.create_account AuthRepo.create_device
    issue_session new_token AuthRepo.create_session execute is_blank bytes_eq
device_new = refl

session_new :
    let after = (register carol world).1 in
    draws_new (after_calls after (suc (suc (suc after.backend.calls)))) ≡ true
unfolding register decode_identity hash_password AuthRepo.create_account AuthRepo.create_device
    issue_session new_token AuthRepo.create_session execute is_blank bytes_eq
session_new = refl

register-login_example :
    (verifier : String) × (t : AuthSession) × (world.backend.outside.argon2_hash
        (world.backend.outside.random 0)
        "long enough"
      ≡ ok verifier)
    × ((login again (register carol world).1).0 ≡ (
        if unwrap_or (world.backend.outside.argon2_verify verifier "long enough") false
        then ok t
        else err (unauthorized "invalid credentials")))
    × (t.account_id ≡ 1001)
register-login_example =
    register-login carol again world session [] (λ n. refl) register-runs refl refl device_new
      session_new
