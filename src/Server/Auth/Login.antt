-- ===== src/Server/Auth/Login.antt =====
-- Registration and the logins after it (`register` and `login` of crates/server/src/auth.rs).
use trust_server.Common.{
  find?-any, ℕ, suc, ◌≡◌, refl, sym, ◌∙◌, String, true, false, none, some, [], ◌∷◌, ◌++◌, arith,
  any, find?, any-append, Bool-cases, inl, inr, ==_refl, unwrap_or, if◌then◌else◌,
}
use trust_server.Exec.{ok, err}
use trust_server.Protocol.Rest.{RegisterRequest, LoginRequest, AuthSession}
use trust_server.Storage.Models.{Bytes, Account, Device}
use trust_server.Storage.AuthRepo
use trust_server.Storage.AuthRepo.{
  account_has_id, account_has_name, device_has_id, session_has_id, has_access, has_refresh,
}
use trust_server.Storage.Backend.{execute}
use trust_server.Server.Error.{unauthorized}
use trust_server.Server.World.{World, after_calls}
use trust_server.Server.Auth.Register.{account_row, register-IsRegistered}
use trust_server.Server.Auth.Issue.{draws_new, issue_session-returns}
use trust_server.Server.Auth.{register, login, decode_identity, verify_password}

module _ (req : LoginRequest) (w : World) (a : Account) (bytes : Bytes) where
  abbrev new_device : Device
  new_device = record {
    id = w.backend.outside.random (suc w.backend.calls);
    account_id = a.id;
    display_name = req.device.display_name;
    public_identity = bytes;
    created_at = w.backend.outside.clock (suc (suc w.backend.calls));
    revoked_at = none;
  }

  -- where a login issues its session
  abbrev pub with_device : World
  with_device = record w {
    backend = record w.backend {
      calls = suc (suc (suc w.backend.calls));
      tables = record w.backend.tables { devices = w.backend.tables.devices ++ new_device ∷ [] };
    };
  }

  device_exists :
      any (device_has_id new_device.id) (w.backend.tables.devices ++ new_device ∷ []) ≡ true
  device_exists =
      ground
        (arith, any-append (device_has_id new_device.id) w.backend.tables.devices (new_device ∷ []))

  login-checks :
      ((n : ℕ) → w.backend.outside.fault n ≡ false)
      → w.backend.outside.base64_decode req.device.public_identity ≡ some bytes
      → find? (account_has_name req.username) w.backend.tables.accounts ≡ some a
      → any (device_has_id new_device.id) w.backend.tables.devices ≡ false
      → draws_new with_device ≡ true
      → (t : AuthSession) × (t.account_id ≡ a.id)
        × ((login req w).0 ≡ (
            if unwrap_or (w.backend.outside.argon2_verify a.password_verifier req.password) false
            then ok t
            else err (unauthorized "invalid credentials")))
  unfolding login decode_identity verify_password AuthRepo.find_account_by_username
      AuthRepo.create_device execute
  login-checks up d f n c =
      let (tokens, i) = issue_session-returns new_device.id with_device (up _) c device_exists in
      (
        record { account_id = a.id; device_id = new_device.id; tokens = tokens },
        refl,
        elim (Bool-cases
            (unwrap_or (w.backend.outside.argon2_verify a.password_verifier req.password) false)) [
              | inl v ↦
                  rw
                    (
                      d,
                      up w.backend.calls,
                      f,
                      v,
                      up (suc (suc w.backend.calls)),
                      n,
                      find?-any (account_has_name req.username) (account_has_id a.id) a
                          w.backend.tables.accounts f (==_refl a.id),
                      i,
                    )
                    refl
              | inr v ↦ rw (d, up w.backend.calls, f, v) refl
            ],
      )

-- After a registration that was accepted, a login under the same name is decided by argon2 alone, on
-- the verifier that the registration made and the password of the login: if it accepts, the login
-- returns a session of the registered account, and if not, the error "invalid credentials". The
-- database is in reach, the identity of the device is base64, and the ids and hashes that the login
-- draws are not those of rows.
pub register-login :
    (req : RegisterRequest) (again : LoginRequest) (w : World) (s : AuthSession) (bytes : Bytes)
    → ((n : ℕ) → w.backend.outside.fault n ≡ false)
    → (register req w).0 ≡ ok (201, s)
    → let after = (register req w).1 in
      again.username ≡ req.username
      → w.backend.outside.base64_decode again.device.public_identity ≡ some bytes
      → any
          (device_has_id (w.backend.outside.random (suc after.backend.calls)))
          after.backend.tables.devices
        ≡ false
      → draws_new (after_calls after (suc (suc (suc after.backend.calls)))) ≡ true
      → (verifier : String) × (t : AuthSession) × (w.backend.outside.argon2_hash
            (w.backend.outside.random w.backend.calls)
            req.password
          ≡ ok verifier)
        × ((login again after).0 ≡ (
            if unwrap_or (w.backend.outside.argon2_verify verifier again.password) false
            then ok t
            else err (unauthorized "invalid credentials")))
        × (t.account_id ≡ s.account_id)
register-login req again w s bytes up e same d n c =
    let (verifier, r) = register-IsRegistered req w s up e in
    let row = account_row req verifier w in
    let after = (register req w).1 in
    let (t, own, l) =
      login-checks again after row bytes (rw r.outside up) (rw r.outside d) (rw same r.found)
        (rw (new_device, r.outside) n) c in
    (verifier, t, r.verifies, rw r.outside at l, own ∙ sym r.account_id)
