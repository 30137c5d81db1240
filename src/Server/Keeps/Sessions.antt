-- ===== src/Server/Keeps/Sessions.antt =====
-- What the handlers of crates/server/src/auth.rs keep.
use trust_server.Common.{String, Option, none, some}
use trust_server.Exec.{Result, ok, err}
use trust_server.Protocol.Rest.{RegisterRequest, LoginRequest, RefreshRequest}
use trust_server.Storage.Models.{Uuid, Session}
use trust_server.Storage.Tables.{Tables}
use trust_server.Server.Error.{AppError}
use trust_server.Server.World.{App}
use trust_server.Server.Headers.{Headers}
use trust_server.Server.Keeps.{Keeps, keeps_rules}
use trust_server.Server.Keeps.Queries.{IsStable, keeps_reads}
use trust_server.Server.Auth as Auth
use trust_server.Server.Auth.{mapping_error, revoke_found, hashed}

module _ {P : Tables → Type 0} where
  pub new_token-Keeps : (prefix : String) → Keeps P (Auth.new_token prefix)
  unfolding Auth.new_token
  new_token-Keeps prefix = search keeps_rules

  pub device_of_token-Keeps :
      (message token : String) → Keeps P (Auth.device_of_token message token)
  unfolding Auth.device_of_token
  device_of_token-Keeps message token = search (keeps_rules, keeps_reads)

  pub account_of_device-Keeps : (d : Uuid) → Keeps P (Auth.account_of_device d)
  unfolding Auth.account_of_device
  account_of_device-Keeps d = search (keeps_rules, keeps_reads)

  pub authed-Keeps : (headers : Headers) → Keeps P (Auth.authed headers)
  unfolding Auth.authed Auth.authed_device
  authed-Keeps headers = search (keeps_rules, device_of_token-Keeps, account_of_device-Keeps)

  hashed-Keeps : (r : Result String String) → Keeps P (hashed r)
  hashed-Keeps (ok h) = search keeps_rules
  hashed-Keeps (err e) = search keeps_rules

  hash_password-Keeps : (password : String) → Keeps P (Auth.hash_password password)
  unfolding Auth.hash_password
  hash_password-Keeps password = search (keeps_rules, hashed-Keeps)

  decode_identity-Keeps : (text : String) → Keeps P (Auth.decode_identity text)
  unfolding Auth.decode_identity
  decode_identity-Keeps text = search keeps_rules

  mapping_error-Keeps :
      {A : Type 0} (f : AppError → AppError) (m : App A) → Keeps P m → Keeps P (mapping_error f m)
  mapping_error-Keeps f m k = record { at = k.at }

  pub authed_from_token-Keeps : (token : String) → Keeps P (Auth.authed_from_token token)
  unfolding Auth.authed_from_token
  authed_from_token-Keeps token =
      search (keeps_rules, device_of_token-Keeps, account_of_device-Keeps)

module _ {P : Tables → Type 0} (S : IsStable P) where
  issue_session-Keeps : (d : Uuid) → Keeps P (Auth.issue_session d)
  unfolding Auth.issue_session
  issue_session-Keeps d = search (keeps_rules, new_token-Keeps, S.create_session) depth 20

  pub register-Keeps : (req : RegisterRequest) → Keeps P (Auth.register req)
  unfolding Auth.register
  register-Keeps req =
      search
        (
          keeps_rules, decode_identity-Keeps, hash_password-Keeps, mapping_error-Keeps,
          S.create_account, S.create_device, issue_session-Keeps,
        )
        depth 30

  pub login-Keeps : (req : LoginRequest) → Keeps P (Auth.login req)
  unfolding Auth.login
  login-Keeps req =
      search (keeps_rules, keeps_reads, decode_identity-Keeps, S.create_device, issue_session-Keeps)
        depth 30

  pub refresh-Keeps : (req : RefreshRequest) → Keeps P (Auth.refresh req)
  unfolding Auth.refresh
  refresh-Keeps req = search (keeps_rules, keeps_reads, new_token-Keeps, S.rotate_session) depth 30

  revoke_found-Keeps : (o : Option Session) → Keeps P (revoke_found o)
  revoke_found-Keeps none = search keeps_rules
  revoke_found-Keeps (some s) = search (keeps_rules, S.revoke_session)

  pub logout-Keeps : (headers : Headers) → Keeps P (Auth.logout headers)
  unfolding Auth.logout
  logout-Keeps headers = search (keeps_rules, keeps_reads, revoke_found-Keeps) depth 20
