-- ===== src/Server/Auth.antt =====
-- crates/server/src/auth.rs: registration, sessions and the check of bearer tokens.
pub mod Sessions
pub mod Refresh
pub mod Twice
pub mod Issue
pub mod Register
pub mod Login
use Prim.Native.String.{◌++◌}
use trust_server.Common.{
  ℕ, ◌+◌, ◌*◌, ◌^◌, String, Bool, true, false, not, ◌||◌, Option, none, some, ltb, if◌then◌else◌,
  unwrap_or,
}
use trust_server.Common.Text.{is_blank, byte_len}
use trust_server.Exec.{Result, ok, err, pure, raise, ok_or, raise_if, ◌>>=◌, ◌>>◌, map_err}
use trust_server.Protocol.Rest.{
  DeviceRegistration, RegisterRequest, LoginRequest, RefreshRequest, TokenPair, AuthSession,
}
use trust_server.Storage.Models.{Uuid, Time, Bytes, Account, Device, Session}
use trust_server.Storage.Outside.{Outside}
use trust_server.Storage.AuthRepo
use trust_server.Server.Error.{AppError, bad_request, unauthorized, internal}
use trust_server.Server.World.{World, App, auth, outside, now_utc, fresh}
use trust_server.Server.Headers.{Headers, bearer}

-- one hour, in the nanoseconds that an instant counts
abbrev pub nanos : ℕ
nanos = 10 ^ 9

abbrev pub access_ttl_seconds : ℕ
access_ttl_seconds = 3600

abbrev pub access_ttl : ℕ
access_ttl = access_ttl_seconds * nanos

unfoldable pub new_token : String → App String
new_token prefix = do bits ← fresh; outside (λ o. prefix ++ o.base64_url bits)

abbrev pub hash_token : String → App Bytes
hash_token token = outside (λ o. o.sha256 token)

abbrev pub hashed : Result String String → App String
hashed (ok h) = pure h
hashed (err e) = raise (internal ("password hashing: " ++ e))

unfoldable pub hash_password : String → App String
hash_password password = do salt ← fresh; r ← outside (λ o. o.argon2_hash salt password); hashed r

-- a verifier that does not parse accepts no password
unfoldable pub verify_password : String → String → App Bool
verify_password verifier password =
    outside (λ o. unwrap_or (o.argon2_verify verifier password) false)

unfoldable pub issue_session : Uuid → App TokenPair
unfolding new_token
issue_session device_id = do
  access ← new_token "tka_"
  refresh ← new_token "tkr_"
  now ← now_utc
  session_id ← fresh
  access_hash ← hash_token access
  refresh_hash ← hash_token refresh
  auth (AuthRepo.create_session session_id device_id access_hash refresh_hash (now + access_ttl))
  pure (record { access_token = access; refresh_token = refresh; expires_in = access_ttl_seconds })

unfoldable pub decode_identity : String → App Bytes
decode_identity b64 = do
  bytes ← outside (λ o. o.base64_decode b64)
  ok_or bytes (bad_request "publicIdentity must be valid base64")

-- the session's device, or the error with the given text
unfoldable pub device_of_token : String → String → App Uuid
device_of_token message token = do
  hash ← hash_token token
  found ← auth (AuthRepo.find_live_session_by_access_hash hash)
  session ← ok_or found (unauthorized message)
  pure session.device_id

unfoldable pub authed_device : Headers → App Uuid
unfolding device_of_token
authed_device headers = do
  token ← ok_or (bearer headers) (unauthorized "missing bearer token")
  device_of_token "invalid or expired token" token

unfoldable pub account_of_device : Uuid → App (Uuid × Uuid)
account_of_device device_id = do
  found ← auth (AuthRepo.find_device_by_id device_id)
  device ← ok_or found (unauthorized "device not found")
  pure (device.account_id, device_id)

unfoldable pub authed : Headers → App (Uuid × Uuid)
unfolding authed_device account_of_device
authed headers = do device_id ← authed_device headers; account_of_device device_id

unfoldable pub authed_from_token : String → App (Uuid × Uuid)
unfolding device_of_token account_of_device
authed_from_token token = do
  device_id ← device_of_token "invalid token" token
  account_of_device device_id

-- `map_err` on the creation of the account
abbrev pub username_taken : AppError → AppError
username_taken (AppError.conflict m) = AppError.conflict "username is taken"
username_taken e = e

abbrev pub mapping_error : {A : Type 0} → (AppError → AppError) → App A → App A
mapping_error f m w = let (r, w') = m w in (map_err f r, w')

unfoldable pub register : RegisterRequest → App (ℕ × AuthSession)
unfolding decode_identity hash_password issue_session
register req = do
  raise_if (is_blank req.username || ltb (byte_len req.password) 8)
      (bad_request "username required and password must be at least 8 characters")
  identity ← decode_identity req.device.public_identity
  verifier ← hash_password req.password
  account_id ← fresh
  mapping_error username_taken (auth (AuthRepo.create_account account_id req.username verifier))
  device_id ← fresh
  auth (AuthRepo.create_device device_id account_id req.device.display_name identity)
  tokens ← issue_session device_id
  pure (201, record { account_id = account_id; device_id = device_id; tokens = tokens })

unfoldable pub login : LoginRequest → App AuthSession
unfolding decode_identity verify_password issue_session
login req = do
  identity ← decode_identity req.device.public_identity
  found ← auth (AuthRepo.find_account_by_username req.username)
  account ← ok_or found (unauthorized "invalid credentials")
  valid ← verify_password account.password_verifier req.password
  raise_if (not valid) (unauthorized "invalid credentials")
  device_id ← fresh
  auth (AuthRepo.create_device device_id account.id req.device.display_name identity)
  tokens ← issue_session device_id
  pure (record { account_id = account.id; device_id = device_id; tokens = tokens })

unfoldable pub refresh : RefreshRequest → App TokenPair
unfolding new_token
refresh req = do
  hash ← hash_token req.refresh_token
  found ← auth (AuthRepo.find_live_session_by_refresh_hash hash)
  session ← ok_or found (unauthorized "invalid refresh token")
  access ← new_token "tka_"
  refresh_token ← new_token "tkr_"
  now ← now_utc
  access_hash ← hash_token access
  refresh_hash ← hash_token refresh_token
  auth (AuthRepo.rotate_session session.id access_hash refresh_hash (now + access_ttl))
  pure (record {
    access_token = access;
    refresh_token = refresh_token;
    expires_in = access_ttl_seconds;
  })

abbrev pub revoke_found : Option Session → App (Unit {0})
revoke_found none = pure tt
revoke_found (some session) = auth (AuthRepo.revoke_session session.id)

unfoldable pub logout : Headers → App ℕ
logout headers = do
  token ← ok_or (bearer headers) (unauthorized "missing bearer token")
  hash ← hash_token token
  found ← auth (AuthRepo.find_live_session_by_access_hash hash)
  revoke_found found
  pure 204
