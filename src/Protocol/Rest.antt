-- ===== src/Protocol/Rest.antt =====
-- crates/protocol/src/rest.rs: the bodies of the auth requests and responses.
use trust_server.Common.{ℕ, String, [], ◌∷◌}
use trust_server.Protocol.Payload.{Json, json, str, num, uuid}

pub record DeviceRegistration : Type 0 where
  pub display_name : String
  pub public_identity : String

pub record RegisterRequest : Type 0 where
  pub username : String
  pub password : String
  pub device : DeviceRegistration

pub record LoginRequest : Type 0 where
  pub username : String
  pub password : String
  pub device : DeviceRegistration

pub record RefreshRequest : Type 0 where
  pub refresh_token : String

pub record TokenPair : Type 0 where
  pub access_token : String
  pub refresh_token : String
  pub expires_in : ℕ

pub record AuthSession : Type 0 where
  pub account_id : ℕ
  pub device_id : ℕ
  pub tokens : TokenPair

-- the derived `Serialize`, with the names in camelCase
abbrev pub token_pair_json : TokenPair → Json
token_pair_json t = json (
    ("accessToken", str t.access_token)
    ∷ ("refreshToken", str t.refresh_token)
    ∷ ("expiresIn", num t.expires_in)
    ∷ [])

abbrev pub auth_session_json : AuthSession → Json
auth_session_json s = json (
    ("accountId", uuid s.account_id)
    ∷ ("deviceId", uuid s.device_id)
    ∷ ("tokens", token_pair_json s.tokens)
    ∷ [])
