-- ===== src/Storage/Models.antt =====
-- crates/storage/src/models.rs. A UUID is its 128-bit value, whose order is that of its bytes; an
-- instant is counted from the least `OffsetDateTime`; bytes are numbers below 256.
use trust_server.Common.{ℕ, String, Option, List}

abbrev pub Uuid : Type 0
Uuid = ℕ

abbrev pub Time : Type 0
Time = ℕ

abbrev pub Bytes : Type 0
Bytes = List ℕ

pub record Account : Type 0 where
  pub id : Uuid
  pub username : String
  pub password_verifier : String
  pub created_at : Time

pub record Device : Type 0 where
  pub id : Uuid
  pub account_id : Uuid
  pub display_name : String
  pub public_identity : Bytes
  pub created_at : Time
  pub revoked_at : Option Time

pub record Session : Type 0 where
  pub id : Uuid
  pub device_id : Uuid
  pub access_token_hash : Bytes
  pub refresh_token_hash : Bytes
  pub expires_at : Time
  pub revoked_at : Option Time
  pub created_at : Time
