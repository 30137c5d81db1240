-- ===== src/Protocol.antt =====
-- crates/protocol/src/lib.rs: the wire types and the handshake's negotiation.
pub mod Payload
pub mod Rest
pub mod Negotiation
use trust_server.Common.{ℕ, String, Bool, true, false, List, [], ◌∷◌, ◌||◌, filter, ◌==◌, min, any}
use Payload.{Json}

abbrev pub protocol_version : ℕ
protocol_version = 0

pub data Capability : Type 0 where
  messaging receipts typing presence media groups calls mls : Capability

-- the derived `PartialEq`, on the position in the declaration
abbrev position : Capability → ℕ
position messaging = 0
position receipts = 1
position typing = 2
position presence = 3
position media = 4
position groups = 5
position calls = 6
position mls = 7

unfoldable pub same : Capability → Capability → Bool
same a b = position a == position b

-- `client.contains(c)`
abbrev pub contains : List Capability → Capability → Bool
contains client c = any (same c) client

unfoldable pub negotiate_capabilities : List Capability → List Capability → List Capability
negotiate_capabilities server client = filter (contains client) server

unfoldable pub negotiate_version : ℕ → ℕ → ℕ
negotiate_version server client = min server client

pub record Hello : Type 0 where
  pub client : String
  pub v : ℕ
  pub capabilities : List Capability

pub record Limits : Type 0 where
  pub max_upload_bytes : ℕ
  pub max_group_size : ℕ

pub record Welcome : Type 0 where
  pub server : String
  pub v : ℕ
  pub capabilities : List Capability
  pub limits : Limits

pub record Envelope : Type 0 where
  pub v : ℕ
  pub type : String
  pub id : ℕ
  pub ts : ℕ
  pub payload : Json
