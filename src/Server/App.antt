-- ===== src/Server/App.antt =====
-- The version guard and the two small handlers of crates/server/src/app.rs.
pub mod Version
use trust_server.Common.{
  ℕ, String, Bool, true, false, Option, none, some, List, [], ◌∷◌, if◌then◌else◌, is_just, map,
}
use trust_server.Common.Text.{parse_u32}
use trust_server.Exec.{Result, ok, err}
use trust_server.Protocol.{
  Capability, messaging, receipts, typing, presence, media, groups, calls, mls, protocol_version,
}
use trust_server.Protocol.Payload.{Json, json, str, num, arr, array}
use trust_server.Storage.Backend.{Backend, Sql, execute, select}
use trust_server.Server.World.{World, capabilities}
use trust_server.Server.Headers.{Headers, header, and_then}
use trust_server.Server.Response.{Response, reply}

-- the answer to a request without a compatible version
abbrev pub unsupported_version : Response
unsupported_version = reply 426 (
    json (
      ("code", str "UNSUPPORTED_VERSION")
      ∷ (
        "message",
        str "This server speaks Trust protocol v0. Send header 'Trust-Protocol-Version: 0'.",
      )
      ∷ []))

-- `next` is the rest of the service
unfoldable pub require_protocol_version :
    Headers → (World → Response × World) → World → Response × World
unfolding header parse_u32
require_protocol_version headers next w =
    if is_just protocol_version (and_then (header "trust-protocol-version" headers) parse_u32)
    then next w
    else (unsupported_version, w)

-- `SELECT 1`
unfoldable pub ping : Sql (Unit {0})
unfolding execute
ping = execute (select (λ t. tt))

abbrev up_or_down : {E A : Type 0} → Result E A → String
up_or_down (ok a) = "up"
up_or_down (err e) = "down"

unfoldable pub health : World → Json × World
unfolding ping
health w =
    let (r, b) = ping w.backend in
    (
      json (
          ("status", str "ok")
          ∷ ("protocolVersion", num protocol_version)
          ∷ ("db", str (up_or_down r))
          ∷ []),
      record w { backend = b },
    )

-- the name that serde gives a capability
abbrev pub wire_name : Capability → String
wire_name Capability.messaging = "messaging"
wire_name Capability.receipts = "receipts"
wire_name Capability.typing = "typing"
wire_name Capability.presence = "presence"
wire_name Capability.media = "media"
wire_name Capability.groups = "groups"
wire_name Capability.calls = "calls"
wire_name Capability.mls = "mls"

unfoldable pub advertised : Json
advertised = json (
    ("protocolVersion", num protocol_version)
    ∷ ("capabilities", arr (array (map (λ c. str (wire_name c)) capabilities)))
    ∷ [])
