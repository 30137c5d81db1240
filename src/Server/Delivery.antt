-- ===== src/Server/Delivery.antt =====
-- The delivery helpers of crates/server/src/messaging.rs.
pub mod Recipients
pub mod Conversation
use trust_server.Common.{
  ℕ, String, Bool, true, false, not, Option, none, some, List, [], ◌∷◌, is_just, ◌==◌,
  if◌then◌else◌,
}
use trust_server.Exec.{Result, ok, err, pure, gets, attempt, when, for_each, ◌>>=◌, ◌>>◌}
use trust_server.Protocol.{Envelope}
use trust_server.Protocol.Payload.{Json, json, uuid, bool, time, optional}
use trust_server.Storage.Models.{Uuid, Time, Device}
use trust_server.Storage.AuthRepo
use trust_server.Server.Error.{AppError}
use trust_server.Server.Presence.{connected_devices}
use trust_server.Server.World.{World, App, query, auth, now_utc, fresh, publish}
use trust_server.Server.Db.Conversations.{conversation_member_ids}

unfoldable pub envelope : String → Json → App Envelope
envelope type payload = do
  id ← fresh
  ts ← now_utc
  pure (record { v = 0; type = type; id = id; ts = ts; payload = payload })

-- one round of the loop: the sender's own device is passed over
abbrev pub publish_unless : Envelope → Option Uuid → Device → App (Unit {0})
publish_unless env except d = when (not (is_just d.id except)) (publish d.id env)

abbrev pub publish_to : Envelope → Option Uuid → Result AppError (List Device) → App (Unit {0})
publish_to env except (ok devices) = for_each devices (publish_unless env except)
publish_to env except (err e) = pure tt

-- a failed lookup of the devices is passed over in silence
unfoldable pub deliver_to_account : Uuid → Envelope → Option Uuid → App (Unit {0})
unfolding for_each
deliver_to_account account env except = do
  found ← attempt (auth (AuthRepo.list_devices_for_account account))
  publish_to env except found

unfoldable pub broadcast_presence : Uuid → Bool → Option Time → App (Unit {0})
unfolding envelope for_each connected_devices
broadcast_presence account online last_seen = do
  env ← envelope "presence.update" (
      json (
        ("userId", uuid account)
        ∷ ("online", bool online)
        ∷ ("lastSeen", optional time last_seen)
        ∷ []))
  devices ← gets (λ w. connected_devices w.presence)
  for_each devices (λ d. publish d env)

abbrev pub own_device : Uuid → Uuid → Uuid → Option Uuid
own_device actor actor_device m = if m == actor then some actor_device else none

abbrev pub deliver_to_members :
    Envelope → Uuid → Uuid → Result AppError (List Uuid) → App (Unit {0})
deliver_to_members env actor actor_device (ok members) =
    for_each members (λ m. deliver_to_account m env (own_device actor actor_device m))
deliver_to_members env actor actor_device (err e) = pure tt

unfoldable pub deliver_to_conversation : Uuid → Envelope → Uuid → Uuid → App (Unit {0})
unfolding deliver_to_account
deliver_to_conversation cid env actor actor_device = do
  found ← attempt (query (conversation_member_ids cid))
  deliver_to_members env actor actor_device found
