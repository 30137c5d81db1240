-- ===== src/Tests/Sending.antt =====
-- A message from request to events, on a small database.
use trust_server.Common.{
  ℕ, ◌≡◌, ◌≤◌, arith, refl, String, Option, none, some, List, [], ◌∷◌, ◌++◌, map, bytes_eq, find?,
  if◌then◌else◌,
}
use trust_server.Common.Text.{str_eq, strip_prefix}
use trust_server.Exec.{ok, for_each}
use trust_server.Protocol.{Envelope}
use trust_server.Protocol.Payload.{Json, json, uuid, num, time}
use trust_server.Storage.Models.{Uuid, Account, Device}
use trust_server.Storage.AuthRepo
use trust_server.Storage.AuthRepo.{account_has_name}
use trust_server.Storage.Backend.{execute, new_uuid}
use trust_server.Server.World.{World}
use trust_server.Server.World
use trust_server.Server.Headers.{Headers, bearer, header}
use trust_server.Server.Auth.{authed, authed_device, device_of_token, account_of_device}
use trust_server.Server.Db.Messages.{MsgRow, store_message}
use trust_server.Server.Db.Conversations.{dm_conversation, pair_conversation}
use trust_server.Server.Delivery.{envelope, deliver_to_account}
use trust_server.Server.Messaging.{
  SendReq, send_message, find_target, attachments_of, deliver_message, message_json,
}
use trust_server.Server.Sent.Notices.{sent_notices, send_message_published}
use trust_server.Realtime.{sender, subscribe_to}
use trust_server.Realtime.Fanout.{publish_all}
use trust_server.Server.Sent.Delivery.{send_message_received}
use trust_server.Tests.Fanout.{queues_broadcast, bus}
use trust_server.Tests.Sample.{bob, backend, outside, tables, phone}

abbrev hash : String → List ℕ
hash s = if str_eq s "tka_1" then 1 ∷ [] else 3 ∷ []

-- Alice has a phone and a desktop, Bob a tablet.
abbrev device : Uuid → Uuid → Device
device id account = record phone { id = id; account_id = account }

abbrev world : World
world = World.new (record backend {
  outside = record outside { sha256 = hash };
  tables = record tables { devices = phone ∷ device 12 1 ∷ device 22 2 ∷ [] };
})

abbrev headers : Headers
headers = ("authorization", some "Bearer tka_1") ∷ []

abbrev request : SendReq
request = record {
  to_username = "bob";
  ciphertext = "AA==";
  attachment = none;
  attachments = none;
  reply_to_message_id = none;
}

abbrev answer : Json
answer = json (
    ("messageId", uuid 1005)
    ∷ ("seq", num 3)
    ∷ ("serverTs", time 6)
    ∷ ("conversationId", uuid 100)
    ∷ [])

send-runs : send_message headers request world ≡ (ok answer, (send_message headers request world).1)
unfolding send_message authed authed_device device_of_token account_of_device bearer header
    strip_prefix AuthRepo.find_live_session_by_access_hash AuthRepo.find_device_by_id find_target
    AuthRepo.find_account_by_username dm_conversation pair_conversation store_message attachments_of
    for_each envelope deliver_message deliver_to_account AuthRepo.list_devices_for_account execute
    new_uuid bytes_eq
send-runs = refl

-- Bob's tablet, and Alice's desktop but not the phone that sends
send-notices : map (λ n. n.0) (send_message headers request world).1.published ≡ 22 ∷ 12 ∷ []
unfolding send_message authed authed_device device_of_token account_of_device bearer header
    strip_prefix AuthRepo.find_live_session_by_access_hash AuthRepo.find_device_by_id find_target
    AuthRepo.find_account_by_username dm_conversation pair_conversation store_message attachments_of
    for_each envelope deliver_message deliver_to_account AuthRepo.list_devices_for_account execute
    new_uuid bytes_eq
send-notices = refl

send_message_published_example :
    let w' = (send_message headers request world).1 in
    (me dev : Uuid) × (target : Account) × (convo : Uuid) × (env : Envelope) × (msg : MsgRow)
    × (text : String) × (reply_to : Option Uuid) × ((authed headers world).0 ≡ ok (me, dev))
    × (find? (account_has_name "bob") world.backend.tables.accounts ≡ some target)
    × (env.type ≡ "message.new")
    × (env.payload ≡ message_json convo msg me dev text reply_to)
    × (answer
        ≡ json (
            ("messageId", uuid msg.id)
            ∷ ("seq", num msg.seq)
            ∷ ("serverTs", time msg.server_ts)
            ∷ ("conversationId", uuid convo)
            ∷ []))
    × (w'.published ≡ [] ++ sent_notices target.id me dev env world.backend.tables.devices)
send_message_published_example =
    send_message_published headers request world (send_message headers request world).1 answer
      (λ n. refl) send-runs

alice-authed : (authed headers world).0 ≡ ok (1, 11)
unfolding authed authed_device device_of_token account_of_device bearer header strip_prefix
    AuthRepo.find_live_session_by_access_hash AuthRepo.find_device_by_id execute bytes_eq
alice-authed = refl

tablet_room : 1 ≤ queues_broadcast.capacity (sender queues_broadcast 22 bus)
unfolding sender
tablet_room = ground arith

-- Bob's tablet receives the message
send_message_received_example :
    let w' = (send_message headers request world).1 in
    let b = queues_broadcast in
    (events : List (Uuid × Envelope)) × (env : Envelope) × (convo : Uuid) × (msg : MsgRow)
    × (text : String) × (reply_to : Option Uuid) × (w'.published ≡ [] ++ events)
    × (env.type ≡ "message.new")
    × (env.payload ≡ message_json convo msg 1 11 text reply_to)
    × (answer
        ≡ json (
            ("messageId", uuid msg.id)
            ∷ ("seq", num msg.seq)
            ∷ ("serverTs", time msg.server_ts)
            ∷ ("conversationId", uuid convo)
            ∷ []))
    × (let (r, bus') = subscribe_to b 22 bus in
        b.pending r (sender b 22 (publish_all b events bus')) ≡ env ∷ [])
send_message_received_example =
    send_message_received queues_broadcast bus headers request world
      (send_message headers request world).1 answer 1 11 bob (device 22 2) (λ n. refl) send-runs
      alice-authed refl refl refl tablet_room
