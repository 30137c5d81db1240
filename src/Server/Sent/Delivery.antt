-- ===== src/Server/Sent/Delivery.antt =====
-- From `send_message` (crates/server/src/messaging.rs) over the bus (crates/realtime/src/lib.rs)
-- to the receiver of a device.
use trust_server.Common.{
  ℕ, ◌≤◌, ◌≡◌, refl, ◌∙◌, String, Bool, false, not, ◌&&◌, ==_refl, ◌||◌, Option, none, some, List,
  [], ◌∷◌, ◌++◌, arith, filter, find?, is_just, inl, inr, Bool-cases, ◌==◌, if◌then◌else◌, length,
}
use trust_server.Exec.{ok}
use trust_server.Protocol.{Envelope}
use trust_server.Protocol.Payload.{Json, json, uuid, num, time}
use trust_server.Realtime.{Broadcast, InProcessBus, sender, subscribe_to}
use trust_server.Realtime.Fanout.{events_for, publish_all, subscriber_receives}
use trust_server.Storage.Models.{Uuid, Account, Device}
use trust_server.Storage.AuthRepo.{account_has_name, active_device_of, device_has_id}
use trust_server.Server.World.{World}
use trust_server.Server.Headers.{Headers}
use trust_server.Server.Auth.{authed}
use trust_server.Server.Delivery.Recipients.{notices}
use trust_server.Server.Db.Messages.{MsgRow}
use trust_server.Server.Messaging.{SendReq, send_message, message_json}
use trust_server.Server.Sent.Notices.{sent_notices, send_message_published}

events_for-append :
    (d : Uuid) (xs ys : List (Uuid × Envelope))
    → events_for d (xs ++ ys) ≡ events_for d xs ++ events_for d ys
events_for-append d [] ys = refl
events_for-append d ((k, e) ∷ xs) ys = ground (arith, events_for-append d xs ys)

-- the notices for a device are those of its rows
events_for-notices :
    (d account : Uuid) (env : Envelope) (except : Option Uuid) (ds : List Device)
    → events_for d (notices env except (filter (active_device_of account) ds))
      ≡ events_for d
          (notices env except (filter (active_device_of account) (filter (device_has_id d) ds)))
events_for-notices d account env except [] = refl
events_for-notices d account env except (x ∷ ds) =
    ground (arith, events_for-notices d account env except ds)

module _ (device : Device) (ds : List Device)
    (one : filter (device_has_id device.id) ds ≡ device ∷ []) where
  events_for-device :
      (account : Uuid) (env : Envelope) (except : Option Uuid)
      → events_for device.id (notices env except (filter (active_device_of account) ds)) ≡ (
          if active_device_of account device && not (is_just device.id except)
          then env ∷ []
          else [])
  events_for-device account env except =
      rw (events_for-notices device.id account env except ds, one)
        (ground (arith, ==_refl device.id))

  events_for-sent :
      (target me dev : Uuid) (env : Envelope)
      → (device.id == dev) ≡ false
      → events_for device.id (sent_notices target me dev env ds)
        ≡ (if active_device_of target device || active_device_of me device then env ∷ [] else [])
  events_for-sent target me dev env other = elim (Bool-cases (target == me)) [
    | inl e ↦
        let same : target ≡ me = ground arith in
        rw (e, events_for-device me env (some dev), other, same) (ground arith)
    | inr e ↦
        rw
          (
            e,
            events_for-append device.id,
            events_for-device target env none,
            events_for-device me env (some dev),
            other,
          )
          (ground arith)
  ]

one_at_most : (c : Bool) (env : Envelope) → length (if c then env ∷ [] else []) ≤ 1
one_at_most c env = ground arith

-- With the database in reach, a request to send that returns publishes events of which a device
-- other than the sending one, that has subscribed to the bus, receives exactly one if it is a
-- device of the named account or of the sender that is not revoked, and otherwise none; its type
-- is `message.new`, and it speaks of the message that the answer speaks of.
pub send_message_received :
    (b : Broadcast) (bus : InProcessBus b) (headers : Headers) (req : SendReq) (w w' : World)
    (j : Json) (me dev : Uuid) (target : Account) (device : Device)
    → ((n : ℕ) → w.backend.outside.fault n ≡ false)
    → send_message headers req w ≡ (ok j, w')
    → (authed headers w).0 ≡ ok (me, dev)
    → find? (account_has_name req.to_username) w.backend.tables.accounts ≡ some target
    → filter (device_has_id device.id) w.backend.tables.devices ≡ device ∷ []
    → (device.id == dev) ≡ false
    → 1 ≤ b.capacity (sender b device.id bus)
    → (events : List (Uuid × Envelope)) × (env : Envelope) × (convo : Uuid) × (msg : MsgRow)
      × (text : String) × (reply_to : Option Uuid) × (w'.published ≡ w.published ++ events)
      × (env.type ≡ "message.new")
      × (env.payload ≡ message_json convo msg me dev text reply_to)
      × (j
          ≡ json (
              ("messageId", uuid msg.id)
              ∷ ("seq", num msg.seq)
              ∷ ("serverTs", time msg.server_ts)
              ∷ ("conversationId", uuid convo)
              ∷ []))
      × (let (r, bus') = subscribe_to b device.id bus in
          b.pending r (sender b device.id (publish_all b events bus')) ≡ (
            if active_device_of target.id device || active_device_of me device
            then env ∷ []
            else []))
send_message_received b bus headers req w w' j me dev target device up e who found one other room =
    let (
      me', dev', target', convo, env, msg, text, reply_to, who', found', type, payload, answer,
      published,
    ) =
      send_message_published headers req w w' j up e in
    let m : me' ≡ me = cc in
    let d : dev' ≡ dev = cc in
    let t : target' ≡ target = cc in
    let events = sent_notices target.id me dev env w.backend.tables.devices in
    let received = events_for-sent device w.backend.tables.devices one target.id me dev env other in
    let few = one_at_most (active_device_of target.id device || active_device_of me device) env in
    (
      events,
      env,
      convo,
      msg,
      text,
      reply_to,
      rw (m, d, t) at published,
      type,
      rw (m, d) at payload,
      answer,
      subscriber_receives b device.id events bus (rw received (omega arith)) ∙ received,
    )
