-- ===== src/Server/Sent/Notices.antt =====
-- The events that `send_message` of crates/server/src/messaging.rs publishes.
use trust_server.Common.{
  ℕ, suc, ◌≡◌, refl, sym, ap, ◌∙◌, String, false, Option, none, some, List, [], ◌∷◌, ◌++◌, map, inl,
  inr, Bool-cases, Option-cases, find?, filter, ◌==◌, if◌then◌else◌,
}
use mathlib.Core.List.{append_assoc}
use trust_server.Exec.{Result, ok, pure, for_each, ◌>>=◌, ◌>>◌}
use trust_server.Protocol.{Envelope}
use trust_server.Protocol.Payload.{Json, json, uuid, num, time}
use trust_server.Storage.Models.{Uuid, Bytes, Account, Device}
use trust_server.Storage.Backend.{execute}
use trust_server.Storage.AuthRepo
use trust_server.Storage.AuthRepo.{account_has_name, active_device_of}
use trust_server.Server.Error.{AppError}
use trust_server.Server.World.{World, query, outside, after_calls}
use trust_server.Server.Headers.{Headers}
use trust_server.Server.Auth.{authed}
use trust_server.Server.Delivery.{envelope, deliver_to_account}
use trust_server.Server.Delivery.Recipients.{notices, deliver_to_account-notices}
use trust_server.Server.Router.Sessions.{authed-calls}
use trust_server.Server.Db.Conversations.{dm_conversation}
use trust_server.Server.Db.Messages.{MsgRow, store_message}
use trust_server.Server.Db.Media.{record_media}
use trust_server.Server.Messaging.{
  SendReq, send_message, find_target, decode_ciphertext, deliver_message, message_json, parse_id,
  attachment_of, attachments_of,
}
use trust_server.Server.Sent.Quiet.{
  dm_conversation-IsQuiet, store_message-IsQuiet, record_media-IsQuiet,
}
use trust_server.Server.Returns.{bind-ok}
use trust_server.Server.Sent.Calm.{
  Calm-ok, Calm-trans, IsCalm-query, IsCalm-authed, IsCalm-find_target, IsCalm-decode,
  IsCalm-for_each,
}

-- a message reaches the devices of its target, and those of its sender but the sending one
abbrev pub sent_notices : Uuid → Uuid → Uuid → Envelope → List Device → List (Uuid × Envelope)
sent_notices target me dev env devices =
    if target == me
    then notices env (some dev) (filter (active_device_of me) devices)
    else notices env none (filter (active_device_of target) devices)
      ++ notices env (some dev) (filter (active_device_of me) devices)

-- the account's devices, with the database in reach
deliver_up :
    (account : Uuid) (env : Envelope) (except : Option Uuid) (w : World)
    → ((n : ℕ) → w.backend.outside.fault n ≡ false)
    → deliver_to_account account env except w ≡ (
      ok tt,
      record w {
        backend = record w.backend { calls = suc w.backend.calls };
        published =
            w.published
            ++ notices env except (filter (active_device_of account) w.backend.tables.devices);
      },
    )
deliver_up account env except w up =
    deliver_to_account-notices account env except w ∙ rw (up w.backend.calls) refl

deliver_message-notices :
    (target me dev : Uuid) (env : Envelope) (w : World)
    → ((n : ℕ) → w.backend.outside.fault n ≡ false)
    → (k : ℕ) × (deliver_message target me dev env w ≡ (
      ok tt,
      record w {
        backend = record w.backend { calls = k };
        published = w.published ++ sent_notices target me dev env w.backend.tables.devices;
      },
    ))
unfolding deliver_message
deliver_message-notices target me dev env w up = elim (Bool-cases (target == me)) [
  | inl e ↦ rw (e, deliver_up me env (some dev) w up) (suc w.backend.calls, refl)
  | inr e ↦
      let first = deliver_up target env none w up in
      let reached = notices env none (filter (active_device_of target) w.backend.tables.devices) in
      let w1 : World = record w {
        backend = record w.backend { calls = suc w.backend.calls };
        published = w.published ++ reached;
      } in
      rw (e, first, deliver_up me env (some dev) w1 up)
        (suc (suc w.backend.calls), rw append_assoc refl)
]

-- the end of the handler
deliver-published :
    (target me dev : Uuid) (payload answer : Json) (w w' : World) (j : Json)
    → ((n : ℕ) → w.backend.outside.fault n ≡ false)
    → (do env ← envelope "message.new" payload; deliver_message target me dev env; pure answer) w
      ≡ (ok j, w')
    → (env : Envelope) × (env.type ≡ "message.new")
      × (env.payload ≡ payload)
      × (j ≡ answer)
      × (w'.published ≡ w.published ++ sent_notices target me dev env w.backend.tables.devices)
unfolding envelope
deliver-published target me dev payload answer w w' j up e =
    let env : Envelope = record {
      v = 0;
      type = "message.new";
      id = w.backend.outside.random w.backend.calls;
      ts = w.backend.outside.clock (suc w.backend.calls);
      payload = payload;
    } in
    let w2 = after_calls w (suc (suc w.backend.calls)) in
    let (k, d) = deliver_message-notices target me dev env w2 up in
    let given = rw d at e in
    let same : ◌≡◌ {A = Result AppError Json} (ok answer) (ok j) =
      ap (λ (r : Result AppError Json × World). r.0) given in
    (env, refl, refl, cc, sym (ap (λ (r : Result AppError Json × World). r.1.published) given))

-- from the conversation on
stored-published :
    (headers : Headers) (req : SendReq) (me dev target convo : Uuid) (bytes : Bytes) (w w' : World)
    (j : Json)
    → ((n : ℕ) → w.backend.outside.fault n ≡ false)
    → (do
      reply_to ← outside (λ o. parse_id o req.reply_to_message_id)
      msg ← query (store_message convo me dev bytes reply_to)
      atts ← outside (λ o. map (attachment_of o) (attachments_of req))
      for_each atts (λ att. query (record_media convo msg.id me msg.seq att))
      text ← outside (λ o. o.base64_encode bytes)
      env ← envelope "message.new" (message_json convo msg me dev text reply_to)
      deliver_message target me dev env
      pure (
          json (
            ("messageId", uuid msg.id)
            ∷ ("seq", num msg.seq)
            ∷ ("serverTs", time msg.server_ts)
            ∷ ("conversationId", uuid convo)
            ∷ [])))
        w
      ≡ (ok j, w')
    → (env : Envelope) × (msg : MsgRow) × (text : String) × (reply_to : Option Uuid) × (env.type
        ≡ "message.new")
      × (env.payload ≡ message_json convo msg me dev text reply_to)
      × (j
          ≡ json (
              ("messageId", uuid msg.id)
              ∷ ("seq", num msg.seq)
              ∷ ("serverTs", time msg.server_ts)
              ∷ ("conversationId", uuid convo)
              ∷ []))
      × (w'.published ≡ w.published ++ sent_notices target me dev env w.backend.tables.devices)
stored-published headers req me dev target convo bytes w w' j up e =
    let reply_to = parse_id w.backend.outside req.reply_to_message_id in
    let (msg, w1, e1, r1) =
      bind-ok (query (store_message convo me dev bytes reply_to)) _ w j w' e in
    let c1 =
      Calm-ok _ w w1 msg (IsCalm-query _ (store_message-IsQuiet convo me dev bytes reply_to)) e1 in
    let atts = map (attachment_of w1.backend.outside) (attachments_of req) in
    let (done, w2, e2, r2) =
      bind-ok (for_each atts (λ att. query (record_media convo msg.id me msg.seq att))) _ w1 j w'
        r1 in
    let c2 =
      Calm-ok _ w1 w2 done
        (IsCalm-for_each atts _
          λ att. IsCalm-query _ (record_media-IsQuiet convo msg.id me msg.seq att))
        e2 in
    let (p, d, o) = Calm-trans w w1 w2 c1 c2 in
    let text = w2.backend.outside.base64_encode bytes in
    let (env, type, payload, answer, published) =
      deliver-published target me dev (message_json convo msg me dev text reply_to) _ w2 w' j
        (rw o up) r2 in
    (env, msg, text, reply_to, type, payload, answer, rw (p, d) at published)

find_target-found :
    (name : String) (w w' : World) (a : Account)
    → w.backend.outside.fault w.backend.calls ≡ false
    → find_target name w ≡ (ok a, w')
    → find? (account_has_name name) w.backend.tables.accounts ≡ some a
unfolding find_target AuthRepo.find_account_by_username execute
find_target-found name w w' a up e =
    elim (Option-cases (find? (account_has_name name) w.backend.tables.accounts)) [
      | inl f ↦ let bad = rw (up, f) at e in cc
      | inr (b, f) ↦
          let given = rw (up, f) at e in
          let same : b ≡ a = cc in f ∙ ap (λ (x : Account). some x) same
    ]

-- With the database in reach, a request to send that returns has published one event of the type
-- `message.new` and no other: to every device of the named account that is not revoked, and to
-- those of the sender but the sending one; in a chat with oneself only to the latter. The event
-- and the answer speak of one message, with its id, number, time and conversation.
pub send_message_published :
    (headers : Headers) (req : SendReq) (w w' : World) (j : Json)
    → ((n : ℕ) → w.backend.outside.fault n ≡ false)
    → send_message headers req w ≡ (ok j, w')
    → (me dev : Uuid) × (target : Account) × (convo : Uuid) × (env : Envelope) × (msg : MsgRow)
      × (text : String) × (reply_to : Option Uuid) × ((authed headers w).0 ≡ ok (me, dev))
      × (find? (account_has_name req.to_username) w.backend.tables.accounts ≡ some target)
      × (env.type ≡ "message.new")
      × (env.payload ≡ message_json convo msg me dev text reply_to)
      × (j
          ≡ json (
              ("messageId", uuid msg.id)
              ∷ ("seq", num msg.seq)
              ∷ ("serverTs", time msg.server_ts)
              ∷ ("conversationId", uuid convo)
              ∷ []))
      × (w'.published ≡ w.published ++ sent_notices target.id me dev env w.backend.tables.devices)
unfolding send_message
send_message_published headers req w w' j up e =
    let (who, w1, e1, r1) = bind-ok (authed headers) _ w j w' e in
    let me = who.0 in
    let dev = who.1 in
    let c1 = Calm-ok (authed headers) w w1 who (IsCalm-authed headers) e1 in
    let (target, w2, e2, r2) = bind-ok (find_target req.to_username) _ w1 j w' r1 in
    let c2 = Calm-ok _ w1 w2 target (IsCalm-find_target req.to_username) e2 in
    let (bytes, w3, e3, r3) = bind-ok (decode_ciphertext req.ciphertext) _ w2 j w' r2 in
    let c3 = Calm-ok _ w2 w3 bytes (IsCalm-decode req.ciphertext) e3 in
    let (convo, w4, e4, r4) = bind-ok (query (dm_conversation me target.id)) _ w3 j w' r3 in
    let c4 = Calm-ok _ w3 w4 convo (IsCalm-query _ (dm_conversation-IsQuiet me target.id)) e4 in
    let (p, d, o) = Calm-trans w w2 w4 (Calm-trans w w1 w2 c1 c2) (Calm-trans w2 w3 w4 c3 c4) in
    let (env, msg, text, reply_to, type, payload, answer, published) =
      stored-published headers req me dev target.id convo bytes w4 w' j (rw o up) r4 in
    let (k, same) = authed-calls headers w in
    let there : w1 ≡ after_calls w k =
      sym (ap (λ (r : Result AppError (Uuid × Uuid) × World). r.1) e1) ∙ same in
    let reached : (n : ℕ) → w1.backend.outside.fault n ≡ false = rw c1.2 up in
    let found =
      rw there at (find_target-found req.to_username w1 w2 target (reached w1.backend.calls) e2) in
    (
      me,
      dev,
      target,
      convo,
      env,
      msg,
      text,
      reply_to,
      ap (λ (r : Result AppError (Uuid × Uuid) × World). r.0) e1,
      found,
      type,
      payload,
      answer,
      rw (p, d) at published,
    )
