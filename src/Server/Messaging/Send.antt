-- ===== src/Server/Messaging/Send.antt =====
-- `send_message` of crates/server/src/messaging.rs and what it shares with the other handlers.
use trust_server.Common.{
  String, Option, none, some, List, [], ◌∷◌, map, ◌==◌, unwrap_or, if◌then◌else◌,
}
use trust_server.Common.Int.{ℤ}
use trust_server.Exec.{pure, ok_or, for_each, ◌>>=◌, ◌>>◌}
use trust_server.Protocol.{Envelope}
use trust_server.Protocol.Payload.{Json, json, str, uuid, num, time, optional}
use trust_server.Storage.Models.{Uuid, Bytes, Account}
use trust_server.Storage.Outside.{Outside}
use trust_server.Storage.AuthRepo
use trust_server.Server.Error.{bad_request, not_found}
use trust_server.Server.World.{App, query, auth, outside}
use trust_server.Server.Headers.{Headers, and_then}
use trust_server.Server.Auth.{authed}
use trust_server.Server.Delivery.{envelope, deliver_to_account}
use trust_server.Server.Db.Conversations.{dm_conversation}
use trust_server.Server.Db.Messages.{MsgRow}
use trust_server.Server.Db.Messages
use trust_server.Server.Db.Media.{Attachment, record_media}

-- `AttachmentMeta` of crates/server/src/media.rs
pub record AttachmentMeta : Type 0 where
  pub kind : String
  pub blob_id : Option String
  pub thumb_blob_id : Option String
  pub mime : Option String
  pub name : Option String
  pub url : Option String
  pub size : Option ℤ
  pub width : Option ℤ
  pub height : Option ℤ

pub record SendReq : Type 0 where
  pub to_username : String
  pub ciphertext : String
  pub attachment : Option AttachmentMeta
  pub attachments : Option (List AttachmentMeta)
  pub reply_to_message_id : Option String

unfoldable pub find_target : String → App Account
find_target username = do
  found ← auth (AuthRepo.find_account_by_username username)
  ok_or found (not_found "user not found")

abbrev pub decode_ciphertext : String → App Bytes
decode_ciphertext text = do
  bytes ← outside (λ o. o.base64_decode text)
  ok_or bytes (bad_request "ciphertext must be base64")

-- an id that does not parse counts as absent
abbrev pub parse_id : Outside → Option String → Option Uuid
parse_id o text = and_then text o.parse_uuid

abbrev pub attachment_of : Outside → AttachmentMeta → Attachment
attachment_of o att = record {
  kind = att.kind;
  blob_id = parse_id o att.blob_id;
  thumb_blob_id = parse_id o att.thumb_blob_id;
  mime = att.mime;
  name = att.name;
  url = att.url;
  size = att.size;
  width = att.width;
  height = att.height;
}

abbrev pub single : Option AttachmentMeta → List AttachmentMeta
single none = []
single (some a) = a ∷ []

abbrev pub or_single : Option AttachmentMeta → List AttachmentMeta → List AttachmentMeta
or_single attachment [] = single attachment
or_single attachment (a ∷ rest) = a ∷ rest

-- the album, or the single descriptor if there is no album
unfoldable pub attachments_of : SendReq → List AttachmentMeta
attachments_of req = or_single req.attachment (unwrap_or req.attachments [])

abbrev pub message_json : Uuid → MsgRow → Uuid → Uuid → String → Option Uuid → Json
message_json convo msg me my_device ciphertext reply_to = json (
    ("conversationId", uuid convo)
    ∷ ("messageId", uuid msg.id)
    ∷ ("seq", num msg.seq)
    ∷ ("senderAccountId", uuid me)
    ∷ ("senderDeviceId", uuid my_device)
    ∷ ("ciphertext", str ciphertext)
    ∷ ("serverTs", time msg.server_ts)
    ∷ ("replyTo", optional uuid reply_to)
    ∷ [])

-- a self-chat reaches only the sender's other devices
unfoldable pub deliver_message : Uuid → Uuid → Uuid → Envelope → App (Unit {0})
unfolding deliver_to_account
deliver_message target me my_device env =
    if target == me
    then deliver_to_account me env (some my_device)
    else (do deliver_to_account target env none; deliver_to_account me env (some my_device))

unfoldable pub send_message : Headers → SendReq → App Json
unfolding find_target attachments_of envelope deliver_message for_each
send_message headers req = do
  (me, my_device) ← authed headers
  target ← find_target req.to_username
  bytes ← decode_ciphertext req.ciphertext
  convo ← query (dm_conversation me target.id)
  reply_to ← outside (λ o. parse_id o req.reply_to_message_id)
  msg ← query (Messages.store_message convo me my_device bytes reply_to)
  atts ← outside (λ o. map (attachment_of o) (attachments_of req))
  for_each atts (λ att. query (record_media convo msg.id me msg.seq att))
  text ← outside (λ o. o.base64_encode bytes)
  env ← envelope "message.new" (message_json convo msg me my_device text reply_to)
  deliver_message target.id me my_device env
  pure (
      json (
        ("messageId", uuid msg.id)
        ∷ ("seq", num msg.seq)
        ∷ ("serverTs", time msg.server_ts)
        ∷ ("conversationId", uuid convo)
        ∷ []))
