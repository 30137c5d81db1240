-- ===== src/Server/Messaging.antt =====
-- The handlers of crates/server/src/messaging.rs. The request bodies are what serde parsed.
mod Send
use trust_server.Common.{
  ℕ, String, Bool, true, false, Option, none, some, List, [], ◌∷◌, map, leb, ◌==◌, unwrap_or,
  if◌then◌else◌,
}
use trust_server.Common.Int.{ℤ}
use trust_server.Common.Text.{str_eq}
use trust_server.Exec.{pure, gets, ok_or, for_each, ◌>>=◌, ◌>>◌}
use trust_server.Protocol.{Envelope}
use trust_server.Protocol.Payload.{Json, json, array, arr, str, uuid, num, bool, time, optional}
use trust_server.Storage.Models.{Uuid, Bytes, Account}
use trust_server.Storage.Outside.{Outside}
use trust_server.Storage.AuthRepo
use trust_server.Server.Error.{bad_request, not_found}
use trust_server.Server.Presence.{Presence, is_online}
use trust_server.Server.World.{App, query, auth, outside}
use trust_server.Server.Headers.{Headers, and_then}
use trust_server.Server.Auth.{authed}
use trust_server.Server.Delivery.{envelope, deliver_to_account, deliver_to_conversation}
use trust_server.Server.Db.Conversations.{dm_conversation}
use trust_server.Server.Db.Messages.{MsgRow}
use trust_server.Server.Db.Messages
use trust_server.Server.Db.Receipts.{read_seq, delivered_seq}
use trust_server.Server.Db.Directory
use trust_server.Server.Db.Directory.{UserRow, ConvoListRow}
use trust_server.Server.Db.Media.{Attachment, record_media}
unfoldable pub use Send.*

-- `userId` to `lastSeen` of a listed user
abbrev pub user_json : Presence → UserRow → List (String × Json)
user_json p u =
    ("userId", uuid u.id)
    ∷ ("username", str u.username)
    ∷ ("displayName", optional str u.display_name)
    ∷ ("avatarBlobId", optional uuid u.avatar_blob_id)
    ∷ ("online", bool (is_online u.id p))
    ∷ ("lastSeen", optional time u.last_seen)
    ∷ []

unfoldable pub list_users : Headers → App Json
list_users headers = do
  (me, _) ← authed headers
  users ← query (Directory.list_users me)
  presence ← gets (λ w. w.presence)
  pure (arr (array (map (λ u. json (user_json presence u)) users)))

abbrev pub convo_json : Presence → ConvoListRow → Json
convo_json p r = json (
    ("userId", uuid r.other)
    ∷ ("username", str r.username)
    ∷ ("displayName", optional str r.display_name)
    ∷ ("avatarBlobId", optional uuid r.avatar_blob_id)
    ∷ ("online", bool (is_online r.other p))
    ∷ ("lastSeen", optional time r.last_seen)
    ∷ ("conversationId", uuid r.cid)
    ∷ [])

unfoldable pub list_conversations : Headers → App Json
list_conversations headers = do
  (me, _) ← authed headers
  rows ← query (Directory.conversations_for me)
  presence ← gets (λ w. w.presence)
  pure (arr (array (map (convo_json presence) rows)))

unfoldable pub lookup_user : Headers → String → App Json
lookup_user headers username = do
  authed headers
  found ← query (Directory.find_user_by_username username)
  u ← ok_or found (not_found "no user with that username")
  presence ← gets (λ w. w.presence)
  pure (json (user_json presence u))

-- how far the peer is with one of my own messages
unfoldable pub status : Uuid → ℕ → ℕ → MsgRow → String
status me peer_read peer_delivered m =
    if m.sender_account_id == me
    then if leb m.seq peer_read
      then "read"
      else if leb m.seq peer_delivered
      then "delivered"
      else "sent"
    else "sent"

abbrev pub history_json : Outside → Uuid → ℕ → ℕ → MsgRow → Json
history_json o me peer_read peer_delivered m = json (
    ("messageId", uuid m.id)
    ∷ ("seq", num m.seq)
    ∷ ("senderAccountId", uuid m.sender_account_id)
    ∷ ("senderDeviceId", optional uuid m.sender_device_id)
    ∷ ("ciphertext", str (o.base64_encode m.ciphertext))
    ∷ ("serverTs", time m.server_ts)
    ∷ ("status", str (status me peer_read peer_delivered m))
    ∷ ("replyTo", optional uuid m.reply_to)
    ∷ ("editedAt", optional time m.edited_at)
    ∷ [])

unfoldable pub history : Headers → String → App Json
unfolding find_target status
history headers with_user = do
  (me, _) ← authed headers
  target ← find_target with_user
  convo ← query (dm_conversation me target.id)
  peer_read ← query (read_seq convo target.id)
  peer_delivered ← query (delivered_seq convo target.id)
  rows ← query (Messages.history convo me)
  msgs ← outside (λ o. map (history_json o me peer_read peer_delivered) rows)
  pure (
      json (
        ("conversationId", uuid convo)
        ∷ ("withUserId", uuid target.id)
        ∷ ("messages", arr (array msgs))
        ∷ []))

abbrev pub parse_message_id : String → App Uuid
parse_message_id id = do
  parsed ← outside (λ o. o.parse_uuid id)
  ok_or parsed (bad_request "bad message id")

unfoldable pub edit_message : Headers → String → String → App Json
unfolding envelope deliver_to_conversation
edit_message headers id ciphertext = do
  (me, my_device) ← authed headers
  msg_id ← parse_message_id id
  bytes ← decode_ciphertext ciphertext
  row ← query (Messages.edit_message msg_id me bytes)
  (cid, _, edited_at) ← ok_or row (not_found "no such message you can edit")
  text ← outside (λ o. o.base64_encode bytes)
  env ← envelope "message.edited" (
      json (
        ("conversationId", uuid cid)
        ∷ ("messageId", uuid msg_id)
        ∷ ("ciphertext", str text)
        ∷ ("editedAt", time edited_at)
        ∷ []))
  deliver_to_conversation cid env me my_device
  pure (json (("messageId", uuid msg_id) ∷ ("editedAt", time edited_at) ∷ []))

-- the path of `delete_message` for everyone
unfoldable pub delete_for_everyone : Uuid → Uuid → Uuid → App Json
unfolding envelope deliver_to_conversation
delete_for_everyone me my_device msg_id = do
  row ← query (Messages.delete_message msg_id me)
  (cid, _) ← ok_or row (not_found "no such message you can delete")
  env ←
      envelope "message.deleted"
        (json (("conversationId", uuid cid) ∷ ("messageId", uuid msg_id) ∷ []))
  deliver_to_conversation cid env me my_device
  pure (json (("messageId", uuid msg_id) ∷ ("deleted", bool true) ∷ []))

unfoldable pub delete_for_me : Uuid → Uuid → App Json
delete_for_me me msg_id = do
  query (Messages.hide_message_for msg_id me)
  pure (json (("messageId", uuid msg_id) ∷ ("hidden", bool true) ∷ []))

-- `q.scope.as_deref() == Some("me")`
abbrev pub is_me : Option String → Bool
is_me none = false
is_me (some scope) = str_eq scope "me"

unfoldable pub delete_message : Headers → String → Option String → App Json
unfolding delete_for_everyone delete_for_me
delete_message headers id scope = do
  (me, my_device) ← authed headers
  msg_id ← parse_message_id id
  if is_me scope then delete_for_me me msg_id else delete_for_everyone me my_device msg_id
