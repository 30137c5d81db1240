-- ===== src/Server/Media.antt =====
-- The handler of crates/server/src/media.rs. The conversation id in the path is what axum parsed.
pub mod Limit
use trust_server.Common.{ℕ, String, not, Option, [], ◌∷◌, map, unwrap_or}
use trust_server.Common.Int.{ℤ, pos, pos_part, clamp}
use trust_server.Exec.{pure, raise_if, ◌>>=◌, ◌>>◌}
use trust_server.Protocol.Payload.{Json, json, arr, array, str, uuid, num, int, time, optional}
use trust_server.Storage.Models.{Uuid}
use trust_server.Storage.Tables.{Media}
use trust_server.Server.Error.{not_found}
use trust_server.Server.World.{App, query}
use trust_server.Server.Headers.{Headers}
use trust_server.Server.Auth.{authed}
use trust_server.Server.Db.Conversations.{is_participant}
use trust_server.Server.Db.Media as MediaDb

abbrev pub media_json : Media → Json
media_json e = json (
    ("id", uuid e.id)
    ∷ ("messageId", uuid e.message_id)
    ∷ ("senderAccountId", uuid e.sender_account_id)
    ∷ ("seq", num e.seq)
    ∷ ("kind", str e.kind)
    ∷ ("blobId", optional uuid e.blob_id)
    ∷ ("thumbBlobId", optional uuid e.thumb_blob_id)
    ∷ ("mime", optional str e.mime)
    ∷ ("name", optional str e.name)
    ∷ ("url", optional str e.url)
    ∷ ("size", optional int e.size)
    ∷ ("width", optional int e.width)
    ∷ ("height", optional int e.height)
    ∷ ("createdAt", time e.created_at)
    ∷ [])

pub record MediaQuery : Type 0 where
  pub kind : Option String
  pub before : Option ℤ
  pub limit : Option ℤ

-- `q.limit.unwrap_or(30).clamp(1, 100)`
unfoldable pub page_limit : Option ℤ → ℕ
page_limit limit = pos_part (clamp (pos 1) (pos 100) (unwrap_or limit (pos 30)))

unfoldable pub list_media : Headers → Uuid → MediaQuery → App Json
unfolding page_limit
list_media headers conversation_id q = do
  (me, _) ← authed headers
  member ← query (is_participant conversation_id me)
  raise_if (not member) (not_found "conversation not found")
  (items, next) ← query (MediaDb.list_media conversation_id q.kind q.before (page_limit q.limit))
  pure (
      json (("items", arr (array (map media_json items))) ∷ ("nextCursor", optional num next) ∷ []))
