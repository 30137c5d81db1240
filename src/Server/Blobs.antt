-- ===== src/Server/Blobs.antt =====
-- The handlers of crates/server/src/blobs.rs.
pub mod Stored
use trust_server.Common.{ℕ, String, Bool, true, false, Option, none, some, [], ◌∷◌, unwrap_or}
use trust_server.Exec.{Result, ok, err, pure, raise_if, ◌>>=◌, ◌>>◌}
use trust_server.Protocol.Payload.{Json, json, uuid}
use trust_server.Storage.Models.{Uuid, Bytes}
use trust_server.Storage.Tables.{Blob}
use trust_server.Server.Error.{AppError, bad_request}
use trust_server.Server.World.{World, App, query}
use trust_server.Server.Headers.{Headers, header}
use trust_server.Server.Auth.{authed}
use trust_server.Server.Db.Profiles as BlobsDb

abbrev pub no_bytes : Bytes → Bool
no_bytes [] = true
no_bytes (b ∷ bs) = false

unfoldable pub upload_blob : Headers → Bytes → App Json
unfolding header
upload_blob headers body = do
  authed headers
  raise_if (no_bytes body) (bad_request "empty body")
  id ←
      query (
        BlobsDb.put_blob (unwrap_or (header "content-type" headers) "application/octet-stream")
          body)
  pure (json (("blobId", uuid id) ∷ []))

pub data Download : Type 0 where
  -- the content type, the cache control and the bytes
  found : String → String → Bytes → Download
  status : ℕ → Download

abbrev pub download : Result AppError (Option Blob) → Download
download (ok (some blob)) = found blob.content_type "public, max-age=31536000" blob.bytes
download (ok none) = status 404
download (err e) = status 500

unfoldable pub get_blob : Uuid → World → Download × World
get_blob id w = let (r, w') = query (BlobsDb.get_blob id) w in (download r, w')
