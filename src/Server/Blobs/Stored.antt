-- ===== src/Server/Blobs/Stored.antt =====
-- A blob from its upload to its download (crates/server/src/blobs.rs).
use trust_server.Common.{
  ℕ, suc, ◌≡◌, refl, sym, ap, ◌∙◌, String, false, none, some, List, [], ◌∷◌, ◌++◌, arith, any,
  find?, inl, inr, Bool-cases, ◌==◌, ==_refl, unwrap_or,
}
use trust_server.Exec.{Result, ok, pure, raise_if, ◌>>=◌, ◌>>◌}
use trust_server.Server.Error.{AppError, bad_request}
use trust_server.Protocol.Payload.{Json, json, uuid}
use trust_server.Storage.Models.{Uuid, Bytes}
use trust_server.Storage.Tables.{Blob}
use trust_server.Storage.Outside.{SqlError}
use trust_server.Storage.Backend.{Backend, execute, new_uuid}
use trust_server.Server.World.{World, query, after_calls}
use trust_server.Server.Headers.{Headers, header}
use trust_server.Server.Auth.{authed}
use trust_server.Server.Router.Sessions.{authed-calls}
use trust_server.Server.Returns.{bind-ok, raise_if-ok, query-ok}
use trust_server.Server.Db.Profiles.{blob_has_id}
use trust_server.Server.Db.Profiles as BlobsDb
use trust_server.Server.Blobs.{download, found, status, upload_blob, get_blob, no_bytes}

find?-append_own :
    (row : Blob) (bs : List Blob)
    → any (blob_has_id row.id) bs ≡ false
    → find? (blob_has_id row.id) (bs ++ row ∷ []) ≡ some row
find?-append_own row [] h = ground (arith, ==_refl row.id)
find?-append_own row (b ∷ bs) h = ground (arith, find?-append_own row bs)

find?-append_other :
    (other : Uuid) (row : Blob) (bs : List Blob)
    → (row.id == other) ≡ false
    → find? (blob_has_id other) (bs ++ row ∷ []) ≡ find? (blob_has_id other) bs
find?-append_other other row [] h = ground arith
find?-append_other other row (b ∷ bs) h = ground (arith, find?-append_other other row bs)

find?-absent :
    (id : Uuid) (bs : List Blob)
    → any (blob_has_id id) bs ≡ false
    → find? (blob_has_id id) bs ≡ none
find?-absent id [] h = refl
find?-absent id (b ∷ bs) h = ground (arith, find?-absent id bs)

-- what a `put_blob` that returned has written
put_blob-writes :
    (content_type : String) (bytes : Bytes) (b b' : Backend) (id : Uuid)
    → BlobsDb.put_blob content_type bytes b ≡ (ok id, b')
    → (created : ℕ) × (any (blob_has_id id) b.tables.blobs ≡ false)
      × (b'.outside ≡ b.outside)
      × (b'.tables.blobs
          ≡ b.tables.blobs
            ++ record { id = id; content_type = content_type; bytes = bytes; created_at = created }
              ∷ [])
unfolding BlobsDb.put_blob execute new_uuid
put_blob-writes content_type bytes b b' id e = elim (Bool-cases (b.outside.fault (suc b.calls))) [
  | inl down ↦ let bad = rw down at e in cc
  | inr up ↦ elim (Bool-cases (any (blob_has_id (b.outside.random b.calls)) b.tables.blobs)) [
    | inl there ↦ let bad = rw (up, there) at e in cc
    | inr new ↦
        let done = rw (up, new) at e in
        let same : b.outside.random b.calls ≡ id = cc in
        let after = sym (ap (λ (r : Result SqlError Uuid × Backend). r.1) done) in
        (b.outside.clock (suc b.calls), rw same at new, rw after refl, rw (after, same) refl)
  ]
]

get_blob-reads :
    (id : Uuid) (w : World)
    → w.backend.outside.fault w.backend.calls ≡ false
    → (get_blob id w).0 ≡ download (ok (find? (blob_has_id id) w.backend.tables.blobs))
unfolding get_blob BlobsDb.get_blob execute
get_blob-reads id w up = rw up refl

-- the part of an upload after its session check
upload_rest :
    (content_type : String) (body : Bytes) (w w' : World) (j : Json)
    → (do
      raise_if (no_bytes body) (bad_request "empty body")
      id ← query (BlobsDb.put_blob content_type body)
      pure (json (("blobId", uuid id) ∷ [])))
        w
      ≡ (ok j, w')
    → (id : Uuid) × (BlobsDb.put_blob content_type body w.backend ≡ (ok id, w'.backend))
      × (j ≡ json (("blobId", uuid id) ∷ []))
upload_rest content_type body w w' j e =
    let (u, w2, e2, r2) =
      bind-ok (raise_if (no_bytes body) (bad_request "empty body"))
        (λ _. do
          id ← query (BlobsDb.put_blob content_type body)
          pure (json (("blobId", uuid id) ∷ [])))
        w j w' e in
    let (_, same) = raise_if-ok (no_bytes body) (bad_request "empty body") w w2 u e2 in
    let (id, w3, e3, r3) =
      bind-ok (query (BlobsDb.put_blob content_type body))
        (λ id. pure (json (("blobId", uuid id) ∷ []))) w2 j w' r2 in
    let (put, rest) = query-ok (BlobsDb.put_blob content_type body) w2 w3 id e3 in
    let done : w3 ≡ w' = cc in
    let answer : json (("blobId", uuid id) ∷ []) ≡ j = cc in
    (id, rw (same, sym done) put, sym answer)

-- With the database in reach, an upload that returns answers with the id of a blob that was not
-- there before; a download by this id then gives the uploaded bytes under the content type of the
-- upload, `application/octet-stream` if it had none, and a download by any other id gives what it
-- gave before.
pub upload_blob-get_blob :
    (headers : Headers) (body : Bytes) (w w' : World) (j : Json)
    → ((n : ℕ) → w.backend.outside.fault n ≡ false)
    → upload_blob headers body w ≡ (ok j, w')
    → (id : Uuid) × (j ≡ json (("blobId", uuid id) ∷ []))
      × ((get_blob id w).0 ≡ status 404)
      × ((get_blob id w').0
          ≡ found
              (unwrap_or (header "content-type" headers) "application/octet-stream")
              "public, max-age=31536000"
              body)
      × ((other : Uuid) → (id == other) ≡ false → (get_blob other w').0 ≡ (get_blob other w).0)
unfolding upload_blob
upload_blob-get_blob headers body w w' j up e =
    let (who, w1, e1, r1) = bind-ok (authed headers) _ w j w' e in
    let type = unwrap_or (header "content-type" headers) "application/octet-stream" in
    let (id, put, answer) = upload_rest type body w1 w' j r1 in
    let (k, same) = authed-calls headers w in
    let there : w1 ≡ after_calls w k =
      sym (ap (λ (r : Result AppError (Uuid × Uuid) × World). r.1) e1) ∙ same in
    let (created, new, o, blobs) =
      put_blob-writes type body (after_calls w k).backend w'.backend id (rw there at put) in
    let row : Blob = record { id = id; content_type = type; bytes = body; created_at = created } in
    let old = w.backend.tables.blobs in
    let reached : w'.backend.outside.fault w'.backend.calls ≡ false = rw o (up _) in
    let reads = λ (other : Uuid).
      get_blob-reads other w' reached
      ∙ ap (λ bs. download (ok (find? (blob_has_id other) bs))) blobs in
    (
      id,
      answer,
      get_blob-reads id w (up _) ∙ ap (λ b. download (ok b)) (find?-absent id old new),
      reads id ∙ ap (λ b. download (ok b)) (find?-append_own row old new),
      λ other n.
          reads other
          ∙ ap (λ b. download (ok b)) (find?-append_other other row old n)
          ∙ sym (get_blob-reads other w (up _)),
    )
