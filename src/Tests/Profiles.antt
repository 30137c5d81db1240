-- ===== src/Tests/Profiles.antt =====
-- Profiles and blobs, on the sample database.
use trust_server.Common.{◌≡◌, refl, false, none, some, [], ◌∷◌, bytes_eq, unwrap_or, ◌==◌}
use trust_server.Common.Text.{strip_prefix, is_blank}
use trust_server.Exec.{ok, for_each}
use trust_server.Protocol.Payload.{Json, json, uuid, str, bool, time, optional}
use trust_server.Storage.Models.{Uuid}
use trust_server.Storage.AuthRepo
use trust_server.Storage.Backend.{execute, new_uuid}
use trust_server.Server.World.{World}
use trust_server.Server.World
use trust_server.Server.Headers.{Headers, bearer, header}
use trust_server.Server.Auth.{authed, authed_device, device_of_token, account_of_device}
use trust_server.Server.Db.Profiles.{put_blob, get_profile, upsert_profile}
use trust_server.Server.Db.Directory.{joined, username_of, conversations_for}
use trust_server.Server.Presence.{is_online}
use trust_server.Server.Delivery.{envelope, deliver_to_account}
use trust_server.Server.Profile.{
  UpdateProfile, update_profile, updated_text, updated_avatar, profile_json,
}
use trust_server.Server.Profile.Updated.{field_over, not_blank, not_empty, update_profile-joined}
use trust_server.Server.Blobs.{found, status, upload_blob, get_blob}
use trust_server.Server.Blobs.Stored.{upload_blob-get_blob}
use trust_server.Tests.Sample.{backend, outside}

abbrev world : World
world = World.new (record backend { outside = record outside { sha256 = λ s. 1 ∷ [] } })

abbrev headers : Headers
headers = ("authorization", some "Bearer tka_1") ∷ []

upload-runs :
    upload_blob headers (7 ∷ 8 ∷ []) world
    ≡ (ok (json (("blobId", uuid 1002) ∷ [])), (upload_blob headers (7 ∷ 8 ∷ []) world).1)
unfolding upload_blob put_blob authed authed_device device_of_token account_of_device bearer header
    strip_prefix AuthRepo.find_live_session_by_access_hash AuthRepo.find_device_by_id execute
    new_uuid bytes_eq
upload-runs = refl

upload_blob-get_blob_example :
    let w' = (upload_blob headers (7 ∷ 8 ∷ []) world).1 in
    (id : Uuid) × (json (("blobId", uuid 1002) ∷ []) ≡ json (("blobId", uuid id) ∷ []))
    × ((get_blob id world).0 ≡ status 404)
    × ((get_blob id w').0
        ≡ found
            (unwrap_or (header "content-type" headers) "application/octet-stream")
            "public, max-age=31536000"
            (7 ∷ 8 ∷ []))
    × ((other : Uuid) → (id == other) ≡ false → (get_blob other w').0 ≡ (get_blob other world).0)
upload_blob-get_blob_example =
    upload_blob-get_blob headers (7 ∷ 8 ∷ []) world (upload_blob headers (7 ∷ 8 ∷ []) world).1
      (json (("blobId", uuid 1002) ∷ [])) (λ n. refl) upload-runs

-- the name stays, the text of the biography is cleared
abbrev request : UpdateProfile
request = record { display_name = none; bio = some " "; avatar_blob_id = some "x" }

-- Alice has a name and a biography already
abbrev named : World
named = record world {
  backend = record world.backend {
    tables = record world.backend.tables {
      profiles =
          record {
            account_id = 1;
            display_name = some "Alice";
            bio = some "here";
            avatar_blob_id = none;
            last_seen = some 4;
          }
          ∷ [];
    };
  };
}

abbrev profile : Json
profile = json (
    ("userId", uuid 1)
    ∷ ("username", str "alice")
    ∷ ("displayName", str "Alice")
    ∷ ("bio", optional str none)
    ∷ ("avatarBlobId", optional uuid none)
    ∷ ("online", bool false)
    ∷ ("lastSeen", time 4)
    ∷ [])

update-runs :
    update_profile headers request named ≡ (ok profile, (update_profile headers request named).1)
unfolding update_profile updated_text updated_avatar get_profile upsert_profile authed authed_device
    device_of_token account_of_device bearer header strip_prefix
    AuthRepo.find_live_session_by_access_hash AuthRepo.find_device_by_id
    AuthRepo.list_devices_for_account username_of conversations_for envelope deliver_to_account
    for_each profile_json is_online is_blank execute new_uuid bytes_eq
update-runs = refl

update_profile-joined_example :
    let w' = (update_profile headers request named).1 in
    (me dev : Uuid) × ((authed headers named).0 ≡ ok (me, dev))
    × (let cur = joined me named.backend.tables in
        joined me w'.backend.tables ≡ record cur {
          display_name = field_over not_blank none cur.display_name;
          bio = field_over not_blank (some " ") cur.bio;
          avatar_blob_id =
              field_over (not_empty named.backend.outside) (some "x") cur.avatar_blob_id;
        })
    × ((other : Uuid)
        → (other == me) ≡ false
        → joined other w'.backend.tables ≡ joined other named.backend.tables)
update_profile-joined_example =
    update_profile-joined headers request named (update_profile headers request named).1 profile
      update-runs
