-- ===== src/Server/Db/Profiles.antt =====
-- The profiles and blobs sections of crates/server/src/db.rs.
pub mod Rows
use trust_server.Common.{
  String, Bool, not, Option, some, List, [], ◌∷◌, ◌++◌, any, find?, modify_all, ◌==◌, if◌then◌else◌,
}
use trust_server.Exec.{ok, pure, ◌>>=◌, ◌>>◌}
use trust_server.Storage.Models.{Uuid, Time, Bytes}
use trust_server.Storage.Tables.{Profile, Blob}
use trust_server.Storage.Outside.{unique_violation, foreign_key_violation}
use trust_server.Storage.Backend.{Sql, Statement, execute, select, check, new_uuid}
use trust_server.Server.Db.Conversations.{account_exists}
use trust_server.Server.Db.Directory.{profile_of, no_profile, joined}

-- `ProfileRow`, whose default is the row without a profile
unfoldable pub get_profile : Uuid → Sql Profile
unfolding execute
get_profile account = execute (select (joined account))

-- `INSERT … ON CONFLICT (account_id) DO UPDATE`: the row is made from the columns given, or the
-- row that is there is changed
abbrev pub upsert_row : Uuid → Profile → (Profile → Profile) → List Profile → List Profile
upsert_row account row change ps =
    if any (profile_of account) ps
    then modify_all (profile_of account) change ps
    else ps ++ row ∷ []

abbrev pub write_profile : Uuid → (Profile → Profile) → Statement (Unit {0})
write_profile account change now t = check (account_exists account t) foreign_key_violation (
    ok (
      tt,
      record t { profiles = upsert_row account (change (no_profile account)) change t.profiles },
    ))

abbrev pub with_details : Option String → Option String → Option Uuid → Profile → Profile
with_details display_name bio avatar_blob_id p = record p {
  display_name = display_name;
  bio = bio;
  avatar_blob_id = avatar_blob_id;
}

unfoldable pub upsert_profile : Uuid → Option String → Option String → Option Uuid → Sql (Unit {0})
unfolding execute
upsert_profile account display_name bio avatar_blob_id =
    execute (write_profile account (with_details display_name bio avatar_blob_id))

abbrev pub seen_at : Time → Profile → Profile
seen_at at p = record p { last_seen = some at }

unfoldable pub set_last_seen : Uuid → Time → Sql (Unit {0})
unfolding execute
set_last_seen account at = execute (write_profile account (seen_at at))

abbrev pub blob_has_id : Uuid → Blob → Bool
blob_has_id id b = b.id == id

abbrev pub insert_blob : Uuid → String → Bytes → Statement (Unit {0})
insert_blob id content_type bytes now t =
    let row : Blob = record {
      id = id;
      content_type = content_type;
      bytes = bytes;
      created_at = now;
    } in
    check (not (any (blob_has_id id) t.blobs)) unique_violation
      (ok (tt, record t { blobs = t.blobs ++ row ∷ [] }))

unfoldable pub put_blob : String → Bytes → Sql Uuid
unfolding execute new_uuid
put_blob content_type bytes = do id ← new_uuid; execute (insert_blob id content_type bytes); pure id

unfoldable pub get_blob : Uuid → Sql (Option Blob)
unfolding execute
get_blob id = execute (select (λ t. find? (blob_has_id id) t.blobs))
