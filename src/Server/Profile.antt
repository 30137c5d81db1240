-- ===== src/Server/Profile.antt =====
-- The handlers of crates/server/src/profile.rs.
pub mod Updated
use trust_server.Common.{String, Option, none, some, List, [], ◌∷◌, if◌then◌else◌}
use trust_server.Common.Text.{is_blank, is_empty}
use trust_server.Exec.{Result, ok, err, pure, gets, ok_or, attempt, for_each, ◌>>=◌, ◌>>◌}
use trust_server.Protocol.{Envelope}
use trust_server.Protocol.Payload.{Json, json, str, uuid, bool, time, optional}
use trust_server.Storage.Models.{Uuid}
use trust_server.Storage.Outside.{Outside}
use trust_server.Storage.AuthRepo
use trust_server.Server.Error.{AppError, not_found}
use trust_server.Server.Presence.{is_online}
use trust_server.Server.World.{App, query, auth, outside}
use trust_server.Server.Headers.{Headers}
use trust_server.Server.Auth.{authed}
use trust_server.Server.Delivery.{envelope, deliver_to_account}
use trust_server.Server.Db.Directory.{ConvoListRow, conversations_for, username_of}
use trust_server.Server.Db.Profiles as Profiles

unfoldable pub profile_json : Uuid → String → App Json
profile_json account_id username = do
  p ← query (Profiles.get_profile account_id)
  online ← gets (λ w. is_online account_id w.presence)
  pure (
      json (
        ("userId", uuid account_id)
        ∷ ("username", str username)
        ∷ ("displayName", optional str p.display_name)
        ∷ ("bio", optional str p.bio)
        ∷ ("avatarBlobId", optional uuid p.avatar_blob_id)
        ∷ ("online", bool online)
        ∷ ("lastSeen", optional time p.last_seen)
        ∷ []))

unfoldable pub get_my_profile : Headers → App Json
unfolding profile_json
get_my_profile headers = do
  (me, _) ← authed headers
  username ← query (username_of me)
  profile_json me username

unfoldable pub get_profile : Headers → String → App Json
unfolding profile_json
get_profile headers username = do
  authed headers
  found ← auth (AuthRepo.find_account_by_username username)
  account ← ok_or found (not_found "no such user")
  profile_json account.id account.username

pub record UpdateProfile : Type 0 where
  pub display_name : Option String
  pub bio : Option String
  pub avatar_blob_id : Option String

-- a text field: absent is unchanged, blank is cleared
unfoldable pub updated_text : Option String → Option String → Option String
updated_text none current = current
updated_text (some s) current = if is_blank s then none else some s

-- the avatar: absent is unchanged, empty or malformed is cleared
unfoldable pub updated_avatar : Outside → Option String → Option Uuid → Option Uuid
updated_avatar o none current = current
updated_avatar o (some s) current = if is_empty s then none else o.parse_uuid s

abbrev pub deliver_to_partners : Envelope → Result AppError (List ConvoListRow) → App (Unit {0})
deliver_to_partners env (ok convos) = for_each convos (λ r. deliver_to_account r.other env none)
deliver_to_partners env (err e) = pure tt

unfoldable pub update_profile : Headers → UpdateProfile → App Json
unfolding updated_text updated_avatar envelope deliver_to_account profile_json for_each
update_profile headers req = do
  (me, _) ← authed headers
  cur ← query (Profiles.get_profile me)
  avatar ← outside (λ o. updated_avatar o req.avatar_blob_id cur.avatar_blob_id)
  query (
      Profiles.upsert_profile me (updated_text req.display_name cur.display_name)
        (updated_text req.bio cur.bio) avatar)
  username ← query (username_of me)
  p ← query (Profiles.get_profile me)
  env ← envelope "profile.update" (
      json (
        ("userId", uuid me)
        ∷ ("username", str username)
        ∷ ("displayName", optional str p.display_name)
        ∷ ("bio", optional str p.bio)
        ∷ ("avatarBlobId", optional uuid p.avatar_blob_id)
        ∷ []))
  convos ← attempt (query (conversations_for me))
  deliver_to_partners env convos
  deliver_to_account me env none
  profile_json me username
