-- ===== src/Server/Keeps/Handlers.antt =====
-- What the handlers of messaging.rs, media.rs, profile.rs and blobs.rs keep.
use trust_server.Common.{String, Option, List}
use trust_server.Exec.{Result, ok, err}
use trust_server.Protocol.{Envelope}
use trust_server.Storage.Models.{Uuid, Bytes}
use trust_server.Storage.Tables.{Tables}
use trust_server.Server.Error.{AppError}
use trust_server.Server.Headers.{Headers}
use trust_server.Server.Keeps.{Keeps, keeps_rules}
use trust_server.Server.Keeps.Queries.{IsStable, keeps_reads}
use trust_server.Server.Keeps.Sessions.{authed-Keeps}
use trust_server.Server.Keeps.Events.{
  envelope-Keeps, deliver_to_account-Keeps, deliver_to_conversation-Keeps,
}
use trust_server.Server.Db.Directory.{ConvoListRow}
use trust_server.Server.Messaging
use trust_server.Server.Messaging.{
  SendReq, find_target, deliver_message, delete_for_everyone, delete_for_me,
}
use trust_server.Server.Media
use trust_server.Server.Media.{MediaQuery}
use trust_server.Server.Profile
use trust_server.Server.Profile.{UpdateProfile, profile_json, deliver_to_partners}
use trust_server.Server.Blobs

module _ {P : Tables → Type 0} where
  find_target-Keeps : (name : String) → Keeps P (find_target name)
  unfolding find_target
  find_target-Keeps name = search (keeps_rules, keeps_reads)

  pub list_users-Keeps : (headers : Headers) → Keeps P (Messaging.list_users headers)
  unfolding Messaging.list_users
  list_users-Keeps headers = search (keeps_rules, keeps_reads, authed-Keeps) depth 20

  pub list_conversations-Keeps :
      (headers : Headers) → Keeps P (Messaging.list_conversations headers)
  unfolding Messaging.list_conversations
  list_conversations-Keeps headers = search (keeps_rules, keeps_reads, authed-Keeps) depth 20

  pub lookup_user-Keeps :
      (headers : Headers) (name : String) → Keeps P (Messaging.lookup_user headers name)
  unfolding Messaging.lookup_user
  lookup_user-Keeps headers name = search (keeps_rules, keeps_reads, authed-Keeps) depth 20

  pub list_media-Keeps :
      (headers : Headers) (cid : Uuid) (q : MediaQuery) → Keeps P (Media.list_media headers cid q)
  unfolding Media.list_media
  list_media-Keeps headers cid q = search (keeps_rules, keeps_reads, authed-Keeps) depth 20

  pub profile_json-Keeps : (id : Uuid) (name : String) → Keeps P (profile_json id name)
  unfolding profile_json
  profile_json-Keeps id name = search (keeps_rules, keeps_reads) depth 20

  pub get_my_profile-Keeps : (headers : Headers) → Keeps P (Profile.get_my_profile headers)
  unfolding Profile.get_my_profile
  get_my_profile-Keeps headers =
      search (keeps_rules, keeps_reads, authed-Keeps, profile_json-Keeps) depth 20

  pub get_profile-Keeps :
      (headers : Headers) (name : String) → Keeps P (Profile.get_profile headers name)
  unfolding Profile.get_profile
  get_profile-Keeps headers name =
      search (keeps_rules, keeps_reads, authed-Keeps, profile_json-Keeps) depth 20

  pub deliver_to_partners-Keeps :
      (env : Envelope) (r : Result AppError (List ConvoListRow))
      → Keeps P (deliver_to_partners env r)
  deliver_to_partners-Keeps env (ok rows) = search (keeps_rules, deliver_to_account-Keeps)
  deliver_to_partners-Keeps env (err e) = search keeps_rules

  deliver_message-Keeps :
      (target me device : Uuid) (env : Envelope) → Keeps P (deliver_message target me device env)
  unfolding deliver_message
  deliver_message-Keeps target me device env = search (keeps_rules, deliver_to_account-Keeps)

module _ {P : Tables → Type 0} (S : IsStable P) where
  pub send_message-Keeps :
      (headers : Headers) (req : SendReq) → Keeps P (Messaging.send_message headers req)
  unfolding Messaging.send_message
  send_message-Keeps headers req =
      search
        (
          keeps_rules, authed-Keeps, find_target-Keeps, S.dm_conversation, S.store_message,
          S.record_media, envelope-Keeps, deliver_message-Keeps,
        )
        depth 40

  pub history-Keeps : (headers : Headers) (name : String) → Keeps P (Messaging.history headers name)
  unfolding Messaging.history
  history-Keeps headers name =
      search (keeps_rules, keeps_reads, authed-Keeps, find_target-Keeps, S.dm_conversation) depth 40

  pub edit_message-Keeps :
      (headers : Headers) (id text : String) → Keeps P (Messaging.edit_message headers id text)
  unfolding Messaging.edit_message
  edit_message-Keeps headers id text =
      search
        (keeps_rules, authed-Keeps, S.edit_message, envelope-Keeps, deliver_to_conversation-Keeps)
        depth 40

  delete_for_everyone-Keeps : (me device id : Uuid) → Keeps P (delete_for_everyone me device id)
  unfolding delete_for_everyone
  delete_for_everyone-Keeps me device id =
      search (keeps_rules, S.delete_message, envelope-Keeps, deliver_to_conversation-Keeps) depth 40

  delete_for_me-Keeps : (me id : Uuid) → Keeps P (delete_for_me me id)
  unfolding delete_for_me
  delete_for_me-Keeps me id = search (keeps_rules, S.hide_message_for) depth 20

  pub delete_message-Keeps :
      (headers : Headers) (id : String) (scope : Option String)
      → Keeps P (Messaging.delete_message headers id scope)
  unfolding Messaging.delete_message
  delete_message-Keeps headers id scope =
      search (keeps_rules, authed-Keeps, delete_for_me-Keeps, delete_for_everyone-Keeps) depth 40

  pub update_profile-Keeps :
      (headers : Headers) (req : UpdateProfile) → Keeps P (Profile.update_profile headers req)
  unfolding Profile.update_profile
  update_profile-Keeps headers req =
      search
        (
          keeps_rules, keeps_reads, authed-Keeps, S.upsert_profile, envelope-Keeps,
          deliver_to_partners-Keeps, deliver_to_account-Keeps, profile_json-Keeps,
        )
        depth 40

  pub upload_blob-Keeps :
      (headers : Headers) (body : Bytes) → Keeps P (Blobs.upload_blob headers body)
  unfolding Blobs.upload_blob
  upload_blob-Keeps headers body = search (keeps_rules, authed-Keeps, S.put_blob) depth 20
