-- ===== src/Server/Keeps/Queries.antt =====
-- The functions of the database that write, as one interface: what each of them keeps, every request
-- keeps. The functions that only read keep every property of the tables.
use trust_server.Common.{ℕ, String, Option, Bool-cases, inl, inr}
use trust_server.Common.Int.{ℤ}
use trust_server.Storage.Models.{Uuid, Time, Bytes}
use trust_server.Storage.Tables.{Tables}
use trust_server.Storage.Keeps.{KeepsDb, keeps_db}
use trust_server.Storage.Backend.{execute}
use trust_server.Storage.AuthRepo
use trust_server.Server.Db.Conversations
use trust_server.Server.Db.Messages
use trust_server.Server.Db.Receipts
use trust_server.Server.Db.Directory
use trust_server.Server.Db.Profiles
use trust_server.Server.Db.Media
use trust_server.Server.Db.Media.{Attachment}

pub record IsStable (P : Tables → Type 0) : Type 0 where
  pub create_account :
      (id : Uuid) (name verifier : String) → KeepsDb P (AuthRepo.create_account id name verifier)
  pub create_device :
      (id account : Uuid) (name : String) (identity : Bytes)
      → KeepsDb P (AuthRepo.create_device id account name identity)
  pub create_session :
      (id device : Uuid) (access refresh : Bytes) (expires : Time)
      → KeepsDb P (AuthRepo.create_session id device access refresh expires)
  pub rotate_session :
      (id : Uuid) (access refresh : Bytes) (expires : Time)
      → KeepsDb P (AuthRepo.rotate_session id access refresh expires)
  pub revoke_session : (id : Uuid) → KeepsDb P (AuthRepo.revoke_session id)
  pub dm_conversation : (a b : Uuid) → KeepsDb P (Conversations.dm_conversation a b)
  pub store_message :
      (cid account device : Uuid) (text : Bytes) (reply : Option Uuid)
      → KeepsDb P (Messages.store_message cid account device text reply)
  pub hide_message_for : (id account : Uuid) → KeepsDb P (Messages.hide_message_for id account)
  pub edit_message :
      (id account : Uuid) (text : Bytes) → KeepsDb P (Messages.edit_message id account text)
  pub delete_message : (id account : Uuid) → KeepsDb P (Messages.delete_message id account)
  pub mark_read : (cid account : Uuid) → KeepsDb P (Receipts.mark_read cid account)
  pub mark_delivered : (cid account : Uuid) → KeepsDb P (Receipts.mark_delivered cid account)
  pub upsert_profile :
      (account : Uuid) (name bio : Option String) (avatar : Option Uuid)
      → KeepsDb P (Profiles.upsert_profile account name bio avatar)
  pub set_last_seen : (account : Uuid) (at : Time) → KeepsDb P (Profiles.set_last_seen account at)
  pub put_blob :
      (content_type : String) (bytes : Bytes) → KeepsDb P (Profiles.put_blob content_type bytes)
  pub record_media :
      (cid message account : Uuid) (seq : ℕ) (a : Attachment)
      → KeepsDb P (Media.record_media cid message account seq a)

module _ {P : Tables → Type 0} where
  pub find_account-KeepsDb : (name : String) → KeepsDb P (AuthRepo.find_account_by_username name)
  unfolding AuthRepo.find_account_by_username
  find_account-KeepsDb name = search keeps_db

  pub find_access-KeepsDb :
      (hash : Bytes) → KeepsDb P (AuthRepo.find_live_session_by_access_hash hash)
  unfolding AuthRepo.find_live_session_by_access_hash execute
  find_access-KeepsDb hash = record {
    at = λ b p. elim (Bool-cases (b.outside.fault b.calls)) [
      | inl down ↦ rw down p
      | inr up ↦ rw up p
    ];
  }

  pub find_refresh-KeepsDb :
      (hash : Bytes) → KeepsDb P (AuthRepo.find_live_session_by_refresh_hash hash)
  unfolding AuthRepo.find_live_session_by_refresh_hash
  find_refresh-KeepsDb hash = search keeps_db

  pub find_device-KeepsDb : (id : Uuid) → KeepsDb P (AuthRepo.find_device_by_id id)
  unfolding AuthRepo.find_device_by_id
  find_device-KeepsDb id = search keeps_db

  pub devices-KeepsDb : (account : Uuid) → KeepsDb P (AuthRepo.list_devices_for_account account)
  unfolding AuthRepo.list_devices_for_account
  devices-KeepsDb account = search keeps_db

  pub participant-KeepsDb :
      (cid account : Uuid) → KeepsDb P (Conversations.is_participant cid account)
  unfolding Conversations.is_participant
  participant-KeepsDb cid account = search keeps_db

  pub members-KeepsDb : (cid : Uuid) → KeepsDb P (Conversations.conversation_member_ids cid)
  unfolding Conversations.conversation_member_ids
  members-KeepsDb cid = search keeps_db

  pub history-KeepsDb : (cid account : Uuid) → KeepsDb P (Messages.history cid account)
  unfolding Messages.history
  history-KeepsDb cid account = search keeps_db

  pub read_seq-KeepsDb : (cid account : Uuid) → KeepsDb P (Receipts.read_seq cid account)
  unfolding Receipts.read_seq Receipts.marker
  read_seq-KeepsDb cid account = search keeps_db

  pub delivered_seq-KeepsDb : (cid account : Uuid) → KeepsDb P (Receipts.delivered_seq cid account)
  unfolding Receipts.delivered_seq Receipts.marker
  delivered_seq-KeepsDb cid account = search keeps_db

  pub list_users-KeepsDb : (account : Uuid) → KeepsDb P (Directory.list_users account)
  unfolding Directory.list_users execute
  list_users-KeepsDb account = record {
    at = λ b p. elim (Bool-cases (b.outside.fault b.calls)) [
      | inl down ↦ rw down p
      | inr up ↦ rw up p
    ];
  }

  pub find_user-KeepsDb : (name : String) → KeepsDb P (Directory.find_user_by_username name)
  unfolding Directory.find_user_by_username
  find_user-KeepsDb name = search keeps_db

  pub username_of-KeepsDb : (account : Uuid) → KeepsDb P (Directory.username_of account)
  unfolding Directory.username_of
  username_of-KeepsDb account = search keeps_db

  pub conversations_for-KeepsDb : (account : Uuid) → KeepsDb P (Directory.conversations_for account)
  unfolding Directory.conversations_for
  conversations_for-KeepsDb account = search keeps_db

  pub get_profile-KeepsDb : (account : Uuid) → KeepsDb P (Profiles.get_profile account)
  unfolding Profiles.get_profile
  get_profile-KeepsDb account = search keeps_db

  pub get_blob-KeepsDb : (id : Uuid) → KeepsDb P (Profiles.get_blob id)
  unfolding Profiles.get_blob
  get_blob-KeepsDb id = search keeps_db

  pub list_media-KeepsDb :
      (cid : Uuid) (kind : Option String) (before : Option ℤ) (limit : ℕ)
      → KeepsDb P (Media.list_media cid kind before limit)
  unfolding Media.list_media
  list_media-KeepsDb cid kind before limit = search keeps_db

pub ruleset keeps_reads = (
  find_account-KeepsDb, find_access-KeepsDb, find_refresh-KeepsDb, find_device-KeepsDb,
  devices-KeepsDb, participant-KeepsDb, members-KeepsDb, history-KeepsDb, read_seq-KeepsDb,
  delivered_seq-KeepsDb, list_users-KeepsDb, find_user-KeepsDb, username_of-KeepsDb,
  conversations_for-KeepsDb, get_profile-KeepsDb, get_blob-KeepsDb, list_media-KeepsDb,
)
