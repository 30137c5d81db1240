-- ===== src/Server/Invariant/Stability.antt =====
-- From a property of few parts of the tables to the interface of every query that writes.
use trust_server.Common.{ℕ, String, Option}
use trust_server.Storage.Models.{Uuid, Time, Bytes}
use trust_server.Storage.Tables.{Tables}
use trust_server.Storage.Backend.{execute}
use trust_server.Storage.Keeps.{KeepsDb, KeepsDb-stored, keeps_db}
use trust_server.Storage.AuthRepo
use trust_server.Server.Db.Conversations
use trust_server.Server.Db.Conversations.{
  has_id, insert_conversation, insert_members, insert_pair, or_create,
}
use trust_server.Server.Db.Messages
use trust_server.Server.Db.Messages.{
  next_seq, bump_row, insert_message, insert_hidden, delete_media, update_ciphertext, mark_deleted,
}
use trust_server.Server.Db.Receipts
use trust_server.Server.Db.Profiles
use trust_server.Server.Db.Profiles.{insert_blob}
use trust_server.Server.Db.Media.{Attachment, insert_media}
use trust_server.Server.Db.Media as MediaDb
use trust_server.Server.Keeps.Queries.{IsStable}
use trust_server.Server.Invariant.Writes.{
  KeepsDb-writes, set_accounts, set_devices, set_hidden, set_read, set_delivered, set_profiles,
  set_blobs, set_media, insert_account-Writes, insert_device-Writes, insert_hidden-Writes,
  delete_media-Writes, advance_read-Writes, advance_delivered-Writes, write_profile-Writes,
  insert_blob-Writes, insert_media-Writes,
}
use trust_server.Server.Invariant.Parts.{Ignores}

-- A property that depends at most on the sessions, the conversations with their members and pairs,
-- and the messages, with what the queries that write those parts keep.
pub record Parts (P : Tables → Type 0) : Type 0 where
  pub accounts : Ignores P set_accounts
  pub devices : Ignores P set_devices
  pub hidden : Ignores P set_hidden
  pub read : Ignores P set_read
  pub delivered : Ignores P set_delivered
  pub profiles : Ignores P set_profiles
  pub blobs : Ignores P set_blobs
  pub media : Ignores P set_media
  pub create_session :
      (id device : Uuid) (access refresh : Bytes) (expires : Time)
      → KeepsDb P (AuthRepo.create_session id device access refresh expires)
  pub rotate_session :
      (id : Uuid) (access refresh : Bytes) (expires : Time)
      → KeepsDb P (AuthRepo.rotate_session id access refresh expires)
  pub revoke_session : (id : Uuid) → KeepsDb P (AuthRepo.revoke_session id)
  pub dm_conversation : (a b : Uuid) → KeepsDb P (Conversations.dm_conversation a b)
  pub store_message :
      (cid account device : Uuid) (text : Bytes) (reply : Option Uuid)
      → KeepsDb P (Messages.store_message cid account device text reply)
  pub edit_message :
      (id account : Uuid) (text : Bytes) → KeepsDb P (Messages.edit_message id account text)
  pub mark_deleted : (id account : Uuid) → KeepsDb P (execute (mark_deleted id account))

module _ {P : Tables → Type 0} (parts : Parts P) where
  create_account-KeepsDb :
      (id : Uuid) (name verifier : String) → KeepsDb P (AuthRepo.create_account id name verifier)
  unfolding AuthRepo.create_account
  create_account-KeepsDb id name verifier =
      KeepsDb-stored _
        (KeepsDb-writes set_accounts _ (insert_account-Writes id name verifier) parts.accounts)

  create_device-KeepsDb :
      (id account : Uuid) (name : String) (identity : Bytes)
      → KeepsDb P (AuthRepo.create_device id account name identity)
  unfolding AuthRepo.create_device
  create_device-KeepsDb id account name identity =
      KeepsDb-stored _
        (KeepsDb-writes set_devices _ (insert_device-Writes id account name identity) parts.devices)

  hide_message_for-KeepsDb : (id account : Uuid) → KeepsDb P (Messages.hide_message_for id account)
  unfolding Messages.hide_message_for
  hide_message_for-KeepsDb id account =
      KeepsDb-writes set_hidden _ (insert_hidden-Writes id account) parts.hidden

  delete_media-KeepsDb : (id : Uuid) → KeepsDb P (execute (delete_media id))
  delete_media-KeepsDb id = KeepsDb-writes set_media _ (delete_media-Writes id) parts.media

  delete_message-KeepsDb : (id account : Uuid) → KeepsDb P (Messages.delete_message id account)
  unfolding Messages.delete_message
  delete_message-KeepsDb id account =
      search (keeps_db, parts.mark_deleted, delete_media-KeepsDb) depth 20

  mark_read-KeepsDb : (cid account : Uuid) → KeepsDb P (Receipts.mark_read cid account)
  unfolding Receipts.mark_read Receipts.mark
  mark_read-KeepsDb cid account =
      KeepsDb-writes set_read _ (advance_read-Writes cid account) parts.read

  mark_delivered-KeepsDb : (cid account : Uuid) → KeepsDb P (Receipts.mark_delivered cid account)
  unfolding Receipts.mark_delivered Receipts.mark
  mark_delivered-KeepsDb cid account =
      KeepsDb-writes set_delivered _ (advance_delivered-Writes cid account) parts.delivered

  upsert_profile-KeepsDb :
      (account : Uuid) (name bio : Option String) (avatar : Option Uuid)
      → KeepsDb P (Profiles.upsert_profile account name bio avatar)
  unfolding Profiles.upsert_profile
  upsert_profile-KeepsDb account name bio avatar =
      KeepsDb-writes set_profiles _ (write_profile-Writes account _) parts.profiles

  set_last_seen-KeepsDb :
      (account : Uuid) (at : Time) → KeepsDb P (Profiles.set_last_seen account at)
  unfolding Profiles.set_last_seen
  set_last_seen-KeepsDb account at =
      KeepsDb-writes set_profiles _ (write_profile-Writes account _) parts.profiles

  insert_blob-KeepsDb :
      (id : Uuid) (content_type : String) (bytes : Bytes)
      → KeepsDb P (execute (insert_blob id content_type bytes))
  insert_blob-KeepsDb id content_type bytes =
      KeepsDb-writes set_blobs _ (insert_blob-Writes id content_type bytes) parts.blobs

  put_blob-KeepsDb :
      (content_type : String) (bytes : Bytes) → KeepsDb P (Profiles.put_blob content_type bytes)
  unfolding Profiles.put_blob
  put_blob-KeepsDb content_type bytes = search (keeps_db, insert_blob-KeepsDb) depth 20

  insert_media-KeepsDb :
      (id cid message account : Uuid) (seq : ℕ) (a : Attachment)
      → KeepsDb P (execute (insert_media id cid message account seq a))
  insert_media-KeepsDb id cid message account seq a =
      KeepsDb-writes set_media _ (insert_media-Writes id cid message account seq a) parts.media

  record_media-KeepsDb :
      (cid message account : Uuid) (seq : ℕ) (a : Attachment)
      → KeepsDb P (MediaDb.record_media cid message account seq a)
  unfolding MediaDb.record_media
  record_media-KeepsDb cid message account seq a = search (keeps_db, insert_media-KeepsDb)

  pub stable : IsStable P
  stable = record {
    create_account = create_account-KeepsDb;
    create_device = create_device-KeepsDb;
    create_session = parts.create_session;
    rotate_session = parts.rotate_session;
    revoke_session = parts.revoke_session;
    dm_conversation = parts.dm_conversation;
    store_message = parts.store_message;
    hide_message_for = hide_message_for-KeepsDb;
    edit_message = parts.edit_message;
    delete_message = delete_message-KeepsDb;
    mark_read = mark_read-KeepsDb;
    mark_delivered = mark_delivered-KeepsDb;
    upsert_profile = upsert_profile-KeepsDb;
    set_last_seen = set_last_seen-KeepsDb;
    put_blob = put_blob-KeepsDb;
    record_media = record_media-KeepsDb;
  }
