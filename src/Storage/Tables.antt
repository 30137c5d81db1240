-- ===== src/Storage/Tables.antt =====
-- The tables of crates/storage/migrations: a row type for each, and the database as their lists in
-- the order of insertion.
use trust_server.Common.{ℕ, String, Option, List, []}
use trust_server.Common.Int.{ℤ}
use trust_server.Storage.Models.{Uuid, Time, Bytes, Account, Device, Session}

pub record Conversation : Type 0 where
  pub id : Uuid
  pub kind : String
  pub epoch : ℕ
  pub last_seq : ℕ
  pub created_at : Time

pub record Member : Type 0 where
  pub conversation_id : Uuid
  pub account_id : Uuid

pub record DmConversation : Type 0 where
  pub account_lo : Uuid
  pub account_hi : Uuid
  pub conversation_id : Uuid

pub record Message : Type 0 where
  pub id : Uuid
  pub conversation_id : Uuid
  pub seq : ℕ
  pub sender_account_id : Uuid
  pub sender_device_id : Option Uuid
  pub ciphertext : Bytes
  pub server_ts : Time
  pub reply_to : Option Uuid
  pub edited_at : Option Time
  pub deleted_at : Option Time

-- `read_markers` and `delivered_markers`
pub record Marker : Type 0 where
  pub conversation_id : Uuid
  pub account_id : Uuid
  pub up_to_seq : ℕ

pub record Hidden : Type 0 where
  pub message_id : Uuid
  pub account_id : Uuid

pub record Profile : Type 0 where
  pub account_id : Uuid
  pub display_name : Option String
  pub bio : Option String
  pub avatar_blob_id : Option Uuid
  pub last_seen : Option Time

pub record Blob : Type 0 where
  pub id : Uuid
  pub content_type : String
  pub bytes : Bytes
  pub created_at : Time

pub record Media : Type 0 where
  pub id : Uuid
  pub conversation_id : Uuid
  pub message_id : Uuid
  pub sender_account_id : Uuid
  pub seq : ℕ
  pub kind : String
  pub blob_id : Option Uuid
  pub thumb_blob_id : Option Uuid
  pub mime : Option String
  pub name : Option String
  pub url : Option String
  pub size : Option ℤ
  pub width : Option ℤ
  pub height : Option ℤ
  pub created_at : Time

pub record Tables : Type 0 where
  pub accounts : List Account
  pub devices : List Device
  pub sessions : List Session
  pub conversations : List Conversation
  pub conversation_members : List Member
  pub dm_conversations : List DmConversation
  pub messages : List Message
  pub read_markers : List Marker
  pub delivered_markers : List Marker
  pub hidden_messages : List Hidden
  pub profiles : List Profile
  pub blobs : List Blob
  pub media : List Media

abbrev pub no_tables : Tables
no_tables = record {
  accounts = [];
  devices = [];
  sessions = [];
  conversations = [];
  conversation_members = [];
  dm_conversations = [];
  messages = [];
  read_markers = [];
  delivered_markers = [];
  hidden_messages = [];
  profiles = [];
  blobs = [];
  media = [];
}
