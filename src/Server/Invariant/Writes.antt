-- ===== src/Server/Invariant/Writes.antt =====
-- Which table each statement of the program writes.
use trust_server.Common.{
  ℕ, ◌≡◌, refl, sym, subst, String, Bool, true, false, not, ◌&&◌, Option, none, some, List, any,
  if◌then◌else◌,
}
use trust_server.Exec.{Result, ok, err}
use trust_server.Storage.Outside.{SqlError, unique_violation, foreign_key_violation}
use trust_server.Storage.Models.{Uuid, Time, Bytes, Account, Device, Session}
use trust_server.Storage.Tables.{
  Tables, Conversation, Member, DmConversation, Message, Marker, Hidden, Profile, Blob, Media,
}
use trust_server.Storage.Backend.{Statement, execute, check}
use trust_server.Storage.Ensures.{Outcome}
use trust_server.Storage.Keeps.{KeepsDb, KeepsDb-execute}
use trust_server.Storage.AuthRepo.{
  account_has_id, device_has_id, session_has_id, has_access, has_refresh, insert_account,
  insert_device, insert_session, update_tokens, set_revoked,
}
use trust_server.Server.Db.Conversations.{
  conversation_exists, account_exists, insert_conversation, insert_members, insert_pair,
}
use trust_server.Server.Db.Messages.{
  message_has_id, has_seq, bump_row, insert_hidden, insert_message, update_ciphertext, mark_deleted,
  delete_media,
}
use trust_server.Server.Db.Receipts.{advance, read_markers, delivered_markers}
use trust_server.Server.Db.Profiles.{write_profile, insert_blob}
use trust_server.Server.Db.Media.{Attachment, media_has_id, insert_media}

-- a statement's outcome, if it returns, has replaced one part of the tables
pub record Replaces {X A : Type 0} (set : X → Tables → Tables) (t : Tables)
    (r : Result SqlError (A × Tables)) : Type 0 where
  pub at : Outcome (λ _ t'. (x : X) × (t' ≡ set x t)) r

module _ {X A : Type 0} {set : X → Tables → Tables} {t : Tables} where
  Replaces-ok : (a : A) (x : X) → Replaces set t (ok (a, set x t))
  Replaces-ok a x = record { at = (x, refl) }

  Replaces-err : (e : SqlError) → Replaces {A = A} set t (err e)
  Replaces-err e = record { at = tt }

  Replaces-check :
      (c : Bool) (e : SqlError) (r : Result SqlError (A × Tables))
      → Replaces set t r
      → Replaces set t (check c e r)
  Replaces-check true e r h = h
  Replaces-check false e r h = Replaces-err e

  Replaces-if :
      (c : Bool) (r s : Result SqlError (A × Tables))
      → Replaces set t r
      → Replaces set t s
      → Replaces set t (if c then r else s)
  Replaces-if true r s hr hs = hr
  Replaces-if false r s hr hs = hs

abbrev pub Writes : {X A : Type 0} → (X → Tables → Tables) → Statement A → Type 0
Writes set q = (now : Time) (t : Tables) → Replaces set t (q now t)

replaced-keeps :
    {X A : Type 0} (P : Tables → Type 0) (set : X → Tables → Tables) (t : Tables)
    (r : Result SqlError (A × Tables))
    → Replaces set t r
    → ((x : X) → P (set x t))
    → Outcome (λ _ t'. P t') r
replaced-keeps P set t (ok (a, t')) h k = let (x, e) = h.at in subst P (sym e) (k x)
replaced-keeps P set t (err e) h k = tt

-- a property that does not depend on that part is kept
pub KeepsDb-writes :
    {X A : Type 0} {P : Tables → Type 0} (set : X → Tables → Tables) (q : Statement A)
    → Writes set q
    → ((x : X) (t : Tables) → P t → P (set x t))
    → KeepsDb P (execute q)
KeepsDb-writes {P} set q h k =
    KeepsDb-execute q λ now t p. replaced-keeps P set t (q now t) (h now t) λ x. k x t p

abbrev pub set_accounts : List Account → Tables → Tables
set_accounts xs t = record t { accounts = xs }

abbrev pub set_devices : List Device → Tables → Tables
set_devices xs t = record t { devices = xs }

abbrev pub set_sessions : List Session → Tables → Tables
set_sessions xs t = record t { sessions = xs }

abbrev pub set_conversations : List Conversation → Tables → Tables
set_conversations xs t = record t { conversations = xs }

abbrev pub set_members : List Member → Tables → Tables
set_members xs t = record t { conversation_members = xs }

abbrev pub set_pairs : List DmConversation → Tables → Tables
set_pairs xs t = record t { dm_conversations = xs }

abbrev pub set_messages : List Message → Tables → Tables
set_messages xs t = record t { messages = xs }

abbrev pub set_hidden : List Hidden → Tables → Tables
set_hidden xs t = record t { hidden_messages = xs }

abbrev pub set_read : List Marker → Tables → Tables
set_read xs t = record t { read_markers = xs }

abbrev pub set_delivered : List Marker → Tables → Tables
set_delivered xs t = record t { delivered_markers = xs }

abbrev pub set_profiles : List Profile → Tables → Tables
set_profiles xs t = record t { profiles = xs }

abbrev pub set_blobs : List Blob → Tables → Tables
set_blobs xs t = record t { blobs = xs }

abbrev pub set_media : List Media → Tables → Tables
set_media xs t = record t { media = xs }

pub insert_account-Writes :
    (id : Uuid) (name verifier : String) → Writes set_accounts (insert_account id name verifier)
insert_account-Writes id name verifier now t = Replaces-check _ _ _ (Replaces-ok _ _)

pub insert_device-Writes :
    (id account : Uuid) (name : String) (identity : Bytes)
    → Writes set_devices (insert_device id account name identity)
insert_device-Writes id account name identity now t =
    Replaces-check (not (any (device_has_id id) t.devices)) unique_violation _ (
      Replaces-check (any (account_has_id account) t.accounts) foreign_key_violation _
        (Replaces-ok _ _))

pub insert_session-Writes :
    (id device : Uuid) (access refresh : Bytes) (expires : Time)
    → Writes set_sessions (insert_session id device access refresh expires)
insert_session-Writes id device access refresh expires now t =
    Replaces-check
      (not (any (session_has_id id) t.sessions)
        && not (any (has_access access) t.sessions)
        && not (any (has_refresh refresh) t.sessions))
      unique_violation _
      (Replaces-check (any (device_has_id device) t.devices) foreign_key_violation _
        (Replaces-ok _ _))

pub update_tokens-Writes :
    (id : Uuid) (access refresh : Bytes) (expires : Time)
    → Writes set_sessions (update_tokens id access refresh expires)
update_tokens-Writes id access refresh expires now t = Replaces-check _ _ _ (Replaces-ok _ _)

pub set_revoked-Writes : (id : Uuid) → Writes set_sessions (set_revoked id)
set_revoked-Writes id now t = Replaces-ok _ _

pub insert_conversation-Writes : (cid : Uuid) → Writes set_conversations (insert_conversation cid)
insert_conversation-Writes cid now t = Replaces-check _ _ _ (Replaces-ok _ _)

pub insert_members-Writes : (cid lo hi : Uuid) → Writes set_members (insert_members cid lo hi)
insert_members-Writes cid lo hi now t = Replaces-check _ _ _ (Replaces-ok _ _)

pub insert_pair-Writes : (lo hi cid : Uuid) → Writes set_pairs (insert_pair lo hi cid)
insert_pair-Writes lo hi cid now t =
    Replaces-if _ _ _ (Replaces-ok _ _) (Replaces-check _ _ _ (Replaces-ok _ _))

pub bump_row-Writes :
    (cid : Uuid) (o : Option Conversation) → Writes set_conversations (bump_row cid o)
bump_row-Writes cid none now t = Replaces-err _
bump_row-Writes cid (some c) now t = Replaces-check _ _ _ (Replaces-ok _ _)

pub insert_message-Writes :
    (id cid : Uuid) (seq : ℕ) (account device : Uuid) (text : Bytes) (reply : Option Uuid)
    → Writes set_messages (insert_message id cid seq account device text reply)
insert_message-Writes id cid seq account device text reply now t =
    Replaces-check
      (not (any (message_has_id id) t.messages) && not (any (has_seq cid seq) t.messages))
      unique_violation _
      (Replaces-check (conversation_exists cid t && account_exists account t) foreign_key_violation
        _ (Replaces-ok _ _))

pub insert_hidden-Writes : (id account : Uuid) → Writes set_hidden (insert_hidden id account)
insert_hidden-Writes id account now t =
    Replaces-if _ _ _ (Replaces-ok _ _) (Replaces-check _ _ _ (Replaces-ok _ _))

pub update_ciphertext-Writes :
    (id account : Uuid) (text : Bytes) → Writes set_messages (update_ciphertext id account text)
update_ciphertext-Writes id account text now t = Replaces-ok _ _

pub mark_deleted-Writes : (id account : Uuid) → Writes set_messages (mark_deleted id account)
mark_deleted-Writes id account now t = Replaces-ok _ _

pub delete_media-Writes : (id : Uuid) → Writes set_media (delete_media id)
delete_media-Writes id now t = Replaces-ok _ _

pub advance_read-Writes : (cid account : Uuid) → Writes set_read (advance read_markers cid account)
advance_read-Writes cid account now t = Replaces-check _ _ _ (Replaces-ok _ _)

pub advance_delivered-Writes :
    (cid account : Uuid) → Writes set_delivered (advance delivered_markers cid account)
advance_delivered-Writes cid account now t = Replaces-check _ _ _ (Replaces-ok _ _)

pub write_profile-Writes :
    (account : Uuid) (change : Profile → Profile)
    → Writes set_profiles (write_profile account change)
write_profile-Writes account change now t = Replaces-check _ _ _ (Replaces-ok _ _)

pub insert_blob-Writes :
    (id : Uuid) (content_type : String) (bytes : Bytes)
    → Writes set_blobs (insert_blob id content_type bytes)
insert_blob-Writes id content_type bytes now t = Replaces-check _ _ _ (Replaces-ok _ _)

pub insert_media-Writes :
    (id cid message account : Uuid) (seq : ℕ) (a : Attachment)
    → Writes set_media (insert_media id cid message account seq a)
insert_media-Writes id cid message account seq a now t =
    Replaces-check (not (any (media_has_id id) t.media)) unique_violation _ (
      Replaces-check (conversation_exists cid t && account_exists account t) foreign_key_violation _
        (Replaces-ok _ _))
