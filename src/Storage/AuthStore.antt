-- ===== src/Storage/AuthStore.antt =====
-- The trait `AuthStore` of crates/storage/src/auth_store.rs, as its calls and replies, and how the
-- two stores dispatch them.
pub mod Agreement
use trust_server.Common.{ℕ, String, Option, List}
use trust_server.Exec.{Exec, map_ok}
use trust_server.Storage.Models.{Uuid, Time, Bytes, Account, Device, Session}
use trust_server.Storage.AuthRepo
use trust_server.Storage.AuthRepo.{Stored}
use trust_server.Storage.MemoryStore
use trust_server.Storage.MemoryStore.{InMemory}

-- The methods of the trait, and what they return.
pub data Call : Type 0 where
  create_account : Uuid → String → String → Call
  find_account_by_username : String → Call
  create_device : Uuid → Uuid → String → Bytes → Call
  create_session : Uuid → Uuid → Bytes → Bytes → Time → Call
  find_live_session_by_access_hash find_live_session_by_refresh_hash : Bytes → Call
  rotate_session : Uuid → Bytes → Bytes → Time → Call
  revoke_session : Uuid → Call
  list_accounts : Call
  find_device_by_id list_devices_for_account : Uuid → Call

pub data Reply : Type 0 where
  account : Account → Reply
  maybe_account : Option Account → Reply
  accounts : List Account → Reply
  device : Device → Reply
  maybe_device : Option Device → Reply
  devices : List Device → Reply
  session : Session → Reply
  maybe_session : Option Session → Reply
  done : Reply

abbrev pub reply_with : {S E A : Type 0} → (A → Reply) → Exec S E A → Exec S E Reply
reply_with f m s = let (r, s') = m s in (map_ok f r, s')

-- `impl AuthStore for PgAuthStore`
unfoldable pub pg_store : Call → Stored Reply
unfolding AuthRepo.create_account AuthRepo.find_account_by_username AuthRepo.create_device
    AuthRepo.create_session AuthRepo.find_live_session_by_access_hash
    AuthRepo.find_live_session_by_refresh_hash AuthRepo.rotate_session AuthRepo.revoke_session
    AuthRepo.list_accounts AuthRepo.find_device_by_id AuthRepo.list_devices_for_account
pg_store (create_account id u v) = reply_with account (AuthRepo.create_account id u v)
pg_store (find_account_by_username u) =
    reply_with maybe_account (AuthRepo.find_account_by_username u)
pg_store (create_device id a n p) = reply_with device (AuthRepo.create_device id a n p)
pg_store (create_session id d a r e) = reply_with session (AuthRepo.create_session id d a r e)
pg_store (find_live_session_by_access_hash h) =
    reply_with maybe_session (AuthRepo.find_live_session_by_access_hash h)
pg_store (find_live_session_by_refresh_hash h) =
    reply_with maybe_session (AuthRepo.find_live_session_by_refresh_hash h)
pg_store (rotate_session id a r e) = reply_with (λ _. done) (AuthRepo.rotate_session id a r e)
pg_store (revoke_session id) = reply_with (λ _. done) (AuthRepo.revoke_session id)
pg_store list_accounts = reply_with accounts AuthRepo.list_accounts
pg_store (find_device_by_id id) = reply_with maybe_device (AuthRepo.find_device_by_id id)
pg_store (list_devices_for_account a) = reply_with devices (AuthRepo.list_devices_for_account a)

-- `impl AuthStore for MemoryAuthStore`
unfoldable pub memory_store : Time → Call → InMemory Reply
unfolding MemoryStore.create_account MemoryStore.find_account_by_username MemoryStore.create_device
    MemoryStore.create_session MemoryStore.find_live_session_by_access_hash
    MemoryStore.find_live_session_by_refresh_hash MemoryStore.rotate_session
    MemoryStore.revoke_session MemoryStore.list_accounts MemoryStore.find_device_by_id
    MemoryStore.list_devices_for_account
memory_store now (create_account id u v) =
    reply_with account (MemoryStore.create_account now id u v)
memory_store now (find_account_by_username u) =
    reply_with maybe_account (MemoryStore.find_account_by_username u)
memory_store now (create_device id a n p) =
    reply_with device (MemoryStore.create_device now id a n p)
memory_store now (create_session id d a r e) =
    reply_with session (MemoryStore.create_session now id d a r e)
memory_store now (find_live_session_by_access_hash h) =
    reply_with maybe_session (MemoryStore.find_live_session_by_access_hash now h)
memory_store now (find_live_session_by_refresh_hash h) =
    reply_with maybe_session (MemoryStore.find_live_session_by_refresh_hash h)
memory_store now (rotate_session id a r e) =
    reply_with (λ _. done) (MemoryStore.rotate_session id a r e)
memory_store now (revoke_session id) = reply_with (λ _. done) (MemoryStore.revoke_session now id)
memory_store now list_accounts = reply_with accounts MemoryStore.list_accounts
memory_store now (find_device_by_id id) = reply_with maybe_device (MemoryStore.find_device_by_id id)
memory_store now (list_devices_for_account a) =
    reply_with devices (MemoryStore.list_devices_for_account a)
