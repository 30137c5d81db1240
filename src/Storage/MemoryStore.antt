-- ===== src/Storage/MemoryStore.antt =====
-- `MemoryAuthStore` of crates/storage/src/auth_store.rs. It reads the clock itself: `now` is what
-- it reads. Its locks are held for one method at a time, so a method is one step.
use trust_server.Common.{
  String, Option, none, List, [], ◌∷◌, ◌++◌, any, filter, find?, modify_first, is_none,
  if◌then◌else◌,
}
use trust_server.Exec.{Exec, ok, err}
use trust_server.Storage.Models.{Uuid, Time, Bytes, Account, Device, Session}
use trust_server.Storage.Errors.{StorageError, conflict}
use trust_server.Storage.AuthRepo.{
  account_has_name, device_has_id, session_has_id, live_access, live_refresh, with_tokens,
  active_device_of, revoked,
}

pub record MemoryAuthStore : Type 0 where
  pub accounts : List Account
  pub devices : List Device
  pub sessions : List Session

abbrev pub new : MemoryAuthStore
new = record { accounts = []; devices = []; sessions = [] }

abbrev pub export : MemoryAuthStore → List Account × List Device × List Session
export m = (m.accounts, m.devices, m.sessions)

abbrev pub import : List Account → List Device → List Session → MemoryAuthStore → MemoryAuthStore
import accounts devices sessions m = record {
  accounts = accounts;
  devices = devices;
  sessions = sessions;
}

abbrev pub InMemory : Type 0 → Type 0
InMemory = Exec MemoryAuthStore StorageError

unfoldable pub create_account : Time → Uuid → String → String → InMemory Account
create_account now id username verifier m =
    let account : Account = record {
      id = id;
      username = username;
      password_verifier = verifier;
      created_at = now;
    } in
    if any (account_has_name username) m.accounts
    then (err (conflict "username taken"), m)
    else (ok account, record m { accounts = m.accounts ++ account ∷ [] })

unfoldable pub find_account_by_username : String → InMemory (Option Account)
find_account_by_username username m = (ok (find? (account_has_name username) m.accounts), m)

unfoldable pub create_device : Time → Uuid → Uuid → String → Bytes → InMemory Device
create_device now id account_id display_name public_identity m =
    let device : Device = record {
      id = id;
      account_id = account_id;
      display_name = display_name;
      public_identity = public_identity;
      created_at = now;
      revoked_at = none;
    } in
    (ok device, record m { devices = m.devices ++ device ∷ [] })

unfoldable pub create_session : Time → Uuid → Uuid → Bytes → Bytes → Time → InMemory Session
create_session now id device_id access_hash refresh_hash expires_at m =
    let session : Session = record {
      id = id;
      device_id = device_id;
      access_token_hash = access_hash;
      refresh_token_hash = refresh_hash;
      expires_at = expires_at;
      revoked_at = none;
      created_at = now;
    } in
    (ok session, record m { sessions = m.sessions ++ session ∷ [] })

unfoldable pub find_live_session_by_access_hash : Time → Bytes → InMemory (Option Session)
find_live_session_by_access_hash now hash m = (ok (find? (live_access hash now) m.sessions), m)

unfoldable pub find_live_session_by_refresh_hash : Bytes → InMemory (Option Session)
find_live_session_by_refresh_hash hash m = (ok (find? (live_refresh hash) m.sessions), m)

unfoldable pub rotate_session : Uuid → Bytes → Bytes → Time → InMemory (Unit {0})
rotate_session id access_hash refresh_hash expires_at m = (
  ok tt,
  record m {
    sessions =
        modify_first (session_has_id id) (with_tokens access_hash refresh_hash expires_at)
          m.sessions;
  },
)

abbrev pub revoke_once : Time → Session → Session
revoke_once now s = if is_none s.revoked_at then revoked now s else s

unfoldable pub revoke_session : Time → Uuid → InMemory (Unit {0})
revoke_session now id m =
    (ok tt, record m { sessions = modify_first (session_has_id id) (revoke_once now) m.sessions })

unfoldable pub list_accounts : InMemory (List Account)
list_accounts m = (ok m.accounts, m)

unfoldable pub find_device_by_id : Uuid → InMemory (Option Device)
find_device_by_id id m = (ok (find? (device_has_id id) m.devices), m)

unfoldable pub list_devices_for_account : Uuid → InMemory (List Device)
list_devices_for_account account_id m = (ok (filter (active_device_of account_id) m.devices), m)
