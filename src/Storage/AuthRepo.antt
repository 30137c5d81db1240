-- ===== src/Storage/AuthRepo.antt =====
-- crates/storage/src/auth_repo.rs: each query with the constraints that the migrations put on its
-- table. Rows are never deleted from these tables.
use trust_server.Common.{
  String, Bool, not, ◌&&◌, ◌||◌, Option, none, some, List, [], ◌∷◌, ◌++◌, any, filter, find?,
  modify_all, ltb, ◌==◌, is_none, bytes_eq,
}
use trust_server.Common.Sorting.{sort_by}
use trust_server.Common.Text.{str_eq}
use trust_server.Exec.{Exec, ok}
use trust_server.Storage.Models.{Uuid, Time, Bytes, Account, Device, Session}
use trust_server.Storage.Outside.{unique_violation, foreign_key_violation}
use trust_server.Storage.Backend.{Backend, Statement, execute, select, check}
use trust_server.Storage.Errors.{StorageError, stored}

abbrev pub Stored : Type 0 → Type 0
Stored = Exec Backend StorageError

abbrev pub account_has_id : Uuid → Account → Bool
account_has_id id a = a.id == id

abbrev pub account_has_name : String → Account → Bool
account_has_name username a = str_eq a.username username

abbrev pub device_has_id : Uuid → Device → Bool
device_has_id id d = d.id == id

abbrev pub session_has_id : Uuid → Session → Bool
session_has_id id s = s.id == id

abbrev pub has_access : Bytes → Session → Bool
has_access hash s = bytes_eq s.access_token_hash hash

abbrev pub has_refresh : Bytes → Session → Bool
has_refresh hash s = bytes_eq s.refresh_token_hash hash

-- `WHERE access_token_hash = $1 AND revoked_at IS NULL AND expires_at > now()`
abbrev pub live_access : Bytes → Time → Session → Bool
live_access hash now s = has_access hash s && is_none s.revoked_at && ltb now s.expires_at

-- `WHERE refresh_token_hash = $1 AND revoked_at IS NULL`
abbrev pub live_refresh : Bytes → Session → Bool
live_refresh hash s = has_refresh hash s && is_none s.revoked_at

abbrev pub insert_account : Uuid → String → String → Statement Account
insert_account id username verifier now t =
    let row : Account = record {
      id = id;
      username = username;
      password_verifier = verifier;
      created_at = now;
    } in
    check
      (not (any (account_has_id id) t.accounts) && not (any (account_has_name username) t.accounts))
      unique_violation (ok (row, record t { accounts = t.accounts ++ row ∷ [] }))

unfoldable pub create_account : Uuid → String → String → Stored Account
unfolding execute
create_account id username verifier = stored (execute (insert_account id username verifier))

unfoldable pub find_account_by_username : String → Stored (Option Account)
unfolding execute
find_account_by_username username =
    stored (execute (select (λ t. find? (account_has_name username) t.accounts)))

abbrev pub insert_device : Uuid → Uuid → String → Bytes → Statement Device
insert_device id account_id display_name public_identity now t =
    let row : Device = record {
      id = id;
      account_id = account_id;
      display_name = display_name;
      public_identity = public_identity;
      created_at = now;
      revoked_at = none;
    } in
    check (not (any (device_has_id id) t.devices)) unique_violation (
      check (any (account_has_id account_id) t.accounts) foreign_key_violation
        (ok (row, record t { devices = t.devices ++ row ∷ [] })))

unfoldable pub create_device : Uuid → Uuid → String → Bytes → Stored Device
unfolding execute
create_device id account_id display_name public_identity =
    stored (execute (insert_device id account_id display_name public_identity))

abbrev pub insert_session : Uuid → Uuid → Bytes → Bytes → Time → Statement Session
insert_session id device_id access_hash refresh_hash expires_at now t =
    let row : Session = record {
      id = id;
      device_id = device_id;
      access_token_hash = access_hash;
      refresh_token_hash = refresh_hash;
      expires_at = expires_at;
      revoked_at = none;
      created_at = now;
    } in
    check
      (not (any (session_has_id id) t.sessions)
        && not (any (has_access access_hash) t.sessions)
        && not (any (has_refresh refresh_hash) t.sessions))
      unique_violation
      (check (any (device_has_id device_id) t.devices) foreign_key_violation
        (ok (row, record t { sessions = t.sessions ++ row ∷ [] })))

unfoldable pub create_session : Uuid → Uuid → Bytes → Bytes → Time → Stored Session
unfolding execute
create_session id device_id access_hash refresh_hash expires_at =
    stored (execute (insert_session id device_id access_hash refresh_hash expires_at))

unfoldable pub find_live_session_by_access_hash : Bytes → Stored (Option Session)
unfolding execute
find_live_session_by_access_hash hash =
    stored (execute (λ now t. ok (find? (live_access hash now) t.sessions, t)))

unfoldable pub find_live_session_by_refresh_hash : Bytes → Stored (Option Session)
unfolding execute
find_live_session_by_refresh_hash hash =
    stored (execute (select (λ t. find? (live_refresh hash) t.sessions)))

abbrev pub with_tokens : Bytes → Bytes → Time → Session → Session
with_tokens access_hash refresh_hash expires_at s = record s {
  access_token_hash = access_hash;
  refresh_token_hash = refresh_hash;
  expires_at = expires_at;
}

-- another session that holds one of the new hashes breaks a unique constraint, if there is a row
-- to update
abbrev pub clashes : Uuid → Bytes → Bytes → Session → Bool
clashes id access_hash refresh_hash s =
    not (session_has_id id s) && (has_access access_hash s || has_refresh refresh_hash s)

abbrev pub update_tokens : Uuid → Bytes → Bytes → Time → Statement (Unit {0})
update_tokens id access_hash refresh_hash expires_at now t =
    check
      (not (
        any (session_has_id id) t.sessions && any (clashes id access_hash refresh_hash) t.sessions))
      unique_violation
      (ok (
        tt,
        record t {
          sessions =
              modify_all (session_has_id id) (with_tokens access_hash refresh_hash expires_at)
                t.sessions;
        },
      ))

unfoldable pub rotate_session : Uuid → Bytes → Bytes → Time → Stored (Unit {0})
unfolding execute
rotate_session id access_hash refresh_hash expires_at =
    stored (execute (update_tokens id access_hash refresh_hash expires_at))

-- `SELECT … FROM accounts ORDER BY username`
unfoldable pub list_accounts : Stored (List Account)
unfolding execute
list_accounts b =
    stored
      (execute
        (select (λ t. sort_by (λ x y. b.outside.collation x.username y.username) t.accounts)))
      b

unfoldable pub find_device_by_id : Uuid → Stored (Option Device)
unfolding execute
find_device_by_id id = stored (execute (select (λ t. find? (device_has_id id) t.devices)))

-- `WHERE account_id = $1 AND revoked_at IS NULL`
abbrev pub active_device_of : Uuid → Device → Bool
active_device_of account_id d = d.account_id == account_id && is_none d.revoked_at

unfoldable pub list_devices_for_account : Uuid → Stored (List Device)
unfolding execute
list_devices_for_account account_id =
    stored (execute (select (λ t. filter (active_device_of account_id) t.devices)))

abbrev pub revoked : Time → Session → Session
revoked now s = record s { revoked_at = some now }

-- `WHERE id = $1 AND revoked_at IS NULL`
abbrev pub set_revoked : Uuid → Statement (Unit {0})
set_revoked id now t = ok (
  tt,
  record t {
    sessions =
        modify_all (λ s. session_has_id id s && is_none s.revoked_at) (revoked now) t.sessions;
  },
)

unfoldable pub revoke_session : Uuid → Stored (Unit {0})
unfolding execute
revoke_session id = stored (execute (set_revoked id))
