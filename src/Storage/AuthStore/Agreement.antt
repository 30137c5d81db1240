-- ===== src/Storage/AuthStore/Agreement.antt =====
-- The claim of crates/storage/src/auth_store.rs that both stores satisfy the trait identically.
use trust_server.Common.{
  ◌≡◌, true, false, arith, any, Distinct, is_none, modify_first-eq-modify_all,
}
use trust_server.Common.Sorting.{sort_by}
use trust_server.Exec.{Result, ok, err}
use trust_server.Storage.Tables.{Tables}
use trust_server.Storage.Outside.{unique_violation}
use trust_server.Storage.Backend.{Backend}
use trust_server.Storage.Errors.{StorageError, sqlx, conflict}
use trust_server.Storage.AuthRepo
use trust_server.Storage.AuthRepo.{
  account_has_id, device_has_id, session_has_id, has_access, has_refresh, clashes,
}
use trust_server.Storage.MemoryStore.{MemoryAuthStore}
use trust_server.Storage.AuthStore.{Call, Reply, pg_store, memory_store}

-- the in-memory store that holds the rows of the database
abbrev pub memory_of : Tables → MemoryAuthStore
memory_of t = record { accounts = t.accounts; devices = t.devices; sessions = t.sessions }

-- the errors that clients see as a conflict
abbrev IsConflict : StorageError → Type 0
IsConflict (sqlx unique_violation) = Unit
IsConflict (conflict m) = Unit
IsConflict e = ⊥

abbrev pub Agree : Result StorageError Reply → Result StorageError Reply → Type 0
Agree (ok a) (ok b) = a ≡ b
Agree (err e) (err f) = IsConflict e × IsConflict f
Agree r s = ⊥

-- What the database checks and the in-memory store leaves to its caller.
abbrev pub Allowed : Call → Backend → Type 0
Allowed (Call.create_account id u v) b = any (account_has_id id) b.tables.accounts ≡ false
Allowed (Call.create_device id a n p) b =
    (any (device_has_id id) b.tables.devices ≡ false)
    × (any (account_has_id a) b.tables.accounts ≡ true)
Allowed (Call.create_session id d a r e) b =
    (any (session_has_id id) b.tables.sessions ≡ false)
    × (any (has_access a) b.tables.sessions ≡ false)
    × (any (has_refresh r) b.tables.sessions ≡ false)
    × (any (device_has_id d) b.tables.devices ≡ true)
Allowed (Call.rotate_session id a r e) b =
    (any (clashes id a r) b.tables.sessions ≡ false) × Distinct (λ s. s.id) b.tables.sessions
Allowed (Call.revoke_session id) b = Distinct (λ s. s.id) b.tables.sessions
Allowed Call.list_accounts b =
    sort_by (λ x y. b.outside.collation x.username y.username) b.tables.accounts ≡ b.tables.accounts
Allowed c b = Unit

-- A statement that reaches the database leaves the stores with the same rows, and both answer the
-- same, or both report a conflict, whenever the ids and hashes are new, the rows referred to exist,
-- the session ids are distinct and, for `list_accounts`, the accounts already stand in the
-- database's order.
pub stores-Agree :
    (c : Call) (b : Backend)
    → b.outside.fault b.calls ≡ false
    → Allowed c b
    → let (r, m) = memory_store (b.outside.clock b.calls) c (memory_of b.tables) in
      let (s, b') = pg_store c b in Agree r s × (m ≡ memory_of b'.tables)
unfolding memory_store pg_store
stores-Agree (Call.create_account id u v) b up h = ground arith
stores-Agree (Call.rotate_session id a r e) b up h = ground (
  arith,
  modify_first-eq-modify_all (λ s. s.id) id (λ _. true) (AuthRepo.with_tokens a r e)
      b.tables.sessions,
)
stores-Agree (Call.revoke_session id) b up h = ground (
  arith,
  modify_first-eq-modify_all (λ s. s.id) id (λ s. is_none s.revoked_at)
      (AuthRepo.revoked (b.outside.clock b.calls)) b.tables.sessions,
)
stores-Agree Call.list_accounts b up h = ground arith
stores-Agree (Call.create_device id a n p) b up h = ground arith
stores-Agree (Call.create_session id d a r e) b up h = ground arith
stores-Agree (Call.find_account_by_username u) b up h = ground arith
stores-Agree (Call.find_live_session_by_access_hash u) b up h = ground arith
stores-Agree (Call.find_live_session_by_refresh_hash u) b up h = ground arith
stores-Agree (Call.find_device_by_id u) b up h = ground arith
stores-Agree (Call.list_devices_for_account u) b up h = ground arith
