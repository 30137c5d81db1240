-- ===== src/Server/Auth/Issue.antt =====
-- The token pairs that `issue_session` of crates/server/src/auth.rs gives out.
use Prim.Native.String.{◌++◌ as join}
use trust_server.Common.{
  ℕ, suc, ◌+◌, ◌<◌, ◌≡◌, refl, sym, String, Bool, true, false, not, ◌&&◌, none, some, List, [], ◌∷◌,
  ◌++◌, arith, any, any-find?, find?, find?-append, Bool-cases, inl, inr, bytes_eq_refl,
}
use trust_server.Exec.{ok}
use trust_server.Protocol.Rest.{TokenPair}
use trust_server.Storage.Models.{Uuid, Time, Bytes, Device, Session}
use trust_server.Storage.AuthRepo
use trust_server.Storage.AuthRepo.{
  session_has_id, device_has_id, has_access, has_refresh, live_access,
}
use trust_server.Storage.Backend.{execute}
use trust_server.Server.World.{World}
use trust_server.Server.Auth.{
  issue_session, authed_from_token, device_of_token, account_of_device, access_ttl, new_token,
}
use trust_server.Server.Auth.Sessions.{dead-access}

-- the session that is stored last is the live one with its access hash
last_is_live :
    (hash : Bytes) (now : Time) (s : Session) (xs : List Session)
    → any (has_access hash) xs ≡ false
    → s.access_token_hash ≡ hash
    → s.revoked_at ≡ none
    → now < s.expires_at
    → find? (live_access hash now) (xs ++ s ∷ []) ≡ some s
last_is_live hash now s xs new h r l =
    let own : live_access hash now s ≡ true = rw (h, bytes_eq_refl hash, r) (ground arith) in
    ground (arith, find?-append (live_access hash now) xs (s ∷ []), dead-access hash now xs)

-- the token's device is found, and its account
authed_from_token-live :
    (token : String) (s : Session) (d : Device) (w : World)
    → ((n : ℕ) → w.backend.outside.fault n ≡ false)
    → find?
        (live_access (w.backend.outside.sha256 token) (w.backend.outside.clock w.backend.calls))
        w.backend.tables.sessions
      ≡ some s
    → find? (device_has_id s.device_id) w.backend.tables.devices ≡ some d
    → (authed_from_token token w).0 ≡ ok (d.account_id, s.device_id)
unfolding authed_from_token device_of_token account_of_device
    AuthRepo.find_live_session_by_access_hash AuthRepo.find_device_by_id execute
authed_from_token-live token s d w up f e =
    rw (up w.backend.calls, f, up (suc w.backend.calls), e) refl

-- A token pair that has been issued for a device opens that device and its account, as long as its
-- hour has not passed.
pub issue_session-authed :
    (device : Uuid) (d : Device) (tokens : TokenPair) (w : World)
    → ((n : ℕ) → w.backend.outside.fault n ≡ false)
    → find? (device_has_id device) w.backend.tables.devices ≡ some d
    → (issue_session device w).0 ≡ ok tokens
    → w.backend.outside.clock (issue_session device w).1.backend.calls
      < w.backend.outside.clock (suc (suc w.backend.calls)) + access_ttl
    → (authed_from_token tokens.access_token (issue_session device w).1).0
      ≡ ok (d.account_id, device)
unfolding issue_session new_token AuthRepo.create_session execute
issue_session-authed device d tokens w up f e l = elim (Bool-cases new) [
  | inr c ↦ let bad = rw (up (suc (suc (suc (suc w.backend.calls)))), c) at e in cc
  | inl c ↦
      let given = rw (up (suc (suc (suc (suc w.backend.calls)))), c, there) at e in
      let same : access ≡ tokens.access_token = cc in
      let later = rw (up (suc (suc (suc (suc w.backend.calls)))), c, there) at l in
      rw (sym same, up (suc (suc (suc (suc w.backend.calls)))), c, there)
        (authed_from_token-live access row d after up
          (last_is_live (w.backend.outside.sha256 access)
            (w.backend.outside.clock after.backend.calls) row w.backend.tables.sessions
            (ground arith) refl refl later)
          f)
]
  where
    access : String
    access = join "tka_" (w.backend.outside.base64_url (w.backend.outside.random w.backend.calls))

    refresh : String
    refresh =
        join "tkr_" (w.backend.outside.base64_url (w.backend.outside.random (suc w.backend.calls)))

    row : Session
    row = record {
      id = w.backend.outside.random (suc (suc (suc w.backend.calls)));
      device_id = device;
      access_token_hash = w.backend.outside.sha256 access;
      refresh_token_hash = w.backend.outside.sha256 refresh;
      expires_at = w.backend.outside.clock (suc (suc w.backend.calls)) + access_ttl;
      revoked_at = none;
      created_at = w.backend.outside.clock (suc (suc (suc (suc w.backend.calls))));
    }

    new : Bool
    new =
        not (any (session_has_id row.id) w.backend.tables.sessions)
        && not (any (has_access row.access_token_hash) w.backend.tables.sessions)
        && not (any (has_refresh row.refresh_token_hash) w.backend.tables.sessions)

    there : any (device_has_id device) w.backend.tables.devices ≡ true
    there = ground (arith, any-find? (device_has_id device) w.backend.tables.devices)

    after : World
    after = record w {
      backend = record w.backend {
        calls = suc (suc (suc (suc (suc w.backend.calls))));
        tables = record w.backend.tables { sessions = w.backend.tables.sessions ++ row ∷ [] };
      };
    }

-- the id and the hashes that `issue_session` draws are not those of a session
abbrev pub draws_new : World → Bool
draws_new w =
    let o = w.backend.outside in
    let n = w.backend.calls in
    not (any (session_has_id (o.random (suc (suc (suc n))))) w.backend.tables.sessions)
    && not (
        any (has_access (o.sha256 (join "tka_" (o.base64_url (o.random n)))))
          w.backend.tables.sessions)
    && not (
        any (has_refresh (o.sha256 (join "tkr_" (o.base64_url (o.random (suc n))))))
          w.backend.tables.sessions)

-- a session is all that `issue_session` writes
pub issue_session-keeps :
    (d : Uuid) (w : World)
    → (k : ℕ) × (ss : List Session) × ((issue_session d w).1 ≡ record w {
      backend = record w.backend { calls = k; tables = record w.backend.tables { sessions = ss } };
    })
unfolding issue_session new_token AuthRepo.create_session execute
issue_session-keeps d w =
    elim (Bool-cases (w.backend.outside.fault (suc (suc (suc (suc w.backend.calls)))))) [
      | inl down ↦ rw down (_, _, refl)
      | inr up ↦ elim (Bool-cases (draws_new w)) [
        | inr c ↦ rw (up, c) (_, _, refl)
        | inl c ↦ elim (Bool-cases (any (device_has_id d) w.backend.tables.devices)) [
          | inr u ↦ rw (up, c, u) (_, _, refl)
          | inl u ↦ rw (up, c, u) (_, _, refl)
        ]
      ]
    ]

pub issue_session-returns :
    (d : Uuid) (w : World)
    → w.backend.outside.fault (suc (suc (suc (suc w.backend.calls)))) ≡ false
    → draws_new w ≡ true
    → any (device_has_id d) w.backend.tables.devices ≡ true
    → (tokens : TokenPair) × ((issue_session d w).0 ≡ ok tokens)
unfolding issue_session new_token AuthRepo.create_session execute
issue_session-returns d w up c u = rw (up, c, u) (_, refl)
