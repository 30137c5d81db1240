-- ===== src/Server/Auth/Twice.antt =====
-- Two calls of `refresh` (crates/server/src/auth.rs) with one token, interleaved: both look the
-- session up before either of them rotates it.
pub mod Rows
pub mod Outcome
use Prim.Native.String.{◌++◌ as join}
use trust_server.Common.{
  ℕ, suc, ◌+◌, ◌≡◌, refl, String, Bool, true, false, not, ◌&&◌, none, some, List, [], ◌∷◌, arith,
  any, find?, modify_all, bytes_eq, Bool-cases, Option-cases, inl, inr,
}
use trust_server.Exec.{ok, err, pure, ok_or, ◌>>=◌, ◌>>◌}
use trust_server.Protocol.Rest.{RefreshRequest, TokenPair}
use trust_server.Storage.Models.{Uuid, Time, Bytes, Session}
use trust_server.Storage.AuthRepo
use trust_server.Storage.AuthRepo.{
  session_has_id, has_access, has_refresh, live_access, live_refresh, with_tokens, clashes,
}
use trust_server.Storage.Backend.{execute}
use trust_server.Server.Error.{unauthorized}
use trust_server.Server.World.{World, App, auth, now_utc, called}
use trust_server.Server.Auth.{
  refresh, new_token, hash_token, access_ttl, access_ttl_seconds, authed_from_token,
  device_of_token,
}
use trust_server.Server.Auth.Sessions.{dead-access}
use trust_server.Server.Auth.Refresh.{dead-refresh, refresh-unknown}

-- the first statement of `refresh`, and the rest of it
unfoldable pub look_up : String → App Session
look_up token = do
  hash ← hash_token token
  found ← auth (AuthRepo.find_live_session_by_refresh_hash hash)
  ok_or found (unauthorized "invalid refresh token")

unfoldable pub rotate : Session → App TokenPair
unfolding new_token
rotate session = do
  access ← new_token "tka_"
  refresh_token ← new_token "tkr_"
  now ← now_utc
  access_hash ← hash_token access
  refresh_hash ← hash_token refresh_token
  auth (AuthRepo.rotate_session session.id access_hash refresh_hash (now + access_ttl))
  pure (record {
    access_token = access;
    refresh_token = refresh_token;
    expires_in = access_ttl_seconds;
  })

-- one after the other they are the handler
pub refresh-look_up-rotate :
    (req : RefreshRequest) (w : World)
    → refresh req w ≡ (do session ← look_up req.refresh_token; rotate session) w
unfolding refresh look_up rotate AuthRepo.find_live_session_by_refresh_hash execute
refresh-look_up-rotate req w = elim (Bool-cases (w.backend.outside.fault w.backend.calls)) [
  | inl down ↦ rw down refl
  | inr up ↦
      elim (Option-cases (
        find? (live_refresh (w.backend.outside.sha256 req.refresh_token))
          w.backend.tables.sessions)) [ inl f ↦ rw (up, f) refl | inr (s, f) ↦ rw (up, f) refl ]
]

unfoldable pub interleaved : String → App (TokenPair × TokenPair)
unfolding look_up rotate
interleaved token = do
  first ← look_up token
  second ← look_up token
  t ← rotate first
  u ← rotate second
  pure (t, u)

-- the tokens of the pairs, by the call that drew their bits
abbrev pub access_at : World → ℕ → String
access_at w n = join "tka_" (w.backend.outside.base64_url (w.backend.outside.random n))

abbrev pub refresh_at : World → ℕ → String
refresh_at w n = join "tkr_" (w.backend.outside.base64_url (w.backend.outside.random n))

abbrev pub pair_at : World → ℕ → TokenPair
pair_at w n = record {
  access_token = access_at w n;
  refresh_token = refresh_at w (suc n);
  expires_in = access_ttl_seconds;
}

-- the call of the outside at which each rotation begins, after the two look-ups
abbrev pub earlier : World → ℕ
earlier w = suc (suc w.backend.calls)

abbrev pub later : World → ℕ
later w = suc (suc (suc (suc (earlier w))))

-- no session has the hashes of the pair
abbrev pub unused_at : World → ℕ → Bool
unused_at w n =
    not (any (has_access (w.backend.outside.sha256 (access_at w n))) w.backend.tables.sessions)
    && not (
        any (has_refresh (w.backend.outside.sha256 (refresh_at w (suc n))))
          w.backend.tables.sessions)
