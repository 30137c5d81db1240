-- ===== src/Server/Auth/Twice/Outcome.antt =====
-- What two interleaved calls of `refresh` (crates/server/src/auth.rs) return, and which of the
-- tokens open something afterwards.
use trust_server.Common.{
  ℕ, suc, ◌+◌, ◌≡◌, refl, String, Bool, true, false, ◌&&◌, none, some, List, arith, any, find?,
  modify_all, bytes_eq,
}
use trust_server.Exec.{ok, err}
use trust_server.Storage.Models.{Uuid, Session}
use trust_server.Storage.AuthRepo
use trust_server.Storage.AuthRepo.{
  session_has_id, has_access, has_refresh, live_access, live_refresh, with_tokens, clashes,
}
use trust_server.Storage.Backend.{execute}
use trust_server.Server.Error.{unauthorized}
use trust_server.Server.World.{World, called}
use trust_server.Server.Auth.{refresh, new_token, access_ttl, authed_from_token, device_of_token}
use trust_server.Server.Auth.Sessions.{dead-access}
use trust_server.Server.Auth.Refresh.{dead-refresh, refresh-unknown}
use trust_server.Server.Auth.Twice.{
  look_up, rotate, interleaved, access_at, refresh_at, pair_at, earlier, later, unused_at,
}
use trust_server.Server.Auth.Twice.Rows.{no_clash, no_clash-rotated, access_gone, refresh_gone}

look_up-finds :
    (token : String) (w : World) (s : Session)
    → w.backend.outside.fault w.backend.calls ≡ false
    → find? (live_refresh (w.backend.outside.sha256 token)) w.backend.tables.sessions ≡ some s
    → look_up token w ≡ (ok s, called w)
unfolding look_up AuthRepo.find_live_session_by_refresh_hash execute
look_up-finds token w s up f = rw (up, f) refl

-- the sessions once the pair that is drawn at a call has been written
abbrev written_at : World → Uuid → ℕ → List Session → List Session
written_at w id k xs =
    modify_all (session_has_id id)
      (with_tokens (w.backend.outside.sha256 (access_at w k))
        (w.backend.outside.sha256 (refresh_at w (suc k)))
        (w.backend.outside.clock (suc (suc k)) + access_ttl))
      xs

abbrev clash_at : World → Uuid → ℕ → List Session → Bool
clash_at w id k xs =
    any (session_has_id id) xs
    && any
        (clashes id (w.backend.outside.sha256 (access_at w k))
          (w.backend.outside.sha256 (refresh_at w (suc k))))
        xs

abbrev rotated : World → Uuid → World
rotated w id =
    let n = w.backend.calls in
    record w {
      backend = record w.backend {
        calls = suc (suc (suc (suc n)));
        tables = record w.backend.tables { sessions = written_at w id n w.backend.tables.sessions };
      };
    }

rotate-writes :
    (s : Session) (w : World)
    → w.backend.outside.fault (suc (suc (suc w.backend.calls))) ≡ false
    → clash_at w s.id w.backend.calls w.backend.tables.sessions ≡ false
    → rotate s w ≡ (ok (pair_at w w.backend.calls), rotated w s.id)
unfolding rotate new_token AuthRepo.rotate_session execute
rotate-writes s w up c = rw (up, c) refl

interleaved-rotated :
    (token : String) (w : World) (s : Session)
    → ((k : ℕ) → w.backend.outside.fault k ≡ false)
    → find? (live_refresh (w.backend.outside.sha256 token)) w.backend.tables.sessions ≡ some s
    → let w2 = called (called w) in
      let w3 = rotated w2 s.id in
      clash_at w s.id w2.backend.calls w.backend.tables.sessions ≡ false
      → clash_at w s.id w3.backend.calls w3.backend.tables.sessions ≡ false
      → interleaved token w
        ≡ (ok (pair_at w w2.backend.calls, pair_at w w3.backend.calls), rotated w3 s.id)
unfolding interleaved
interleaved-rotated token w s up f c d =
    let w2 = called (called w) in
    let w3 = rotated w2 s.id in
    rw
      (
        look_up-finds token w s (up _) f,
        look_up-finds token (called w) s (up _) f,
        rotate-writes s w2 (up _) c,
        rotate-writes s w3 (up _) d,
      )
      refl

both-false : (b : Bool) {c : Bool} → c ≡ false → (b && c) ≡ false
both-false true h = h
both-false false h = refl

-- an access token that no session has is refused
authed_from_token-unknown :
    (token : String) (w : World)
    → w.backend.outside.fault w.backend.calls ≡ false
    → find?
        (live_access (w.backend.outside.sha256 token) (w.backend.outside.clock w.backend.calls))
        w.backend.tables.sessions
      ≡ none
    → (authed_from_token token w).0 ≡ err (unauthorized "invalid token")
unfolding authed_from_token device_of_token AuthRepo.find_live_session_by_access_hash execute
authed_from_token-unknown token w up f = rw (up, f) refl

-- Two calls of `refresh` with one token, of which both look the session up before either writes,
-- both return a token pair; but the pair that is written first is dead already: its access token
-- opens nothing and its refresh token is refused. The database is in reach, and the hashes of the
-- two pairs differ from each other and from those of the sessions.
pub refresh_twice :
    (token : String) (w : World) (s : Session)
    → ((k : ℕ) → w.backend.outside.fault k ≡ false)
    → find? (live_refresh (w.backend.outside.sha256 token)) w.backend.tables.sessions ≡ some s
    → unused_at w (earlier w) ≡ true
    → unused_at w (later w) ≡ true
    → bytes_eq
        (w.backend.outside.sha256 (access_at w (later w)))
        (w.backend.outside.sha256 (access_at w (earlier w)))
      ≡ false
    → bytes_eq
        (w.backend.outside.sha256 (refresh_at w (suc (later w))))
        (w.backend.outside.sha256 (refresh_at w (suc (earlier w))))
      ≡ false
    → let (r, after) = interleaved token w in
      (r ≡ ok (pair_at w (earlier w), pair_at w (later w)))
      × ((authed_from_token (access_at w (earlier w)) after).0 ≡ err (unauthorized "invalid token"))
      × ((refresh (record { refresh_token = refresh_at w (suc (earlier w)) }) after).0
          ≡ err (unauthorized "invalid refresh token"))
refresh_twice token w s up f u v da dr =
    let xs = w.backend.tables.sessions in
    let o = w.backend.outside in
    let w2 = called (called w) in
    let w3 = rotated w2 s.id in
    let w4 = rotated w3 s.id in
    let n = w2.backend.calls in
    let m = w3.backend.calls in
    let free =
      no_clash s.id (o.sha256 (access_at w n)) (o.sha256 (refresh_at w (suc n))) xs (ground arith)
        (ground arith) in
    let free' =
      no_clash-rotated s.id (o.sha256 (access_at w m)) (o.sha256 (refresh_at w (suc m)))
        (o.sha256 (access_at w n)) (o.sha256 (refresh_at w (suc n)))
        (o.clock (suc (suc n)) + access_ttl) xs (ground arith) (ground arith) in
    let ga =
      access_gone s.id (o.sha256 (access_at w n)) (o.sha256 (refresh_at w (suc n)))
        (o.sha256 (access_at w m)) (o.sha256 (refresh_at w (suc m)))
        (o.clock (suc (suc n)) + access_ttl) (o.clock (suc (suc m)) + access_ttl) xs (ground arith)
        da in
    let gr =
      refresh_gone s.id (o.sha256 (access_at w n)) (o.sha256 (refresh_at w (suc n)))
        (o.sha256 (access_at w m)) (o.sha256 (refresh_at w (suc m)))
        (o.clock (suc (suc n)) + access_ttl) (o.clock (suc (suc m)) + access_ttl) xs (ground arith)
        dr in
    let run = interleaved-rotated token w s up f (both-false _ free) (both-false _ free') in
    rw run (
      refl,
      authed_from_token-unknown (access_at w n) w4 (up w4.backend.calls) (
          dead-access (o.sha256 (access_at w n)) (o.clock w4.backend.calls)
            w4.backend.tables.sessions ga),
      refresh-unknown (refresh_at w (suc n)) w4 (up w4.backend.calls)
          (dead-refresh (o.sha256 (refresh_at w (suc n))) w4.backend.tables.sessions gr),
    )
