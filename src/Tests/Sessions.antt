-- ===== src/Tests/Sessions.antt =====
-- Sessions and notices, on a small database.
use trust_server.Common.{
  ℕ, ◌≤◌, ◌≡◌, refl, String, false, some, List, [], ◌∷◌, arith, bytes_eq, if◌then◌else◌,
}
use trust_server.Common.Text.{str_eq, strip_prefix}
use trust_server.Exec.{ok, err}
use trust_server.Protocol.{Envelope}
use trust_server.Protocol.Payload.{json}
use trust_server.Protocol.Rest.{TokenPair}
use trust_server.Storage.Backend.{execute}
use trust_server.Storage.AuthRepo
use trust_server.Storage.AuthRepo.{active_device_of}
use trust_server.Storage.AuthStore.{Call, memory_store, pg_store}
use trust_server.Storage.AuthStore.Agreement.{Agree, memory_of, stores-Agree}
use trust_server.Server.Error.{unauthorized}
use trust_server.Server.Headers.{Headers, bearer, header}
use trust_server.Server.Presence as Presence
use trust_server.Server.World.{World}
use trust_server.Server.Auth.{authed, logout, refresh, new_token}
use trust_server.Server.Auth.Sessions.{logout-authed}
use trust_server.Server.Auth.Refresh.{refresh-refresh}
use trust_server.Common.{map, false, filter, any, ◌==◌, ◌++◌, ◌+◌, ◌<◌}
use trust_server.Server.Db.Conversations.{in_conversation}
use trust_server.Server.Auth.{access_ttl, issue_session, authed_from_token, new_token}
use trust_server.Server.Auth.Issue.{issue_session-authed}
use trust_server.Server.Delivery.Conversation.{member_notices, deliver_to_conversation_skips_own}
use trust_server.Server.Delivery.{deliver_to_conversation}
use trust_server.Tests.Sample.{phone, backend, tables, outside}

-- a hash that tells the sample's tokens apart
abbrev hash : String → List ℕ
hash s = if str_eq s "tka_1" then 1 ∷ [] else if str_eq s "tkr_1" then 2 ∷ [] else 3 ∷ []

abbrev world : World
world = record {
  backend = record backend { outside = record outside { sha256 = hash } };
  presence = Presence.new;
  published = [];
}

abbrev headers : Headers
headers = ("authorization", some "Bearer tka_1") ∷ []

stores-Agree_example :
    let (r, m) = memory_store 0 (Call.rotate_session 300 (5 ∷ []) (6 ∷ []) 9) (memory_of tables) in
    let (s, b') = pg_store (Call.rotate_session 300 (5 ∷ []) (6 ∷ []) 9) backend in
    Agree r s × (m ≡ memory_of b'.tables)
stores-Agree_example =
    stores-Agree (Call.rotate_session 300 (5 ∷ []) (6 ∷ []) 9) backend refl (refl, (refl, tt))

logout_up : world.backend.outside.fault (logout headers world).1.backend.calls ≡ false
logout_up = refl

logout_later :
    world.backend.outside.clock world.backend.calls
    ≤ world.backend.outside.clock (logout headers world).1.backend.calls
logout_later = ground arith

logout-runs : (logout headers world).0 ≡ ok 204
unfolding logout bearer header strip_prefix AuthRepo.find_live_session_by_access_hash
    AuthRepo.revoke_session execute bytes_eq
logout-runs = refl

logout-authed_example :
    (authed headers (logout headers world).1).0 ≡ err (unauthorized "invalid or expired token")
logout-authed_example = logout-authed headers world (tt, tt) logout_later logout_up logout-runs

abbrev tokens : TokenPair
tokens = record { access_token = "tka_x"; refresh_token = "tkr_x"; expires_in = 3600 }

refresh-runs : (refresh (record { refresh_token = "tkr_1" }) world).0 ≡ ok tokens
unfolding refresh new_token AuthRepo.find_live_session_by_refresh_hash AuthRepo.rotate_session
    execute bytes_eq
refresh-runs = refl

hashes_differ :
    bytes_eq (world.backend.outside.sha256 "tkr_x") (world.backend.outside.sha256 "tkr_1") ≡ false
unfolding bytes_eq
hashes_differ = refl

refresh_up :
    world.backend.outside.fault (refresh (record { refresh_token = "tkr_1" }) world).1.backend.calls
    ≡ false
refresh_up = refl

refresh-refresh_example :
    (refresh
      (record { refresh_token = "tkr_1" })
      (refresh (record { refresh_token = "tkr_1" }) world).1).0
    ≡ err (unauthorized "invalid refresh token")
refresh-refresh_example =
    refresh-refresh "tkr_1" world tokens (tt, tt) refresh-runs hashes_differ refresh_up

abbrev event : Envelope
event = record { v = 0; type = "message.new"; id = 900; ts = 0; payload = json [] }

issue-runs : (issue_session 11 world).0 ≡ ok tokens
unfolding issue_session new_token AuthRepo.create_session execute bytes_eq
issue-runs = refl

issue_in_time :
    world.backend.outside.clock (issue_session 11 world).1.backend.calls
    < world.backend.outside.clock 2 + access_ttl
unfolding issue_session new_token AuthRepo.create_session execute bytes_eq
issue_in_time = ground arith

issue_session-authed_example : (authed_from_token "tka_x" (issue_session 11 world).1).0 ≡ ok (1, 11)
issue_session-authed_example =
    issue_session-authed 11 phone tokens world (λ n. refl) refl issue-runs issue_in_time

deliver_to_conversation_skips_own_example :
    let members =
      map
        (λ m. m.account_id)
        (filter (in_conversation 100) world.backend.tables.conversation_members) in
    let new = member_notices event 1 11 world.backend.tables.devices members in
    (k : ℕ) × (deliver_to_conversation 100 event 1 11 world ≡ (
      ok tt,
      record world {
        backend = record world.backend { calls = k };
        published = world.published ++ new;
      },
    ))
    × (any (λ n. n.0 == 11) new ≡ false)
deliver_to_conversation_skips_own_example =
    deliver_to_conversation_skips_own 100 event 1 11 world (λ n. refl) refl
