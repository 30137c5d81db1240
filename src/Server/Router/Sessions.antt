-- ===== src/Server/Router/Sessions.antt =====
-- Which handlers ask for a session first (`authed` of crates/server/src/auth.rs).
use trust_server.Common.{
  ℕ, suc, ◌≡◌, refl, Bool, true, false, find?, Bool-cases, Option-cases, inl, inr,
}
use trust_server.Exec.{err}
use trust_server.Storage.AuthRepo
use trust_server.Storage.AuthRepo.{live_access, device_has_id}
use trust_server.Storage.Backend.{execute}
use trust_server.Server.Error.{AppError}
use trust_server.Server.World.{World, after_calls}
use trust_server.Server.Headers.{Headers, bearer}
use trust_server.Server.Response.{failed}
use trust_server.Server.Auth.{authed, authed_device, device_of_token, account_of_device}
use trust_server.Server.Messaging
use trust_server.Server.Media
use trust_server.Server.Profile
use trust_server.Server.Blobs
use trust_server.Server.Router.{Call, run}

-- every handler but those that open, renew or close a session, and the four that need none
abbrev pub needs_session : Call → Bool
needs_session Call.health = false
needs_session (Call.ws_handler token turns) = false
needs_session (Call.get_blob id) = false
needs_session Call.capabilities = false
needs_session (Call.register req) = false
needs_session (Call.login req) = false
needs_session (Call.refresh req) = false
needs_session Call.logout = false
needs_session c = true

pub authed-calls :
    (headers : Headers) (w : World) → (k : ℕ) × ((authed headers w).1 ≡ after_calls w k)
unfolding authed authed_device device_of_token account_of_device
    AuthRepo.find_live_session_by_access_hash AuthRepo.find_device_by_id execute
authed-calls headers w = elim (Option-cases (bearer headers)) [
  | inl h ↦ rw h (w.backend.calls, refl)
  | inr (token, h) ↦ elim (Bool-cases (w.backend.outside.fault w.backend.calls)) [
    | inl down ↦ rw (h, down) (suc w.backend.calls, refl)
    | inr up ↦
        elim (Option-cases (
          find?
            (live_access (w.backend.outside.sha256 token) (w.backend.outside.clock w.backend.calls))
            w.backend.tables.sessions)) [
              | inl f ↦ rw (h, up, f) (suc w.backend.calls, refl)
              | inr (s, f) ↦ elim (Bool-cases (w.backend.outside.fault (suc w.backend.calls))) [
                | inl down ↦ rw (h, up, f, down) (suc (suc w.backend.calls), refl)
                | inr up' ↦
                    elim (Option-cases
                      (find? (device_has_id s.device_id) w.backend.tables.devices)) [
                        | inl g ↦ rw (h, up, f, up', g) (suc (suc w.backend.calls), refl)
                        | inr (d, g) ↦ rw (h, up, f, up', g) (suc (suc w.backend.calls), refl)
                      ]
              ]
            ]
  ]
]

run-refused :
    (c : Call) (headers : Headers) (w : World) (e : AppError)
    → needs_session c ≡ true
    → (authed headers w).0 ≡ err e
    → run c headers w ≡ (failed e, (authed headers w).1)
unfolding run Messaging.list_users Messaging.lookup_user Messaging.list_conversations
    Messaging.send_message Messaging.history Messaging.edit_message Messaging.delete_message
    Blobs.upload_blob Media.list_media Profile.get_my_profile Profile.get_profile
    Profile.update_profile
run-refused Call.list_users headers w e n h = rw h refl
run-refused (Call.lookup_user name) headers w e n h = rw h refl
run-refused Call.list_conversations headers w e n h = rw h refl
run-refused (Call.send_message req) headers w e n h = rw h refl
run-refused (Call.history user) headers w e n h = rw h refl
run-refused (Call.edit_message id text) headers w e n h = rw h refl
run-refused (Call.delete_message id scope) headers w e n h = rw h refl
run-refused (Call.upload_blob body) headers w e n h = rw h refl
run-refused (Call.list_media id q) headers w e n h = rw h refl
run-refused Call.get_my_profile headers w e n h = rw h refl
run-refused (Call.get_profile name) headers w e n h = rw h refl
run-refused (Call.update_profile req) headers w e n h = rw h refl
run-refused c headers w e n h = cc

-- A request whose token opens no session gets the error of the check from every handler but those
-- of sessions, of `/health`, of `/v0/ws`, of the capabilities and of a blob's download; it changes
-- no table and no presence, and publishes nothing.
pub run_refuses_unauthenticated :
    (c : Call) (headers : Headers) (w : World) (e : AppError)
    → needs_session c ≡ true
    → (authed headers w).0 ≡ err e
    → (k : ℕ) × (run c headers w ≡ (failed e, after_calls w k))
run_refuses_unauthenticated c headers w e n h =
    let (k, a) = authed-calls headers w in (k, rw (run-refused c headers w e n h, a) refl)
