-- ===== src/Server/Keeps/Requests.antt =====
-- What a property of the tables needs in order to hold after every request.
use trust_server.Common.{String, Option, none, some, List, [], ◌∷◌, Bool-cases, inl, inr}
use trust_server.Exec.{Result, ok, err}
use trust_server.Storage.Tables.{Tables}
use trust_server.Server.Error.{AppError}
use trust_server.Server.World.{World, App}
use trust_server.Server.Headers.{Headers}
use trust_server.Server.Response.{Response, answer}
use trust_server.Server.Routes.{Route, routes, Handler, matches, captured, handler_of}
use trust_server.Server.Router.{
  after_requests, Call, Request, Extractors, run, extract, extracted, call, enter, dispatch, serve,
}
use trust_server.Server.Keeps.{Keeps}
use trust_server.Server.Keeps.Queries.{IsStable}
use trust_server.Server.Keeps.Queries
use trust_server.Storage.Models.{Uuid}
use trust_server.Storage.Backend.{execute}
use trust_server.Server.Headers.{header}
use trust_server.Server.App.Version.{admitted, guard_admits_zeros}
use trust_server.Server.Keeps.Sessions
use trust_server.Server.Keeps.Sockets
use trust_server.Server.Keeps.Handlers
use trust_server.Server.Auth as Auth
use trust_server.Server.Messaging
use trust_server.Server.Media
use trust_server.Server.Profile
use trust_server.Server.Blobs
use trust_server.Server.Ws
use trust_server.Server.App

module _ (P : Tables → Type 0) where
  answer-keeps :
      {A : Type 0} (render : A → Response) (r : Result AppError A × World)
      → P r.1.backend.tables
      → P (answer render r).1.backend.tables
  answer-keeps render (ok a, w) p = p
  answer-keeps render (err e, w) p = p

  abbrev KeepsAnswer : (World → Response × World) → Type 0
  KeepsAnswer f = (w : World) → P w.backend.tables → P (f w).1.backend.tables

  Keeps-answer :
      {A : Type 0} (render : A → Response) (m : App A)
      → Keeps P m
      → KeepsAnswer (λ w. answer render (m w))
  Keeps-answer render m k w p = answer-keeps render (m w) (k.at w p)

  health-keeps : KeepsAnswer (run Call.health [])
  unfolding run App.health App.ping execute
  health-keeps w p = elim (Bool-cases (w.backend.outside.fault w.backend.calls)) [
    | inl down ↦ rw down p
    | inr up ↦ rw up p
  ]

  get_blob-keeps : (id : Uuid) → KeepsAnswer (run (Call.get_blob id) [])
  unfolding run Blobs.get_blob
  get_blob-keeps id w p = (Queries.get_blob-KeepsDb {P = P} id).at w.backend p

  abbrev KeepsRun : (World → World) → Type 0
  KeepsRun f = (w : World) → P w.backend.tables → P (f w).backend.tables

module _ {P : Tables → Type 0} (S : IsStable P) where
  run-keeps : (c : Call) (headers : Headers) → KeepsAnswer P (run c headers)
  unfolding run
  run-keeps Call.health headers = health-keeps P
  run-keeps (Call.ws_handler token turns) headers =
      Keeps-answer P _ (Ws.ws_handler token turns) (Sockets.ws_handler-Keeps S token turns)
  run-keeps (Call.get_blob id) headers = get_blob-keeps P id
  run-keeps Call.capabilities headers = λ w p. p
  run-keeps (Call.register req) headers =
      Keeps-answer P _ (Auth.register req) (Sessions.register-Keeps S req)
  run-keeps (Call.login req) headers =
      Keeps-answer P _ (Auth.login req) (Sessions.login-Keeps S req)
  run-keeps (Call.refresh req) headers =
      Keeps-answer P _ (Auth.refresh req) (Sessions.refresh-Keeps S req)
  run-keeps Call.logout headers =
      Keeps-answer P _ (Auth.logout headers) (Sessions.logout-Keeps S headers)
  run-keeps Call.list_users headers =
      Keeps-answer P _ (Messaging.list_users headers) (Handlers.list_users-Keeps headers)
  run-keeps (Call.lookup_user name) headers =
      Keeps-answer P _ (Messaging.lookup_user headers name)
        (Handlers.lookup_user-Keeps headers name)
  run-keeps Call.list_conversations headers =
      Keeps-answer P _ (Messaging.list_conversations headers)
        (Handlers.list_conversations-Keeps headers)
  run-keeps (Call.send_message req) headers =
      Keeps-answer P _ (Messaging.send_message headers req)
        (Handlers.send_message-Keeps S headers req)
  run-keeps (Call.history user) headers =
      Keeps-answer P _ (Messaging.history headers user) (Handlers.history-Keeps S headers user)
  run-keeps (Call.edit_message id text) headers =
      Keeps-answer P _ (Messaging.edit_message headers id text)
        (Handlers.edit_message-Keeps S headers id text)
  run-keeps (Call.delete_message id scope) headers =
      Keeps-answer P _ (Messaging.delete_message headers id scope)
        (Handlers.delete_message-Keeps S headers id scope)
  run-keeps (Call.upload_blob body) headers =
      Keeps-answer P _ (Blobs.upload_blob headers body) (Handlers.upload_blob-Keeps S headers body)
  run-keeps (Call.list_media id q) headers =
      Keeps-answer P _ (Media.list_media headers id q) (Handlers.list_media-Keeps headers id q)
  run-keeps Call.get_my_profile headers =
      Keeps-answer P _ (Profile.get_my_profile headers) (Handlers.get_my_profile-Keeps headers)
  run-keeps (Call.get_profile name) headers =
      Keeps-answer P _ (Profile.get_profile headers name) (Handlers.get_profile-Keeps headers name)
  run-keeps (Call.update_profile req) headers =
      Keeps-answer P _ (Profile.update_profile headers req)
        (Handlers.update_profile-Keeps S headers req)

  extracted-keeps :
      (headers : Headers) (r : Result Response Call) → KeepsAnswer P (extracted headers r)
  extracted-keeps headers (ok c) = run-keeps c headers
  extracted-keeps headers (err rejection) = λ w p. p

  call-keeps :
      (x : Extractors) (req : Request) (id : String) (h : Option Handler)
      → KeepsAnswer P (call x req id h)
  call-keeps x req id none = λ w p. p
  call-keeps x req id (some h) = extracted-keeps req.headers (extract x h id req)

  enter-keeps : (x : Extractors) (req : Request) (r : Route) → KeepsAnswer P (enter x req r)
  enter-keeps x req r w p =
      let next =
        call-keeps x req (captured r.pattern req.path) (handler_of req.method r.methods) w p in
      elim (Bool-cases r.versioned) [
        | inr e ↦ rw e next
        | inl e ↦ elim (Bool-cases (admitted (header "trust-protocol-version" req.headers))) [
          | inl a ↦ rw (e, guard_admits_zeros, a) next
          | inr a ↦ rw (e, guard_admits_zeros, a) p
        ]
      ]

  dispatch-keeps :
      (x : Extractors) (rs : List Route) (req : Request) → KeepsAnswer P (dispatch x rs req)
  unfolding dispatch
  dispatch-keeps x [] req w p = p
  dispatch-keeps x (r ∷ rs) req w p = elim (Bool-cases (matches r.pattern req.path)) [
    | inl e ↦ rw e (enter-keeps x req r w p)
    | inr e ↦ rw e (dispatch-keeps x rs req w p)
  ]

  pub serve-keeps : (x : Extractors) (req : Request) → KeepsAnswer P (serve x req)
  unfolding serve
  serve-keeps x req = dispatch-keeps x routes req

  pub after_requests-keeps :
      (x : Extractors) (reqs : List Request) → KeepsRun P (after_requests x reqs)
  after_requests-keeps x [] w p = p
  after_requests-keeps x (req ∷ reqs) w p =
      after_requests-keeps x reqs (serve x req w).1 (serve-keeps x req w p)
