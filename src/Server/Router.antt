-- ===== src/Server/Router.antt =====
-- `router` of crates/server/src/app.rs: the table of its routes, and a request from its path to the
-- handler. How axum reads a handler's arguments from a request is a parameter.
pub mod Guard
pub mod Sessions
use trust_server.Common.{
  ℕ, ◌*◌, String, Bool, true, false, not, ◌&&◌, Option, none, some, List, [], ◌∷◌, ◌==◌,
  if◌then◌else◌,
}
use trust_server.Common.Text.{str_eq, is_empty}
use trust_server.Exec.{Result, ok, err, map_ok}
use trust_server.Protocol.Rest.{
  RegisterRequest, LoginRequest, RefreshRequest, token_pair_json, auth_session_json,
}
use trust_server.Protocol.Payload.{Json}
use trust_server.Storage.Models.{Uuid, Bytes}
use trust_server.Server.World.{World}
use trust_server.Server.Headers.{Headers}
use trust_server.Server.Response.{Response, reply, status, download, answer}
use trust_server.Server.Auth as Auth
use trust_server.Server.Messaging.{SendReq}
use trust_server.Server.Messaging
use trust_server.Server.Media.{MediaQuery}
use trust_server.Server.Media
use trust_server.Server.Profile.{UpdateProfile}
use trust_server.Server.Profile
use trust_server.Server.Blobs
use trust_server.Server.Ws.{Turn}
use trust_server.Server.Ws
use trust_server.Server.App.{advertised, require_protocol_version}
use trust_server.Server.App
use trust_server.Server.Routes.{Method, Handler, Route, routes, matches, captured, handler_of}

-- The path is split at its slashes; the turns are those of the socket that the request may open.
pub record Request : Type 0 where
  pub method : Method
  pub path : List String
  pub headers : Headers
  pub query : String
  pub body : Bytes
  pub turns : List Turn

-- What axum's extractors give for the arguments of a handler: the value, or the answer with which
-- they reject the request. A body is read up to the limit that the router sets.
pub record Extractors : Type 0 where
  pub register_request : ℕ → Request → Result Response RegisterRequest
  pub login_request : ℕ → Request → Result Response LoginRequest
  pub refresh_request : ℕ → Request → Result Response RefreshRequest
  pub send_req : ℕ → Request → Result Response SendReq
  pub edit_req : ℕ → Request → Result Response String
  pub update_profile : ℕ → Request → Result Response UpdateProfile
  pub bytes : ℕ → Request → Result Response Bytes
  pub lookup_query : Request → Result Response String
  pub history_query : Request → Result Response String
  pub delete_query : Request → Result Response (Option String)
  pub media_query : Request → Result Response MediaQuery
  pub profile_query : Request → Result Response String
  pub ws_query : Request → Result Response String
  pub path_text : String → Result Response String
  pub path_uuid : String → Result Response Uuid

-- `DefaultBodyLimit::max(25 * 1024 * 1024)`
abbrev pub body_limit : ℕ
body_limit = 25 * 1024 * 1024

-- A handler with its arguments.
pub data Call : Type 0 where
  health : Call
  ws_handler : String → List Turn → Call
  get_blob : Uuid → Call
  capabilities : Call
  register : RegisterRequest → Call
  login : LoginRequest → Call
  refresh : RefreshRequest → Call
  logout : Call
  list_users : Call
  lookup_user : String → Call
  list_conversations : Call
  send_message : SendReq → Call
  history : String → Call
  edit_message : String → String → Call
  delete_message : String → Option String → Call
  upload_blob : Bytes → Call
  list_media : Uuid → MediaQuery → Call
  get_my_profile : Call
  get_profile : String → Call
  update_profile : UpdateProfile → Call

abbrev both :
    {A B C : Type 0} → (A → B → C) → Result Response A → Result Response B → Result Response C
both f (ok a) r = map_ok (f a) r
both f (err e) r = err e

-- the arguments are read in the order of the handler's parameters
unfoldable pub extract : Extractors → Handler → String → Request → Result Response Call
extract x Handler.health id req = ok Call.health
extract x Handler.ws_handler id req = map_ok (λ t. Call.ws_handler t req.turns) (x.ws_query req)
extract x Handler.get_blob id req = map_ok Call.get_blob (x.path_uuid id)
extract x Handler.capabilities id req = ok Call.capabilities
extract x Handler.register id req = map_ok Call.register (x.register_request body_limit req)
extract x Handler.login id req = map_ok Call.login (x.login_request body_limit req)
extract x Handler.refresh id req = map_ok Call.refresh (x.refresh_request body_limit req)
extract x Handler.logout id req = ok Call.logout
extract x Handler.list_users id req = ok Call.list_users
extract x Handler.lookup_user id req = map_ok Call.lookup_user (x.lookup_query req)
extract x Handler.list_conversations id req = ok Call.list_conversations
extract x Handler.send_message id req = map_ok Call.send_message (x.send_req body_limit req)
extract x Handler.history id req = map_ok Call.history (x.history_query req)
extract x Handler.edit_message id req =
    both Call.edit_message (x.path_text id) (x.edit_req body_limit req)
extract x Handler.delete_message id req =
    both Call.delete_message (x.path_text id) (x.delete_query req)
extract x Handler.upload_blob id req = map_ok Call.upload_blob (x.bytes body_limit req)
extract x Handler.list_media id req = both Call.list_media (x.path_uuid id) (x.media_query req)
extract x Handler.get_my_profile id req = ok Call.get_my_profile
extract x Handler.get_profile id req = map_ok Call.get_profile (x.profile_query req)
extract x Handler.update_profile id req =
    map_ok Call.update_profile (x.update_profile body_limit req)

abbrev okay : Json → Response
okay j = reply 200 j

-- the handler's call and the rendering of what it returns
unfoldable pub run : Call → Headers → World → Response × World
run Call.health headers w = let (j, w') = App.health w in (okay j, w')
run (Call.ws_handler token turns) headers w = answer status (Ws.ws_handler token turns w)
run (Call.get_blob id) headers w = let (d, w') = Blobs.get_blob id w in (download d, w')
run Call.capabilities headers w = (okay advertised, w)
run (Call.register req) headers w =
    answer (λ r. let (code, s) = r in reply code (auth_session_json s)) (Auth.register req w)
run (Call.login req) headers w = answer (λ s. okay (auth_session_json s)) (Auth.login req w)
run (Call.refresh req) headers w = answer (λ t. okay (token_pair_json t)) (Auth.refresh req w)
run Call.logout headers w = answer status (Auth.logout headers w)
run Call.list_users headers w = answer okay (Messaging.list_users headers w)
run (Call.lookup_user name) headers w = answer okay (Messaging.lookup_user headers name w)
run Call.list_conversations headers w = answer okay (Messaging.list_conversations headers w)
run (Call.send_message req) headers w = answer okay (Messaging.send_message headers req w)
run (Call.history user) headers w = answer okay (Messaging.history headers user w)
run (Call.edit_message id text) headers w = answer okay (Messaging.edit_message headers id text w)
run (Call.delete_message id scope) headers w =
    answer okay (Messaging.delete_message headers id scope w)
run (Call.upload_blob body) headers w = answer okay (Blobs.upload_blob headers body w)
run (Call.list_media id q) headers w = answer okay (Media.list_media headers id q w)
run Call.get_my_profile headers w = answer okay (Profile.get_my_profile headers w)
run (Call.get_profile name) headers w = answer okay (Profile.get_profile headers name w)
run (Call.update_profile req) headers w = answer okay (Profile.update_profile headers req w)

-- the call, or the answer of the extractor that rejects the request
abbrev pub extracted : Headers → Result Response Call → World → Response × World
extracted headers (ok c) w = run c headers w
extracted headers (err rejection) w = (rejection, w)

-- 405 for a method that the path does not have
abbrev pub call : Extractors → Request → String → Option Handler → World → Response × World
call x req id none w = (status 405, w)
call x req id (some h) w = extracted req.headers (extract x h id req) w

abbrev pub enter : Extractors → Request → Route → World → Response × World
enter x req r w =
    let next = call x req (captured r.pattern req.path) (handler_of req.method r.methods) in
    if r.versioned then require_protocol_version req.headers next w else next w

unfoldable pub dispatch : Extractors → List Route → Request → World → Response × World
dispatch x [] req w = (status 404, w)
dispatch x (r ∷ rs) req w =
    let rest = dispatch x rs req w in if matches r.pattern req.path then enter x req r w else rest

unfoldable pub serve : Extractors → Request → World → Response × World
serve x req w = dispatch x routes req w

-- the state after some requests, one after the other
abbrev pub after_requests : Extractors → List Request → World → World
after_requests x [] w = w
after_requests x (req ∷ reqs) w = after_requests x reqs (serve x req w).1
