-- ===== src/Tests/Requests.antt =====
-- Requests through the router, on a small database.
use trust_server.Common.{ℕ, ◌≡◌, refl, String, none, some, List, [], ◌∷◌, map, bytes_eq}
use trust_server.Common.Text.{is_blank, parse_u32}
use trust_server.Exec.{ok, err}
use trust_server.Server.Error.{unauthorized}
use trust_server.Server.Presence as Presence
use trust_server.Server.World.{World, after_calls}
use trust_server.Server.Headers.{Headers, bearer, header}
use trust_server.Server.Response.{status, failed}
use trust_server.Server.Auth.{
  authed, authed_device, register, decode_identity, hash_password, issue_session, new_token,
}
use trust_server.Server.App.{unsupported_version, require_protocol_version}
use trust_server.Server.Routes.{Method, get, post, put, matches, handler_of}
use trust_server.Server.Router.{
  Call, Request, Extractors, run, extract, dispatch, serve, after_requests,
}
use trust_server.Server.Router.Guard.{serve_needs_version}
use trust_server.Server.Router.Sessions.{run_refuses_unauthenticated}
use trust_server.Server.Invariant.Reachable.{IsSound, after_requests-IsSound, no_tables-IsSound}
use trust_server.Server.World
use trust_server.Storage.Models.{Account}
use trust_server.Storage.Tables.{no_tables}
use trust_server.Storage.AuthRepo
use trust_server.Storage.Backend.{execute}
use trust_server.Tests.Sample.{backend, outside}

abbrev world : World
world = record { backend = backend; presence = Presence.new; published = [] }

-- reads texts and ids, and rejects every body
abbrev extractors : Extractors
extractors = record {
  register_request = λ n req. err (status 422);
  login_request = λ n req. err (status 422);
  refresh_request = λ n req. err (status 422);
  send_req = λ n req. err (status 422);
  edit_req = λ n req. err (status 422);
  update_profile = λ n req. err (status 422);
  bytes = λ n req. ok req.body;
  lookup_query = λ req. ok req.query;
  history_query = λ req. ok req.query;
  delete_query = λ req. ok (some req.query);
  media_query = λ req. err (status 400);
  profile_query = λ req. ok req.query;
  ws_query = λ req. ok req.query;
  path_text = λ s. ok s;
  path_uuid = λ s. err (status 400);
}

abbrev request : Method → List String → Headers → Request
request m path headers = record {
  method = m;
  path = path;
  headers = headers;
  query = "bob";
  body = [];
  turns = [];
}

-- a profile is asked for without the header, and in a later version
abbrev unversioned : Request
unversioned = request get ("v0" ∷ "profile" ∷ []) (("authorization", some "Bearer tka_1") ∷ [])

serve_needs_version_example : serve extractors unversioned world ≡ (unsupported_version, world)
unfolding header matches
serve_needs_version_example = serve_needs_version extractors unversioned world refl refl

-- a path that no route has
unknown_path : serve extractors (request get ("v0" ∷ "nowhere" ∷ []) []) world ≡ (status 404, world)
unfolding serve dispatch matches
unknown_path = refl

-- a method that the path does not have
unknown_method :
    serve extractors
      (request put ("v0" ∷ "users" ∷ []) (("trust-protocol-version", some "0") ∷ []))
      world
    ≡ (status 405, world)
unfolding serve dispatch matches require_protocol_version handler_of header parse_u32
unknown_method = refl

run_refuses_unauthenticated_example :
    (k : ℕ) × (run (Call.delete_message "id" none) [] world
      ≡ (failed (unauthorized "missing bearer token"), after_calls world k))
unfolding authed authed_device bearer header
run_refuses_unauthenticated_example =
    run_refuses_unauthenticated (Call.delete_message "id" none) [] world
      (unauthorized "missing bearer token") refl refl

-- the first requests of a new server: a registration, and a message without a session
abbrev registering : Extractors
registering = record extractors {
  register_request = λ n req. ok (record {
    username = "carol";
    password = "long enough";
    device = record { display_name = "laptop"; public_identity = "AA==" };
  });
}

abbrev versioned : Headers
versioned = ("trust-protocol-version", some "0") ∷ []

abbrev first_requests : List Request
first_requests =
    request post ("v0" ∷ "auth" ∷ "register" ∷ []) versioned
    ∷ request post ("v0" ∷ "messages" ∷ []) versioned
    ∷ []

abbrev empty : World
empty = World.new (record { outside = outside; calls = 0; tables = no_tables })

after_requests-IsSound_example :
    IsSound (after_requests registering first_requests empty).backend.tables
after_requests-IsSound_example =
    after_requests-IsSound registering first_requests empty no_tables-IsSound

-- the registration is stored
registered :
    map
      (λ (a : Account). a.username)
      (after_requests registering first_requests empty).backend.tables.accounts
    ≡ "carol" ∷ []
unfolding serve dispatch matches require_protocol_version handler_of header parse_u32 extract run
    register decode_identity hash_password AuthRepo.create_account AuthRepo.create_device
    issue_session new_token AuthRepo.create_session execute is_blank bytes_eq
registered = refl
