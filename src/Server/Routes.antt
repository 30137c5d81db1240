-- ===== src/Server/Routes.antt =====
-- The table that `router` of crates/server/src/app.rs builds, and how a path is matched.
use trust_server.Common.{
  ℕ, String, Bool, true, false, not, ◌&&◌, Option, none, some, List, [], ◌∷◌, ◌==◌, if◌then◌else◌,
}
use trust_server.Common.Text.{str_eq, is_empty}

pub data Method : Type 0 where
  get post put patch delete : Method

-- the handlers that routes name
pub data Handler : Type 0 where
  health ws_handler get_blob capabilities register login refresh logout : Handler
  list_users lookup_user list_conversations send_message history edit_message : Handler
  delete_message upload_blob list_media get_my_profile get_profile update_profile : Handler

pub data Segment : Type 0 where
  literal : String → Segment
  param : Segment

pub record Route : Type 0 where
  pub pattern : List Segment
  pub methods : List (Method × Handler)
  -- behind `require_protocol_version`
  pub versioned : Bool

abbrev outer : List Segment → List (Method × Handler) → Route
outer pattern methods = record { pattern = pattern; methods = methods; versioned = false }

-- nested at `/v0`, behind the layer
abbrev nested : List Segment → List (Method × Handler) → Route
nested pattern methods = record {
  pattern = literal "v0" ∷ pattern;
  methods = methods;
  versioned = true;
}

abbrev pub routes : List Route
routes =
    outer (literal "health" ∷ []) ((get, health) ∷ [])
    ∷ outer (literal "v0" ∷ literal "ws" ∷ []) ((get, ws_handler) ∷ [])
    ∷ outer (literal "v0" ∷ literal "blobs" ∷ param ∷ []) ((get, get_blob) ∷ [])
    ∷ nested (literal "capabilities" ∷ []) ((get, capabilities) ∷ [])
    ∷ nested (literal "auth" ∷ literal "register" ∷ []) ((post, register) ∷ [])
    ∷ nested (literal "auth" ∷ literal "login" ∷ []) ((post, login) ∷ [])
    ∷ nested (literal "auth" ∷ literal "refresh" ∷ []) ((post, refresh) ∷ [])
    ∷ nested (literal "auth" ∷ literal "logout" ∷ []) ((post, logout) ∷ [])
    ∷ nested (literal "users" ∷ []) ((get, list_users) ∷ [])
    ∷ nested (literal "users" ∷ literal "lookup" ∷ []) ((get, lookup_user) ∷ [])
    ∷ nested (literal "conversations" ∷ []) ((get, list_conversations) ∷ [])
    ∷ nested (literal "messages" ∷ []) ((post, send_message) ∷ (get, history) ∷ [])
    ∷ nested (literal "messages" ∷ param ∷ [])
        ((patch, edit_message) ∷ (delete, delete_message) ∷ [])
    ∷ nested (literal "blobs" ∷ []) ((post, upload_blob) ∷ [])
    ∷ nested (literal "conversations" ∷ param ∷ literal "media" ∷ []) ((get, list_media) ∷ [])
    ∷ nested (literal "profile" ∷ literal "me" ∷ []) ((get, get_my_profile) ∷ [])
    ∷ nested (literal "profile" ∷ []) ((get, get_profile) ∷ (put, update_profile) ∷ [])
    ∷ []

-- a literal matches itself, a parameter any segment that is not empty
unfoldable pub matches : List Segment → List String → Bool
matches [] [] = true
matches [] (s ∷ path) = false
matches (p ∷ pattern) [] = false
matches (literal l ∷ pattern) (s ∷ path) = str_eq l s && matches pattern path
matches (param ∷ pattern) (s ∷ path) = not (is_empty s) && matches pattern path

-- the segment at the parameter's place
unfoldable pub captured : List Segment → List String → String
captured [] path = ""
captured (p ∷ pattern) [] = ""
captured (literal l ∷ pattern) (s ∷ path) = captured pattern path
captured (param ∷ pattern) (s ∷ path) = s

abbrev index : Method → ℕ
index get = 0
index post = 1
index put = 2
index patch = 3
index delete = 4

unfoldable pub handler_of : Method → List (Method × Handler) → Option Handler
handler_of m [] = none
handler_of m ((n, h) ∷ hs) =
    let rest = handler_of m hs in if index m == index n then some h else rest
