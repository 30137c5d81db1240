-- ===== src/Server/Ws.antt =====
-- crates/server/src/ws.rs: the life of a socket. serde's parse of an inbound text and the sending
-- of a frame are outside: a turn of the loop says what they gave.
pub mod Relay
use trust_server.Common.{
  ℕ, String, Bool, true, false, ◌||◌, Option, none, some, List, [], ◌∷◌, if◌then◌else◌,
}
use trust_server.Common.Int.{ℤ}
use trust_server.Common.Text.{str_eq}
use trust_server.Exec.{Result, ok, err, Exec, pure, attempt, when, ◌>>=◌, ◌>>◌}
use trust_server.Protocol.{Envelope}
use trust_server.Protocol.Payload.{Json, json, str, uuid, int, optional}
use trust_server.Storage.Models.{Uuid, Account}
use trust_server.Storage.AuthRepo
use trust_server.Server.Error.{AppError}
use trust_server.Server.Presence.{on_connect, on_disconnect}
use trust_server.Server.World.{World, App, query, auth, now_utc}
use trust_server.Server.Auth.{authed_from_token}
use trust_server.Server.Delivery.{envelope, deliver_to_account, broadcast_presence}
use trust_server.Server.Db.Conversations.{dm_conversation}
use trust_server.Server.Db.Receipts.{mark_read, mark_delivered}
use trust_server.Server.Db.Profiles.{set_last_seen}

pub record Inbound : Type 0 where
  pub type : String
  pub to : Option String
  pub message_id : Option String
  pub emoji : Option String
  pub up_to_seq : Option ℤ
  pub activity : Option String
  pub from : Option String
  pub call_id : Option String
  pub media : Option String
  pub sdp : Option Json
  pub candidate : Option Json

-- The kinds of frames that the two matches on the type tell apart.
pub data Kind : Type 0 where
  typing delivered read reaction call other : Kind

abbrev is_call : String → Bool
is_call t =
    str_eq t "call.invite"
    || str_eq t "call.answer"
    || str_eq t "call.ice"
    || str_eq t "call.decline"
    || str_eq t "call.hangup"
    || str_eq t "call.busy"

unfoldable pub kind_of : String → Kind
kind_of t =
    if str_eq t "typing.start" || str_eq t "typing.stop"
    then typing
    else if str_eq t "receipt.delivered"
    then delivered
    else if str_eq t "receipt.read"
    then read
    else if str_eq t "reaction"
    then reaction
    else if is_call t
    then call
    else other

-- errors of the markers are dropped
abbrev pub persist : Kind → Uuid → Uuid → App (Unit {0})
persist delivered convo account = do attempt (query (mark_delivered convo account)); pure tt
persist read convo account = do
  attempt (query (mark_delivered convo account))
  attempt (query (mark_read convo account))
  pure tt
persist k convo account = pure tt

abbrev pub relayed : Kind → Uuid → Uuid → Inbound → Option Json
relayed typing convo account msg = some (
    json (
      ("conversationId", uuid convo)
      ∷ ("byUserId", uuid account)
      ∷ ("activity", optional str msg.activity)
      ∷ []))
relayed delivered convo account msg =
    some (json (("conversationId", uuid convo) ∷ ("byUserId", uuid account) ∷ []))
relayed read convo account msg = some (
    json (
      ("conversationId", uuid convo)
      ∷ ("byUserId", uuid account)
      ∷ ("upToSeq", optional int msg.up_to_seq)
      ∷ []))
relayed reaction convo account msg = some (
    json (
      ("conversationId", uuid convo)
      ∷ ("byUserId", uuid account)
      ∷ ("messageId", optional str msg.message_id)
      ∷ ("emoji", optional str msg.emoji)
      ∷ []))
relayed call convo account msg = some (
    json (
      ("conversationId", uuid convo)
      ∷ ("fromUserId", uuid account)
      ∷ ("from", optional str msg.from)
      ∷ ("callId", optional str msg.call_id)
      ∷ ("media", optional str msg.media)
      ∷ ("sdp", optional (λ j. j) msg.sdp)
      ∷ ("candidate", optional (λ j. j) msg.candidate)
      ∷ []))
relayed other convo account msg = none

abbrev pub relay : Uuid → String → Option Json → App (Unit {0})
relay target type none = pure tt
relay target type (some payload) = do
  env ← envelope type payload
  deliver_to_account target env none

abbrev pub in_dm : Uuid → Inbound → Uuid → Result AppError Uuid → App (Unit {0})
in_dm account msg target (err e) = pure tt
in_dm account msg target (ok convo) = do
  persist (kind_of msg.type) convo account
  relay target msg.type (relayed (kind_of msg.type) convo account msg)

abbrev pub to_target : Uuid → Inbound → Result AppError (Option Account) → App (Unit {0})
to_target account msg (ok (some target)) = do
  convo ← attempt (query (dm_conversation account target.id))
  in_dm account msg target.id convo
to_target account msg r = pure tt

abbrev pub addressed : Uuid → Inbound → Option String → App (Unit {0})
addressed account msg none = pure tt
addressed account msg (some to) = do
  found ← attempt (auth (AuthRepo.find_account_by_username to))
  to_target account msg found

-- `none` is a text that serde does not parse
unfoldable pub handle_inbound : Uuid → Option Inbound → App (Unit {0})
unfolding kind_of envelope deliver_to_account
handle_inbound account none = pure tt
handle_inbound account (some msg) = addressed account msg msg.to

-- One turn of the `select!` loop: an event from the bus and whether its frame was sent, a lagged
-- receiver, a text, a close or the end of the stream, another frame, an error of the socket.
pub data Turn : Type 0 where
  event : Envelope → Bool → Turn
  lagged : Turn
  text : Option Inbound → Turn
  closed : Turn
  ignored : Turn
  failed : Turn

unfoldable pub socket_loop : Uuid → List Turn → App (Unit {0})
socket_loop account [] = pure tt
socket_loop account (event env true ∷ turns) = socket_loop account turns
socket_loop account (event env false ∷ turns) = pure tt
socket_loop account (lagged ∷ turns) = socket_loop account turns
socket_loop account (text t ∷ turns) = handle_inbound account t >> socket_loop account turns
socket_loop account (closed ∷ turns) = pure tt
socket_loop account (ignored ∷ turns) = socket_loop account turns
socket_loop account (failed ∷ turns) = pure tt

abbrev pub connect : Uuid → Uuid → App Bool
connect device account w =
    let (came_online, p) = on_connect device account w.presence in
    (ok came_online, record w { presence = p })

unfoldable pub open_socket : Uuid → Uuid → App (Unit {0})
unfolding on_connect broadcast_presence
open_socket account device = do
  came_online ← connect device account
  when came_online (broadcast_presence account true none)

abbrev pub disconnect : Uuid → App (Option (Uuid × Bool))
disconnect device w =
    let (gone, p) = on_disconnect device w.presence in (ok gone, record w { presence = p })

abbrev pub report_offline : Option (Uuid × Bool) → App (Unit {0})
report_offline none = pure tt
report_offline (some (account, false)) = pure tt
report_offline (some (account, true)) = do
  now ← now_utc
  attempt (query (set_last_seen account now))
  broadcast_presence account false (some now)

unfoldable pub close_socket : Uuid → App (Unit {0})
unfolding on_disconnect broadcast_presence
close_socket device = do gone ← disconnect device; report_offline gone

unfoldable pub handle_socket : Uuid → Uuid → List Turn → App (Unit {0})
unfolding open_socket socket_loop close_socket
handle_socket account device turns = do
  open_socket account device
  socket_loop account turns
  close_socket device

abbrev pub upgrade : List Turn → Result AppError (Uuid × Uuid) → Exec World AppError ℕ
upgrade turns (ok (account, device)) = do handle_socket account device turns; pure 101
upgrade turns (err e) = pure 401

-- the status of the handshake, once the socket is through
unfoldable pub ws_handler : String → List Turn → App ℕ
unfolding handle_socket
ws_handler token turns = do who ← attempt (authed_from_token token); upgrade turns who
