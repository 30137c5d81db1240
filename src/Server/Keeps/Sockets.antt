-- ===== src/Server/Keeps/Sockets.antt =====
-- What the life of a socket (crates/server/src/ws.rs) keeps.
use trust_server.Common.{String, Bool, true, false, Option, none, some, List, [], ◌∷◌}
use trust_server.Exec.{Result, ok, err}
use trust_server.Protocol.Payload.{Json}
use trust_server.Storage.Models.{Uuid, Account}
use trust_server.Storage.Tables.{Tables}
use trust_server.Server.Error.{AppError}
use trust_server.Server.Keeps.{Keeps, keeps_rules, Keeps-bind}
use trust_server.Server.Keeps.Queries.{IsStable, keeps_reads}
use trust_server.Server.Keeps.Sessions.{authed_from_token-Keeps}
use trust_server.Server.Keeps.Events.{
  envelope-Keeps, deliver_to_account-Keeps, broadcast_presence-Keeps,
}
use trust_server.Server.Ws
use trust_server.Server.Ws.{
  Inbound, Turn, Kind, typing, delivered, read, reaction, call, other, event, lagged, text, closed,
  ignored, failed, kind_of, persist, relay, relayed, in_dm, to_target, addressed, connect,
  disconnect, report_offline, upgrade,
}

module _ {P : Tables → Type 0} where
  relay-Keeps : (target : Uuid) (type : String) (j : Option Json) → Keeps P (relay target type j)
  relay-Keeps target type none = search keeps_rules
  relay-Keeps target type (some j) = search (keeps_rules, envelope-Keeps, deliver_to_account-Keeps)

  connect-Keeps : (device account : Uuid) → Keeps P (connect device account)
  connect-Keeps device account = record { at = λ w p. p }

  disconnect-Keeps : (device : Uuid) → Keeps P (disconnect device)
  disconnect-Keeps device = record { at = λ w p. p }

  open_socket-Keeps : (account device : Uuid) → Keeps P (Ws.open_socket account device)
  unfolding Ws.open_socket
  open_socket-Keeps account device = search (keeps_rules, connect-Keeps, broadcast_presence-Keeps)

module _ {P : Tables → Type 0} (S : IsStable P) where
  persist-Keeps : (k : Kind) (convo account : Uuid) → Keeps P (persist k convo account)
  persist-Keeps typing convo account = search keeps_rules
  persist-Keeps delivered convo account = search (keeps_rules, S.mark_delivered) depth 20
  persist-Keeps read convo account = search (keeps_rules, S.mark_delivered, S.mark_read) depth 20
  persist-Keeps reaction convo account = search keeps_rules
  persist-Keeps call convo account = search keeps_rules
  persist-Keeps other convo account = search keeps_rules

  in_dm-Keeps :
      (account : Uuid) (msg : Inbound) (target : Uuid) (r : Result AppError Uuid)
      → Keeps P (in_dm account msg target r)
  in_dm-Keeps account msg target (err e) = search keeps_rules
  in_dm-Keeps account msg target (ok convo) = search (keeps_rules, persist-Keeps, relay-Keeps)

  to_target-Keeps :
      (account : Uuid) (msg : Inbound) (r : Result AppError (Option Account))
      → Keeps P (to_target account msg r)
  to_target-Keeps account msg (ok (some target)) =
      search (keeps_rules, S.dm_conversation, in_dm-Keeps) depth 20
  to_target-Keeps account msg (ok none) = search keeps_rules
  to_target-Keeps account msg (err e) = search keeps_rules

  addressed-Keeps :
      (account : Uuid) (msg : Inbound) (to : Option String) → Keeps P (addressed account msg to)
  addressed-Keeps account msg none = search keeps_rules
  addressed-Keeps account msg (some to) = search (keeps_rules, keeps_reads, to_target-Keeps)

  handle_inbound-Keeps :
      (account : Uuid) (t : Option Inbound) → Keeps P (Ws.handle_inbound account t)
  unfolding Ws.handle_inbound
  handle_inbound-Keeps account none = search keeps_rules
  handle_inbound-Keeps account (some msg) = addressed-Keeps account msg msg.to

  socket_loop-Keeps : (account : Uuid) (turns : List Turn) → Keeps P (Ws.socket_loop account turns)
  unfolding Ws.socket_loop
  socket_loop-Keeps account [] = search keeps_rules
  socket_loop-Keeps account (event env true ∷ turns) = socket_loop-Keeps account turns
  socket_loop-Keeps account (event env false ∷ turns) = search keeps_rules
  socket_loop-Keeps account (lagged ∷ turns) = socket_loop-Keeps account turns
  socket_loop-Keeps account (text t ∷ turns) =
      Keeps-bind (Ws.handle_inbound account t) _ (handle_inbound-Keeps account t)
        λ _. socket_loop-Keeps account turns
  socket_loop-Keeps account (closed ∷ turns) = search keeps_rules
  socket_loop-Keeps account (ignored ∷ turns) = socket_loop-Keeps account turns
  socket_loop-Keeps account (failed ∷ turns) = search keeps_rules

  report_offline-Keeps : (o : Option (Uuid × Bool)) → Keeps P (report_offline o)
  report_offline-Keeps none = search keeps_rules
  report_offline-Keeps (some (account, false)) = search keeps_rules
  report_offline-Keeps (some (account, true)) =
      search (keeps_rules, S.set_last_seen, broadcast_presence-Keeps) depth 20

  close_socket-Keeps : (device : Uuid) → Keeps P (Ws.close_socket device)
  unfolding Ws.close_socket
  close_socket-Keeps device = search (keeps_rules, disconnect-Keeps, report_offline-Keeps)

  handle_socket-Keeps :
      (account device : Uuid) (turns : List Turn) → Keeps P (Ws.handle_socket account device turns)
  unfolding Ws.handle_socket
  handle_socket-Keeps account device turns =
      search (keeps_rules, open_socket-Keeps, socket_loop-Keeps, close_socket-Keeps) depth 20

  upgrade-Keeps :
      (turns : List Turn) (r : Result AppError (Uuid × Uuid)) → Keeps P (upgrade turns r)
  upgrade-Keeps turns (ok (account, device)) = search (keeps_rules, handle_socket-Keeps) depth 20
  upgrade-Keeps turns (err e) = search keeps_rules

  pub ws_handler-Keeps : (token : String) (turns : List Turn) → Keeps P (Ws.ws_handler token turns)
  unfolding Ws.ws_handler
  ws_handler-Keeps token turns =
      search (keeps_rules, authed_from_token-Keeps, upgrade-Keeps) depth 20
