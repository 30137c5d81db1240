-- ===== src/Server/Keeps/Events.antt =====
-- The delivery of events keeps every property of the tables.
use trust_server.Common.{String, Bool, Option, List}
use trust_server.Exec.{Result, ok, err}
use trust_server.Protocol.{Envelope}
use trust_server.Protocol.Payload.{Json}
use trust_server.Storage.Models.{Uuid, Time, Device}
use trust_server.Storage.Tables.{Tables}
use trust_server.Server.Error.{AppError}
use trust_server.Server.Keeps.{Keeps, keeps_rules}
use trust_server.Server.Keeps.Queries.{keeps_reads}
use trust_server.Server.Delivery
use trust_server.Server.Delivery.{publish_to, deliver_to_members}

module _ {P : Tables → Type 0} where
  pub envelope-Keeps : (type : String) (payload : Json) → Keeps P (Delivery.envelope type payload)
  unfolding Delivery.envelope
  envelope-Keeps type payload = search keeps_rules

  pub publish_to-Keeps :
      (env : Envelope) (except : Option Uuid) (r : Result AppError (List Device))
      → Keeps P (publish_to env except r)
  publish_to-Keeps env except (ok devices) = search keeps_rules
  publish_to-Keeps env except (err e) = search keeps_rules

  pub deliver_to_account-Keeps :
      (account : Uuid) (env : Envelope) (except : Option Uuid)
      → Keeps P (Delivery.deliver_to_account account env except)
  unfolding Delivery.deliver_to_account
  deliver_to_account-Keeps account env except = search (keeps_rules, keeps_reads, publish_to-Keeps)

  pub broadcast_presence-Keeps :
      (account : Uuid) (online : Bool) (seen : Option Time)
      → Keeps P (Delivery.broadcast_presence account online seen)
  unfolding Delivery.broadcast_presence
  broadcast_presence-Keeps account online seen = search (keeps_rules, envelope-Keeps)

  pub deliver_to_members-Keeps :
      (env : Envelope) (actor device : Uuid) (r : Result AppError (List Uuid))
      → Keeps P (deliver_to_members env actor device r)
  deliver_to_members-Keeps env actor device (ok members) =
      search (keeps_rules, deliver_to_account-Keeps)
  deliver_to_members-Keeps env actor device (err e) = search keeps_rules

  pub deliver_to_conversation-Keeps :
      (cid : Uuid) (env : Envelope) (actor device : Uuid)
      → Keeps P (Delivery.deliver_to_conversation cid env actor device)
  unfolding Delivery.deliver_to_conversation
  deliver_to_conversation-Keeps cid env actor device =
      search (keeps_rules, keeps_reads, deliver_to_members-Keeps)
