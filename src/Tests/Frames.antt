-- ===== src/Tests/Frames.antt =====
-- A frame that a client sends over its socket, on a small database.
use trust_server.Common.{none, some, refl, []}
use trust_server.Server.Presence as Presence
use trust_server.Server.World.{World}
use trust_server.Server.Ws.{Inbound, handle_inbound}
use trust_server.Server.Ws.Relay.{ReachesOnly, frames_reach_only_target}
use trust_server.Tests.Sample.{alice, backend}

abbrev world : World
world = record { backend = backend; presence = Presence.new; published = [] }

abbrev frame : Inbound
frame = record {
  type = "typing.start";
  to = some "alice";
  message_id = none;
  emoji = none;
  up_to_seq = none;
  activity = some "typing";
  from = none;
  call_id = none;
  media = none;
  sdp = none;
  candidate = none;
}

frames_reach_only_target_example :
    ReachesOnly 1 world.backend.tables.devices "typing.start" world
      (handle_inbound 2 (some frame) world)
frames_reach_only_target_example = frames_reach_only_target 2 frame "alice" alice world refl refl
