-- ===== src/Tests/Presence.antt =====
-- Sockets that open and close, and the commits of a group.
use trust_server.Common.{◌+◌, ◌≡◌, refl, true, not, List, [], ◌∷◌, arith, ◌==◌, length, ◌&&◌}
use mathlib.Core.List.{Sublist}
use trust_server.Common.Int.{ℤ, pos}
use trust_server.Protocol.{Capability, contains, negotiate_capabilities}
use trust_server.Protocol.Negotiation.{negotiate_capabilities-contains}
use trust_server.Server.World.{capabilities}
use trust_server.Server.Presence.{new, is_online, on_connect}
use trust_server.Server.Presence.Maps.{keys_with}
use trust_server.Server.Presence.Counting.{
  opened, closed, Event, run, new-IsCounted, online_iff_device, OneSocket,
}
use trust_server.Server.Presence.Sockets.{two_sockets, two_sockets_stay_online}
use trust_server.Commit.Chain.{accepted, final, epochs_from, commits_form_chain}

-- two devices of one account come and the first one goes
abbrev events : List Event
events = opened 11 1 ∷ opened 12 1 ∷ closed 11 ∷ []

events-OneSocket : OneSocket events new
unfolding on_connect
events-OneSocket = (refl, (refl, tt))

online_iff_device_example :
    is_online 1 (run events new) ≡ not (keys_with 1 (run events new).connected == 0)
online_iff_device_example = online_iff_device events 1 events-OneSocket

two_sockets_stay_online_example :
    (is_online 1 (run (two_sockets 11 1) new) ≡ true)
    × (keys_with 1 (run (two_sockets 11 1) new).connected ≡ 0)
two_sockets_stay_online_example = two_sockets_stay_online 11 1 new new-IsCounted refl refl

-- the third commit is built on an epoch that has passed
abbrev commits : List ℤ
commits = pos 5 ∷ pos 6 ∷ pos 5 ∷ pos 7 ∷ []

commits_form_chain_example :
    (accepted (pos 5) commits ≡ epochs_from 5 (length (accepted (pos 5) commits)))
    × (final (pos 5) commits ≡ pos (5 + length (accepted (pos 5) commits)))
commits_form_chain_example = commits_form_chain 5 commits (ground arith)

negotiate_capabilities-contains_example :
    ((c : Capability)
      → contains (negotiate_capabilities capabilities (Capability.typing ∷ [])) c
        ≡ (contains capabilities c && contains (Capability.typing ∷ []) c))
    × Sublist (negotiate_capabilities capabilities (Capability.typing ∷ [])) capabilities
negotiate_capabilities-contains_example =
    negotiate_capabilities-contains capabilities (Capability.typing ∷ [])
