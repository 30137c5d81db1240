-- ===== src/Protocol/Negotiation.antt =====
-- What the handshake settles on (crates/protocol/src/lib.rs).
use mathlib.Core.List.{Sublist}
use trust_server.Common.{◌≡◌, refl, Bool, true, ◌&&◌, List, [], ◌∷◌, arith, filter, filter-Sublist}
use trust_server.Protocol.{Capability, same, contains, negotiate_capabilities}

same→eq : (a b : Capability) → same a b ≡ true → a ≡ b
unfolding same
same→eq a b h = ground arith

contains-filter :
    (p : Capability → Bool) (cs : List Capability) (c : Capability)
    → contains (filter p cs) c ≡ (contains cs c && p c)
contains-filter p [] c = refl
contains-filter p (x ∷ xs) c = ground (arith, contains-filter p xs c, same→eq c x)

-- A capability is negotiated exactly when both sides advertise it, and the negotiated list is a
-- sublist of the server's, in the server's order.
pub negotiate_capabilities-contains :
    (server client : List Capability)
    → ((c : Capability)
        → contains (negotiate_capabilities server client) c
          ≡ (contains server c && contains client c))
      × Sublist (negotiate_capabilities server client) server
unfolding negotiate_capabilities
negotiate_capabilities-contains server client =
    (contains-filter (contains client) server, filter-Sublist (contains client) server)
