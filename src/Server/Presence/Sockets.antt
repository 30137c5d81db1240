-- ===== src/Server/Presence/Sockets.antt =====
-- Two sockets of one device (crates/server/src/presence.rs).
use trust_server.Common.{ℕ, ◌≡◌, true, none, List, [], ◌∷◌, arith}
use trust_server.Storage.Models.{Uuid}
use trust_server.Server.Presence.{
  Map, lookup, insert, Presence, on_connect, on_disconnect, is_online,
}
use trust_server.Server.Presence.Maps.{
  lookup-insert, insert-HasKeys, lookup-erase, keys_with, keys_with-insert, keys_with-erase,
}
use trust_server.Server.Presence.Counting.{Event, opened, closed, run, IsCounted}

-- inserting a pair again changes nothing
insert-insert : (k v : ℕ) (m : Map) → insert k v (insert k v m) ≡ insert k v m
insert-insert k v [] = ground arith
insert-insert k v (e ∷ m) = ground (arith, insert-insert k v m)

-- the sockets of one device: two open, and both close
abbrev pub two_sockets : Uuid → Uuid → List Event
two_sockets d a = opened d a ∷ opened d a ∷ closed d ∷ closed d ∷ []

-- If the counts are right, no device of an account is connected, and one of its devices opens two
-- sockets that both close, then no device of the account is connected and it stays online.
pub two_sockets_stay_online :
    (d a : Uuid) (p : Presence)
    → IsCounted p
    → lookup d p.connected ≡ none
    → keys_with a p.connected ≡ 0
    → (is_online a (run (two_sockets d a) p) ≡ true)
      × (keys_with a (run (two_sockets d a) p).connected ≡ 0)
unfolding is_online on_connect on_disconnect
two_sockets_stay_online d a p h away alone =
    let c = insert d a p.connected in
    let k = insert-HasKeys d a p.connected h.devices in
    ground (
      arith,
      h.counts a,
      insert-insert d a p.connected,
      lookup-insert d d a p.connected,
      keys_with-insert a d a p.connected,
      keys_with-erase a d a c,
      lookup-erase d d c k,
      lookup-insert a a 1 p.online,
      lookup-insert a a 2 (insert a 1 p.online),
      lookup-insert a a 1 (insert a 2 (insert a 1 p.online)),
    )
