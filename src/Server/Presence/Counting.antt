-- ===== src/Server/Presence/Counting.antt =====
-- The counts of connected devices, with one socket for each device
-- (crates/server/src/presence.rs).
use trust_server.Common.{
  ℕ, ◌+◌, ◌-◌, ◌≡◌, refl, not, Option, none, some, List, [], ◌∷◌, arith, if◌then◌else◌, ◌==◌,
}
use trust_server.Storage.Models.{Uuid}
use trust_server.Server.Presence.{
  lookup, Presence, new, count, disconnect, on_connect, on_disconnect, is_online,
}
use trust_server.Server.Presence.Maps.{
  HasKeys, lookup-insert, insert-HasKeys, lookup-erase, erase-HasKeys, keys_with, keys_with-insert,
  keys_with-erase,
}

abbrev pub entry : ℕ → Option ℕ
entry n = if n == 0 then none else some n

-- The map of counts holds, for each account with a connected device, how many there are.
pub record IsCounted (p : Presence) : Type 0 where
  pub devices : HasKeys p.connected
  pub accounts : HasKeys p.online
  pub counts : (a : Uuid) → lookup a p.online ≡ entry (keys_with a p.connected)

pub on_connect-IsCounted :
    (d a : Uuid) (p : Presence)
    → IsCounted p
    → lookup d p.connected ≡ none
    → IsCounted (on_connect d a p).1
unfolding on_connect
on_connect-IsCounted d a p h away = record {
  devices = insert-HasKeys d a p.connected h.devices;
  accounts = insert-HasKeys a _ p.online h.accounts;
  counts = λ x. ground (
    arith,
    h.counts a,
    h.counts x,
    keys_with-insert x d a p.connected,
    lookup-insert x a (count a p + 1) p.online,
  );
}

disconnect-IsCounted :
    (d : Uuid) (o : Option Uuid) (p : Presence)
    → IsCounted p
    → lookup d p.connected ≡ o
    → IsCounted (disconnect d o p).1
disconnect-IsCounted d none p h e = h
disconnect-IsCounted d (some a) p h e = record {
  devices = ground (arith, erase-HasKeys d p.connected h.devices);
  accounts = ground (
    arith,
    erase-HasKeys a p.online h.accounts,
    insert-HasKeys a (keys_with a p.connected - 1) p.online h.accounts,
    h.counts a,
  );
  counts = λ x. ground (
    arith,
    h.counts a,
    h.counts x,
    keys_with-erase x d a p.connected,
    keys_with-erase a d a p.connected,
    lookup-erase x a p.online h.accounts,
    lookup-insert x a (keys_with a p.connected - 1) p.online,
  );
}

pub on_disconnect-IsCounted :
    (d : Uuid) (p : Presence) → IsCounted p → IsCounted (on_disconnect d p).1
unfolding on_disconnect
on_disconnect-IsCounted d p h = disconnect-IsCounted d (lookup d p.connected) p h refl

-- What sockets do to the presence maps: one opens for a device of an account, one closes.
pub data Event : Type 0 where
  opened : Uuid → Uuid → Event
  closed : Uuid → Event

abbrev pub step : Event → Presence → Presence
step (opened d a) p = (on_connect d a p).1
step (closed d) p = (on_disconnect d p).1

abbrev pub run : List Event → Presence → Presence
run [] p = p
run (e ∷ es) p = run es (step e p)

-- No socket opens for a device that is connected.
abbrev pub OneSocket : List Event → Presence → Type 0
OneSocket [] p = Unit
OneSocket (opened d a ∷ es) p = (lookup d p.connected ≡ none) × OneSocket es (step (opened d a) p)
OneSocket (closed d ∷ es) p = OneSocket es (step (closed d) p)

run-IsCounted :
    (es : List Event) (p : Presence) → OneSocket es p → IsCounted p → IsCounted (run es p)
run-IsCounted [] p o h = h
run-IsCounted (opened d a ∷ es) p o h =
    run-IsCounted es (on_connect d a p).1 o.1 (on_connect-IsCounted d a p h o.0)
run-IsCounted (closed d ∷ es) p o h =
    run-IsCounted es (on_disconnect d p).1 o (on_disconnect-IsCounted d p h)

pub new-IsCounted : IsCounted new
new-IsCounted = record { devices = tt; accounts = tt; counts = λ a. refl }

-- After any sequence of sockets that open and close, where none opens for a device that is
-- connected already, an account is online exactly if some connected device is one of its devices.
pub online_iff_device :
    (es : List Event) (a : Uuid)
    → OneSocket es new
    → is_online a (run es new) ≡ not (keys_with a (run es new).connected == 0)
unfolding is_online
online_iff_device es a o =
    let h = run-IsCounted es new o new-IsCounted in ground (arith, h.counts a)
