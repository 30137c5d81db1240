-- ===== src/Server/Presence.antt =====
-- crates/server/src/presence.rs: who is connected. The two maps are association lists with one
-- entry for each key; a count is a `usize` that never comes near its bound.
pub mod Maps
pub mod Counting
pub mod Sockets
use trust_server.Common.{
  ℕ, suc, ◌+◌, ◌-◌, Bool, true, false, not, Option, none, some, List, [], ◌∷◌, map, if◌then◌else◌,
  ◌==◌, is_some,
}
use trust_server.Storage.Models.{Uuid}

abbrev pub Map : Type 0
Map = List (Uuid × ℕ)

abbrev pub lookup : Uuid → Map → Option ℕ
lookup k [] = none
lookup k ((j, v) ∷ m) = let rest = lookup k m in if k == j then some v else rest

-- `HashMap::insert`
abbrev pub insert : Uuid → ℕ → Map → Map
insert k v [] = (k, v) ∷ []
insert k v ((j, w) ∷ m) = let rest = insert k v m in if k == j then (k, v) ∷ m else (j, w) ∷ rest

-- `HashMap::remove`
abbrev pub erase : Uuid → Map → Map
erase k [] = []
erase k ((j, v) ∷ m) = let rest = erase k m in if k == j then m else (j, v) ∷ rest

pub record Presence : Type 0 where
  -- account → connected device count
  pub online : Map
  -- device → account
  pub connected : Map

abbrev pub new : Presence
new = record { online = []; connected = [] }

-- `*entry(account).or_insert(0)`
abbrev pub count : Uuid → Presence → ℕ
count account p = elim (lookup account p.online) [ none ↦ 0 | some c ↦ c ]

unfoldable pub on_connect : Uuid → Uuid → Presence → Bool × Presence
on_connect device account p =
    let c = count account p + 1 in
    (
      c == 1,
      record p {
        connected = insert device account p.connected;
        online = insert account c p.online;
      },
    )

-- the two ways on from the decremented count
abbrev release : Uuid → Option ℕ → Presence → Bool × Presence
release account none p = (true, p)
release account (some c) p =
    if c - 1 == 0
    then (true, record p { online = erase account p.online })
    else (false, record p { online = insert account (c - 1) p.online })

abbrev disconnect : Uuid → Option Uuid → Presence → Option (Uuid × Bool) × Presence
disconnect device none p = (none, p)
disconnect device (some account) p =
    let (went_offline, p') =
      release account (lookup account p.online)
        (record p { connected = erase device p.connected }) in
    (some (account, went_offline), p')

unfoldable pub on_disconnect : Uuid → Presence → Option (Uuid × Bool) × Presence
on_disconnect device p = disconnect device (lookup device p.connected) p

unfoldable pub is_online : Uuid → Presence → Bool
is_online account p = is_some (lookup account p.online)

-- a `HashMap` gives its keys in no fixed order
unfoldable pub connected_devices : Presence → List Uuid
connected_devices p = map (λ e. e.0) p.connected
