-- ===== src/Realtime.antt =====
-- crates/realtime/src/lib.rs: the single-process bus over tokio's broadcast channels, which are a
-- parameter.
pub mod Fanout
use trust_server.Common.{
  ℕ, ◌<◌, ◌≤◌, ◌≡◌, ◌≢◌, String, Bool, Option, none, some, List, [], ◌∷◌, ◌++◌, if◌then◌else◌, ◌==◌,
  length,
}
use trust_server.Protocol.{Envelope}

-- `tokio::sync::broadcast`: a channel of a capacity, and what a receiver can still take from it.
-- The laws are what its documentation promises of a receiver that has not lagged.
pub record Broadcast : Type 1 where
  pub Channel : Type 0
  pub channel : ℕ → Channel
  pub send : Envelope → Channel → Channel
  -- the receiver's number, and the channel with it
  pub subscribe : Channel → ℕ × Channel
  pub pending : ℕ → Channel → List Envelope
  pub capacity : Channel → ℕ
  -- the receivers of a channel
  pub Receives : ℕ → Channel → Type 0
  pub capacity-channel : (n : ℕ) → n ≤ capacity (channel n)
  pub capacity-send : (e : Envelope) (c : Channel) → capacity (send e c) ≡ capacity c
  pub capacity-subscribe : (c : Channel) → capacity (subscribe c).1 ≡ capacity c
  pub subscribe-Receives : (c : Channel) → Receives (subscribe c).0 (subscribe c).1
  pub send-Receives : (e : Envelope) (r : ℕ) (c : Channel) → Receives r c → Receives r (send e c)
  -- a new receiver has nothing to take
  pub pending-subscribe : (c : Channel) → pending (subscribe c).0 (subscribe c).1 ≡ []
  -- below the capacity no message is lost, and messages come in the order in which they were sent
  pub pending-send :
      (e : Envelope) (r : ℕ) (c : Channel)
      → Receives r c
      → length (pending r c) < capacity c
      → pending r (send e c) ≡ pending r c ++ e ∷ []

module _ (b : Broadcast) where
  open b use {Channel, channel, send, subscribe}

  pub record InProcessBus : Type 0 where
    pub channels : List (ℕ × Channel)
    pub bound : ℕ

  abbrev pub new : ℕ → InProcessBus
  new bound = record { channels = []; bound = bound }

  -- `InProcessBus::default`
  abbrev pub default : InProcessBus
  default = new 256

  -- `channels.entry(device)`
  abbrev pub channel_of : ℕ → List (ℕ × Channel) → Option Channel
  channel_of device [] = none
  channel_of device ((d, c) ∷ cs) =
      let rest = channel_of device cs in if device == d then some c else rest

  abbrev pub put_channel : ℕ → Channel → List (ℕ × Channel) → List (ℕ × Channel)
  put_channel device c [] = (device, c) ∷ []
  put_channel device c ((d, x) ∷ cs) =
      let rest = put_channel device c cs in if device == d then (d, c) ∷ cs else (d, x) ∷ rest

  -- the channel of a device, made where there is none
  unfoldable pub sender : ℕ → InProcessBus → Channel
  sender device bus = elim (channel_of device bus.channels) [
    | none ↦ channel bus.bound
    | some c ↦ c
  ]

  unfoldable pub publish : ℕ → Envelope → InProcessBus → InProcessBus
  unfolding sender
  publish device event bus = record bus {
    channels = put_channel device (send event (sender device bus)) bus.channels;
  }

  unfoldable pub subscribe_to : ℕ → InProcessBus → ℕ × InProcessBus
  unfolding sender
  subscribe_to device bus =
      let (r, c) = subscribe (sender device bus) in
      (r, record bus { channels = put_channel device c bus.channels })
