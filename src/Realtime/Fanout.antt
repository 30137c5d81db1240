-- ===== src/Realtime/Fanout.antt =====
-- What a subscriber of the bus receives (crates/realtime/src/lib.rs).
use trust_server.Common.{
  ◌+◌, ◌≤◌, ◌≡◌, refl, true, false, some, List, [], ◌∷◌, ◌++◌, arith, if◌then◌else◌, ◌==◌, length,
  length-append, Bool-cases, inl, inr, ==_iff, ==_refl, subst, sym, ◌∙◌,
}
use mathlib.Core.List.{append-nil, append_assoc}
use trust_server.Protocol.{Envelope}
use trust_server.Storage.Models.{Uuid}
use trust_server.Realtime.{
  Broadcast, InProcessBus, channel_of, put_channel, sender, publish, subscribe_to,
}

-- the events for a device, in order
abbrev pub events_for : Uuid → List (Uuid × Envelope) → List Envelope
events_for device [] = []
events_for device ((d, e) ∷ es) =
    let rest = events_for device es in if d == device then e ∷ rest else rest

module _ (b : Broadcast) where
  open b use {Channel, channel, send, subscribe, pending, capacity, Receives}

  abbrev pub publish_all : List (Uuid × Envelope) → InProcessBus b → InProcessBus b
  publish_all [] bus = bus
  publish_all ((d, e) ∷ es) bus = publish_all es (publish b d e bus)

  channel_of-put_channel :
      (j d : Uuid) (c : Channel) (cs : List (Uuid × Channel))
      → channel_of b j (put_channel b d c cs) ≡ (if j == d then some c else channel_of b j cs)
  channel_of-put_channel j d c [] = ground arith
  channel_of-put_channel j d c ((k, x) ∷ cs) = ground (arith, channel_of-put_channel j d c cs)

  sender-publish :
      (j d : Uuid) (e : Envelope) (bus : InProcessBus b)
      → sender b j (publish b d e bus)
        ≡ (if j == d then send e (sender b d bus) else sender b j bus)
  unfolding sender publish
  sender-publish j d e bus =
      ground (arith, channel_of-put_channel j d (send e (sender b d bus)) bus.channels)

  sender-subscribe_to :
      (d : Uuid) (bus : InProcessBus b)
      → sender b d (subscribe_to b d bus).1 ≡ (subscribe (sender b d bus)).1
  unfolding sender subscribe_to
  sender-subscribe_to d bus =
      ground
        (arith, ==_refl d, channel_of-put_channel d d (subscribe (sender b d bus)).1 bus.channels)

  sender-publish_same :
      (d j : Uuid) (e : Envelope) (bus : InProcessBus b)
      → (j == d) ≡ true
      → sender b d (publish b j e bus) ≡ send e (sender b d bus)
  sender-publish_same d j e bus t =
      subst (λ k. sender b d (publish b k e bus) ≡ send e (sender b d bus)) (sym ((==_iff j d).0 t))
        (rw (sender-publish d d e bus, ==_refl d) refl)

  sender-publish_other :
      (d j : Uuid) (e : Envelope) (bus : InProcessBus b)
      → (j == d) ≡ false
      → sender b d (publish b j e bus) ≡ sender b d bus
  sender-publish_other d j e bus f =
      let other : (d == j) ≡ false = ground arith in rw (sender-publish d j e bus, other) refl

  -- a receiver takes what it had and then the events for its device
  publish_all-pending :
      (d r : Uuid) (es : List (Uuid × Envelope)) (bus : InProcessBus b)
      → Receives r (sender b d bus)
      → length (pending r (sender b d bus)) + length (events_for d es) ≤ capacity (sender b d bus)
      → pending r (sender b d (publish_all es bus)) ≡ pending r (sender b d bus) ++ events_for d es
  publish_all-pending d r [] bus h l = rw append-nil refl
  publish_all-pending d r ((j, e) ∷ es) bus h l = elim (Bool-cases (j == d)) [
    | inl t ↦
        let now = sender-publish_same d j e bus t in
        let room = rw t at l in
        let sent = b.pending-send e r (sender b d bus) h (omega arith) in
        rw t (
          publish_all-pending d r es (publish b j e bus)
            (rw now (b.send-Receives e r (sender b d bus) h))
            (rw (now, b.capacity-send, sent, length-append) (omega arith))
          ∙ rw (now, sent, append_assoc) refl)
    | inr f ↦
        let same = sender-publish_other d j e bus f in
        rw f (
          publish_all-pending d r es (publish b j e bus) (rw same h) (rw same (rw f at l))
          ∙ rw same refl)
  ]

  -- A device that subscribes receives the events that are published to it from then on, in their
  -- order, none lost and none of another device among them, as long as they are not more than its
  -- channel holds.
  pub subscriber_receives :
      (d : Uuid) (es : List (Uuid × Envelope)) (bus : InProcessBus b)
      → length (events_for d es) ≤ capacity (sender b d bus)
      → let (r, bus') = subscribe_to b d bus in
        pending r (sender b d (publish_all es bus')) ≡ events_for d es
  unfolding subscribe_to
  subscriber_receives d es bus l =
      let same = sender-subscribe_to d bus in
      let fresh = b.pending-subscribe (sender b d bus) in
      publish_all-pending d (subscribe_to b d bus).0 es (subscribe_to b d bus).1
        (rw same (b.subscribe-Receives (sender b d bus)))
        (rw (same, fresh, b.capacity-subscribe) (omega arith))
      ∙ rw (same, fresh) refl
