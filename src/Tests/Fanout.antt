-- ===== src/Tests/Fanout.antt =====
-- A subscriber of the bus, over channels that are lists of receivers' queues.
use trust_server.Common.{
  ℕ, zero, suc, ◌<◌, ◌≤◌, ◌≡◌, refl, List, [], ◌∷◌, ◌++◌, arith, length, length-append,
  if◌then◌else◌, ltb, map,
}
use trust_server.Protocol.{Envelope}
use trust_server.Protocol.Payload.{json}
use trust_server.Realtime.{Broadcast, InProcessBus, new, sender, subscribe_to}
use trust_server.Realtime.Fanout.{events_for, publish_all, subscriber_receives}

pub record Queues : Type 0 where
  pub queues : List (List Envelope)
  pub limit : ℕ

abbrev pub queue_of : ℕ → List (List Envelope) → List Envelope
queue_of n [] = []
queue_of zero (q ∷ qs) = q
queue_of (suc n) (q ∷ qs) = queue_of n qs

-- a queue that is full loses its oldest message
abbrev pub add_to : ℕ → Envelope → List Envelope → List Envelope
add_to limit e [] = e ∷ []
add_to limit e (x ∷ q) = if ltb (length (x ∷ q)) limit then (x ∷ q) ++ e ∷ [] else q ++ e ∷ []

pub queue_of-new : (qs : List (List Envelope)) → queue_of (length qs) (qs ++ [] ∷ []) ≡ []
queue_of-new [] = refl
queue_of-new (q ∷ qs) = queue_of-new qs

pub queue_of-map :
    (n : ℕ) (f : List Envelope → List Envelope) (qs : List (List Envelope))
    → n < length qs
    → queue_of n (map f qs) ≡ f (queue_of n qs)
queue_of-map zero f [] l = ground arith
queue_of-map (suc n) f [] l = ground arith
queue_of-map zero f (q ∷ qs) l = refl
queue_of-map (suc n) f (q ∷ qs) l = queue_of-map n f qs (omega arith)

pub length-map :
    (f : List Envelope → List Envelope) (qs : List (List Envelope)) → length (map f qs) ≡ length qs
length-map f [] = refl
length-map f (q ∷ qs) = ground (arith, length-map f qs)

pub add_to-room :
    (limit : ℕ) (e : Envelope) (q : List Envelope)
    → length q < limit
    → add_to limit e q ≡ q ++ e ∷ []
add_to-room limit e [] l = refl
add_to-room limit e (x ∷ q) l = ground arith

abbrev pub queues_broadcast : Broadcast
queues_broadcast = record {
  Channel = Queues;
  channel = λ n. record { queues = []; limit = n };
  send = λ e c. record c { queues = map (add_to c.limit e) c.queues };
  subscribe = λ c. (length c.queues, record c { queues = c.queues ++ [] ∷ [] });
  pending = λ r c. queue_of r c.queues;
  capacity = λ c. c.limit;
  Receives = λ r c. r < length c.queues;
  capacity-channel = λ n. omega arith;
  capacity-send = λ e c. refl;
  capacity-subscribe = λ c. refl;
  subscribe-Receives = λ c. omega (arith, length-append c.queues ([] ∷ []));
  send-Receives = λ e r c h. omega (arith, length-map (add_to c.limit e) c.queues);
  pending-subscribe = λ c. queue_of-new c.queues;
  pending-send = λ e r c h l.
      rw (queue_of-map r (add_to c.limit e) c.queues h)
        (add_to-room c.limit e (queue_of r c.queues) l);
}

abbrev event : ℕ → Envelope
event id = record { v = 0; type = "message.new"; id = id; ts = 0; payload = json [] }

abbrev events : List (ℕ × Envelope)
events = (11, event 1) ∷ (12, event 2) ∷ (11, event 3) ∷ []

abbrev pub bus : InProcessBus queues_broadcast
bus = new queues_broadcast 2

room : length (events_for 11 events) ≤ queues_broadcast.capacity (sender queues_broadcast 11 bus)
unfolding sender
room = ground arith

subscriber_receives_example :
    let (r, bus') = subscribe_to queues_broadcast 11 bus in
    queues_broadcast.pending r
      (sender queues_broadcast 11 (publish_all queues_broadcast events bus'))
    ≡ event 1 ∷ event 3 ∷ []
subscriber_receives_example = subscriber_receives queues_broadcast 11 events bus room
