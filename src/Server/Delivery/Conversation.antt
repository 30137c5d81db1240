-- ===== src/Server/Delivery/Conversation.antt =====
-- To whom `deliver_to_conversation` of crates/server/src/messaging.rs publishes.
use trust_server.Common.{
  ℕ, suc, ◌≡◌, refl, false, not, ◌&&◌, List, [], ◌∷◌, ◌++◌, arith, map, filter, any, flat_map, ◌==◌,
  any-append,
}
use mathlib.Core.List.{append-nil, append_assoc}
use trust_server.Exec.{ok, for_each}
use trust_server.Protocol.{Envelope}
use trust_server.Storage.Models.{Uuid, Device}
use trust_server.Storage.Tables.{Member}
use trust_server.Storage.AuthRepo.{active_device_of}
use trust_server.Storage.Backend.{execute}
use trust_server.Server.World.{World}
use trust_server.Server.Db.Conversations.{conversation_member_ids, in_conversation}
use trust_server.Server.Delivery.{deliver_to_account, own_device, deliver_to_conversation}
use trust_server.Server.Delivery.Recipients.{notices, deliver_to_account-notices}

-- the notices for the members of a conversation
abbrev pub member_notices :
    Envelope → Uuid → Uuid → List Device → List Uuid → List (Uuid × Envelope)
member_notices env actor device devices members =
    flat_map (λ m. notices env (own_device actor device m) (filter (active_device_of m) devices))
      members

for_each-deliver :
    (env : Envelope) (actor device : Uuid) (members : List Uuid) (w : World)
    → ((n : ℕ) → w.backend.outside.fault n ≡ false)
    → (k : ℕ) × (for_each members (λ m. deliver_to_account m env (own_device actor device m)) w ≡ (
      ok tt,
      record w {
        backend = record w.backend { calls = k };
        published = w.published ++ member_notices env actor device w.backend.tables.devices members;
      },
    ))
unfolding for_each
for_each-deliver env actor device [] w up = (w.backend.calls, rw append-nil refl)
for_each-deliver env actor device (m ∷ ms) w up =
    let one = deliver_to_account-notices m env (own_device actor device m) w in
    let first =
      notices env (own_device actor device m)
        (filter (active_device_of m) w.backend.tables.devices) in
    let (k, rest) =
      for_each-deliver env actor device ms
        (record w {
          backend = record w.backend { calls = suc w.backend.calls };
          published = w.published ++ first;
        })
        up in
    (k, rw (one, up w.backend.calls, rest, append_assoc) refl)

-- the device belongs to no other account
abbrev pub IsDeviceOf : Uuid → Uuid → List Device → Type 0
IsDeviceOf account device devices =
    any (λ d. d.id == device && not (d.account_id == account)) devices ≡ false

own_skipped :
    (env : Envelope) (actor device m : Uuid) (devices : List Device)
    → IsDeviceOf actor device devices
    → any
        (λ n. n.0 == device)
        (notices env (own_device actor device m) (filter (active_device_of m) devices))
      ≡ false
own_skipped env actor device m [] h = refl
own_skipped env actor device m (d ∷ ds) h = ground (arith, own_skipped env actor device m ds)

members_skip_own :
    (env : Envelope) (actor device : Uuid) (devices : List Device) (members : List Uuid)
    → IsDeviceOf actor device devices
    → any (λ n. n.0 == device) (member_notices env actor device devices members) ≡ false
members_skip_own env actor device devices [] h = refl
members_skip_own env actor device devices (m ∷ ms) h =
    rw
      (
        any-append (λ n. n.0 == device)
            (notices env (own_device actor device m) (filter (active_device_of m) devices))
            (member_notices env actor device devices ms),
        own_skipped env actor device m devices h,
      )
      (members_skip_own env actor device devices ms h)

-- With the database in reach, an event for a conversation is published once to each device, not revoked, of each of its
-- members, and never to the device of the actor that caused it, where that device belongs to no other account.
pub deliver_to_conversation_skips_own :
    (cid : Uuid) (env : Envelope) (actor device : Uuid) (w : World)
    → ((n : ℕ) → w.backend.outside.fault n ≡ false)
    → IsDeviceOf actor device w.backend.tables.devices
    → let members =
        map
          (λ m. m.account_id)
          (filter (in_conversation cid) w.backend.tables.conversation_members) in
      let new = member_notices env actor device w.backend.tables.devices members in
      (k : ℕ) × (deliver_to_conversation cid env actor device w ≡ (
        ok tt,
        record w { backend = record w.backend { calls = k }; published = w.published ++ new },
      ))
      × (any (λ n. n.0 == device) new ≡ false)
unfolding deliver_to_conversation conversation_member_ids execute
deliver_to_conversation_skips_own cid env actor device w up own =
    let members =
      map (λ (m : Member). m.account_id)
        (filter (in_conversation cid) w.backend.tables.conversation_members) in
    let (k, e) =
      for_each-deliver env actor device members
        (record w { backend = record w.backend { calls = suc w.backend.calls } }) up in
    (
      k,
      rw (up w.backend.calls, e) refl,
      members_skip_own env actor device w.backend.tables.devices members own,
    )
