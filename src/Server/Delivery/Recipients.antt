-- ===== src/Server/Delivery/Recipients.antt =====
-- To whom `deliver_to_account` of crates/server/src/messaging.rs publishes.
use trust_server.Common.{
  suc, ◌≡◌, refl, not, Option, List, [], ◌∷◌, ◌++◌, map, filter, is_just, if◌then◌else◌, Bool-cases,
  inl, inr,
}
use mathlib.Core.List.{append-nil, append_assoc}
use trust_server.Exec.{ok, for_each}
use trust_server.Protocol.{Envelope}
use trust_server.Storage.Models.{Uuid, Device}
use trust_server.Storage.AuthRepo.{active_device_of, list_devices_for_account}
use trust_server.Storage.Backend.{execute}
use trust_server.Server.World.{World, called}
use trust_server.Server.Delivery.{publish_unless, deliver_to_account}

-- the notices for a list of devices
abbrev pub notices : Envelope → Option Uuid → List Device → List (Uuid × Envelope)
notices env except devices =
    map (λ d. (d.id, env)) (filter (λ d. not (is_just d.id except)) devices)

for_each-publish :
    (env : Envelope) (except : Option Uuid) (devices : List Device) (w : World)
    → for_each devices (publish_unless env except) w
      ≡ (ok tt, record w { published = w.published ++ notices env except devices })
unfolding for_each
for_each-publish env except [] w = rw (append-nil) refl
for_each-publish env except (d ∷ ds) w = elim (Bool-cases (is_just d.id except)) [
  | inl e ↦ rw (e, for_each-publish env except ds w) refl
  | inr e ↦
      rw
        (
          e,
          for_each-publish env except ds (record w { published = w.published ++ (d.id, env) ∷ [] }),
          append_assoc,
        )
        refl
]

-- An event for an account is published once to each of its devices that is not revoked, the excepted one
-- left out, and to nobody if the devices cannot be read; the call itself never fails and changes no table.
pub deliver_to_account-notices :
    (account : Uuid) (env : Envelope) (except : Option Uuid) (w : World)
    → deliver_to_account account env except w ≡ (
      ok tt,
      record w {
        backend = record w.backend { calls = suc w.backend.calls };
        published =
            w.published
            ++ (if w.backend.outside.fault w.backend.calls
                then []
                else notices env except
                    (filter (active_device_of account) w.backend.tables.devices));
      },
    )
unfolding deliver_to_account list_devices_for_account execute
deliver_to_account-notices account env except w =
    elim (Bool-cases (w.backend.outside.fault w.backend.calls)) [
      | inl e ↦ rw (e, append-nil) refl
      | inr e ↦
          rw
            (
              e,
              for_each-publish env except
                  (filter (active_device_of account) w.backend.tables.devices) (called w),
            )
            refl
    ]
