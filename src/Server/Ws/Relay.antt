-- ===== src/Server/Ws/Relay.antt =====
-- Whom the frames of a client reach (`handle_inbound` of crates/server/src/ws.rs).
use trust_server.Common.{
  ℕ, suc, ◌≡◌, refl, ap, sym, subst, ◌∙◌, String, Bool, true, false, ◌&&◌, Option, none, some, List,
  [], ◌∷◌, ◌++◌, arith, filter, find?, any, leb, ◌==◌, ==_refl, if◌then◌else◌, Bool-cases, inl, inr,
  All, All-map,
}
use mathlib.Core.List.{append-nil}
use trust_server.Exec.{map_err, Result, ok, err}
use trust_server.Protocol.{Envelope}
use trust_server.Protocol.Payload.{Json}
use trust_server.Storage.Models.{Uuid, Device, Account}
use trust_server.Storage.Tables.{Tables}
use trust_server.Storage.AuthRepo
use trust_server.Storage.AuthRepo.{account_has_name, active_device_of}
use trust_server.Storage.Backend.{Backend, Sql, execute, select, one}
use trust_server.Storage.Ensures.{
  Ensures, Outcome, Ensures-execute, Ensures-bind, Ensures-pure, Ensures-new_uuid, Ensures-state,
}
use trust_server.Server.Error.{AppError, from_sql}
use trust_server.Server.World.{World, called}
use trust_server.Server.Delivery.{envelope}
use trust_server.Server.Delivery.Recipients.{notices, deliver_to_account-notices}
use trust_server.Server.Db.Conversations.{
  dm_conversation, pair_conversation, create_pair, or_create, pair_id, insert_conversation,
  insert_members, insert_pair,
}
use trust_server.Server.Db.Receipts.{
  MarkerTable, read_markers, delivered_markers, advance, mark, mark_read, mark_delivered,
}
use trust_server.Server.Ws.{
  Inbound, Kind, kind_of, persist, relayed, relay, in_dm, to_target, addressed, handle_inbound,
}

-- a query that keeps the devices
abbrev KeepsDevices : {A : Type 0} → Sql A → Type 0
KeepsDevices m =
    (ds : List Device)
    → Ensures (λ t. t.devices ≡ ds) m (λ _ t. t.devices ≡ ds) (λ t. t.devices ≡ ds)

mark-KeepsDevices :
    (table : MarkerTable) (cid account : Uuid) → KeepsDevices (mark table cid account)
unfolding mark
mark-KeepsDevices table cid account ds =
    Ensures-execute (λ _ t. t.devices ≡ ds) (advance table cid account) (λ t p. p)
      (λ now t p. go table now t p)
  where
    go :
        (table : MarkerTable) (now : ℕ) (t : Tables)
        → t.devices ≡ ds
        → Outcome (λ _ t'. t'.devices ≡ ds) (advance table cid account now t)
    go read_markers now t p = ground arith
    go delivered_markers now t p = ground arith

create_pair-KeepsDevices : (lo hi : Uuid) → KeepsDevices (create_pair lo hi)
unfolding create_pair
create_pair-KeepsDevices lo hi ds =
    Ensures-bind (Ensures-new_uuid (λ t. t.devices ≡ ds) (λ t. t.devices ≡ ds)) λ cid.
      Ensures-bind
        (Ensures-execute (λ _ t. t.devices ≡ ds) (insert_conversation cid) (λ t p. p)
          (λ now t p. ground arith))
        λ _.
          Ensures-bind
            (Ensures-execute (λ _ t. t.devices ≡ ds) (insert_members cid lo hi) (λ t p. p)
              (λ now t p. ground arith))
            λ _.
              Ensures-bind
                (Ensures-execute (λ _ t. t.devices ≡ ds) (insert_pair lo hi cid) (λ t p. p)
                  (λ now t p. ground arith))
                λ _.
                  Ensures-execute (λ _ t. t.devices ≡ ds) (one (pair_id lo hi)) (λ t p. p)
                    (λ now t p. ground arith)

pair_conversation-KeepsDevices : (lo hi : Uuid) → KeepsDevices (pair_conversation lo hi)
unfolding pair_conversation
pair_conversation-KeepsDevices lo hi ds =
    Ensures-bind
      (Ensures-execute (λ _ t. t.devices ≡ ds) (select (pair_id lo hi)) (λ t p. p) (λ now t p. p))
      next
  where
    next :
        (o : Option Uuid)
        → Ensures
            (λ t. t.devices ≡ ds)
            (or_create lo hi o)
            (λ _ t. t.devices ≡ ds)
            (λ t. t.devices ≡ ds)
    next none = create_pair-KeepsDevices lo hi ds
    next (some cid) = Ensures-pure (λ _ t. t.devices ≡ ds) cid (λ t p. p)

dm_conversation-devices :
    (a c : Uuid) (b : Backend) → (dm_conversation a c b).1.tables.devices ≡ b.tables.devices
unfolding dm_conversation
dm_conversation-devices a c b = elim (Bool-cases (leb a c)) [
  | inl e ↦ rw e (Ensures-state (pair_conversation-KeepsDevices a c b.tables.devices) b refl)
  | inr e ↦ rw e (Ensures-state (pair_conversation-KeepsDevices c a b.tables.devices) b refl)
]

mark-devices :
    (table : MarkerTable) (cid account : Uuid) (b : Backend)
    → (mark table cid account b).1.tables.devices ≡ b.tables.devices
mark-devices table cid account b =
    Ensures-state (mark-KeepsDevices table cid account b.tables.devices) b refl

-- the persisting of markers returns, publishes nothing and keeps the devices
persist-quiet :
    (k : Kind) (convo account : Uuid) (w : World)
    → ((persist k convo account w).0 ≡ ok tt)
      × ((persist k convo account w).1.published ≡ w.published)
      × ((persist k convo account w).1.backend.tables.devices ≡ w.backend.tables.devices)
unfolding mark_read mark_delivered
persist-quiet Kind.delivered convo account w =
    (refl, refl, mark-devices delivered_markers convo account w.backend)
persist-quiet Kind.read convo account w = (
  refl,
  refl,
  mark-devices read_markers convo account (mark delivered_markers convo account w.backend).1
      ∙ mark-devices delivered_markers convo account w.backend,
)
persist-quiet Kind.typing convo account w = (refl, refl, refl)
persist-quiet Kind.reaction convo account w = (refl, refl, refl)
persist-quiet Kind.call convo account w = (refl, refl, refl)
persist-quiet Kind.other convo account w = (refl, refl, refl)

-- a notice for an active device of the target, of the type of the frame
abbrev pub Reaches : Uuid → List Device → String → Uuid × Envelope → Type 0
Reaches target ds type n =
    (any (λ d. d.id == n.0 && active_device_of target d) ds ≡ true) × (n.1.type ≡ type)

-- what a call publishes reaches only the target, and the call succeeds
abbrev pub ReachesOnly :
    Uuid → List Device → String → World → Result AppError (Unit {0}) × World → Type 0
ReachesOnly target ds type w (r, w') =
    (r ≡ ok tt)
    × (new : List (Uuid × Envelope)) × (w'.published ≡ w.published ++ new)
    × All (Reaches target ds type) new

notices-Reaches :
    (env : Envelope) (target : Uuid) (ds : List Device)
    → All (Reaches target ds env.type) (notices env none (filter (active_device_of target) ds))
notices-Reaches env target [] = tt
notices-Reaches env target (d ∷ ds) =
    let rest =
      All-map (Reaches target ds env.type) (Reaches target (d ∷ ds) env.type)
        (notices env none (filter (active_device_of target) ds)) (λ n h. (ground (arith, h.0), h.1))
        (notices-Reaches env target ds) in
    elim (Bool-cases (active_device_of target d)) [
      | inl e ↦ rw e ((ground (arith, ==_refl d.id), refl), rest)
      | inr e ↦ rw e rest
    ]

-- the notices of a delivery, which are none if the devices cannot be read
delivered-Reaches :
    (env : Envelope) (target : Uuid) (ds : List Device) (down : Bool)
    → All
        (Reaches target ds env.type)
        (if down then [] else notices env none (filter (active_device_of target) ds))
delivered-Reaches env target ds true = tt
delivered-Reaches env target ds false = notices-Reaches env target ds

relay-ReachesOnly :
    (target : Uuid) (type : String) (payload : Option Json) (w : World)
    → ReachesOnly target w.backend.tables.devices type w (relay target type payload w)
unfolding envelope
relay-ReachesOnly target type none w = (refl, [], rw append-nil refl, tt)
relay-ReachesOnly target type (some payload) w =
    let env : Envelope = record {
      v = 0;
      type = type;
      id = w.backend.outside.random w.backend.calls;
      ts = w.backend.outside.clock (suc w.backend.calls);
      payload = payload;
    } in
    rw (deliver_to_account-notices target env none (called (called w))) (
      refl,
      (if w.backend.outside.fault (suc (suc w.backend.calls))
          then []
          else notices env none (filter (active_device_of target) w.backend.tables.devices)),
      refl,
      delivered-Reaches env target w.backend.tables.devices
          (w.backend.outside.fault (suc (suc w.backend.calls))),
    )

in_dm-ReachesOnly :
    (account : Uuid) (msg : Inbound) (target : Uuid) (r : Result AppError Uuid) (w : World)
    → ReachesOnly target w.backend.tables.devices msg.type w (in_dm account msg target r w)
in_dm-ReachesOnly account msg target (err e) w = (refl, [], rw append-nil refl, tt)
in_dm-ReachesOnly account msg target (ok convo) w =
    let (quiet, published, devices) = persist-quiet (kind_of msg.type) convo account w in
    let (done, new, added, reach) =
      relay-ReachesOnly target msg.type (relayed (kind_of msg.type) convo account msg)
        (persist (kind_of msg.type) convo account w).1 in
    (
      rw quiet done,
      new,
      rw quiet (added ∙ ap (λ ps. ps ++ new) published),
      subst (λ ds. All (Reaches target ds msg.type) new) devices reach,
    )

to_target-ReachesOnly :
    (account : Uuid) (msg : Inbound) (target : Account) (w : World)
    → ReachesOnly target.id w.backend.tables.devices msg.type w
        (to_target account msg (ok (some target)) w)
to_target-ReachesOnly account msg target w =
    let (r, b) = dm_conversation account target.id w.backend in
    subst (λ ds. ReachesOnly target.id ds msg.type w (to_target account msg (ok (some target)) w))
      (dm_conversation-devices account target.id w.backend)
      (in_dm-ReachesOnly account msg target.id (map_err (from_sql b.outside) r)
        (record w { backend = b }))

addressed-ReachesOnly :
    (account : Uuid) (msg : Inbound) (to : String) (target : Account) (w : World)
    → find? (account_has_name to) w.backend.tables.accounts ≡ some target
    → ReachesOnly target.id w.backend.tables.devices msg.type w (addressed account msg (some to) w)
unfolding AuthRepo.find_account_by_username execute
addressed-ReachesOnly account msg to target w f =
    elim (Bool-cases (w.backend.outside.fault w.backend.calls)) [
      | inl down ↦ rw down (refl, [], rw append-nil refl, tt)
      | inr up ↦ rw (up, f) (to_target-ReachesOnly account msg target (called w))
    ]

-- Whatever frame a client sends to an account by name, the handling of it succeeds, and what it
-- publishes goes only to devices of that account that are not revoked, under the type of the frame.
pub frames_reach_only_target :
    (account : Uuid) (msg : Inbound) (to : String) (target : Account) (w : World)
    → msg.to ≡ some to
    → find? (account_has_name to) w.backend.tables.accounts ≡ some target
    → ReachesOnly target.id w.backend.tables.devices msg.type w
        (handle_inbound account (some msg) w)
unfolding handle_inbound
frames_reach_only_target account msg to target w e f =
    subst
      (λ o. ReachesOnly target.id w.backend.tables.devices msg.type w (addressed account msg o w))
      (sym e) (addressed-ReachesOnly account msg to target w f)
