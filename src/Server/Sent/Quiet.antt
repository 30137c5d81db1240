-- ===== src/Server/Sent/Quiet.antt =====
-- The queries of `send_message` leave the devices as they are.
use trust_server.Common.{
  ℕ, ◌≡◌, refl, ◌∙◌, Bool, true, false, Option, none, some, inl, inr, Bool-cases, Option-cases,
  find?, if◌then◌else◌, ap,
}
use trust_server.Exec.{Result, ok, err, pure, continue, ◌>>=◌}
use trust_server.Storage.Models.{Uuid, Bytes}
use trust_server.Storage.Tables.{Tables}
use trust_server.Storage.Outside.{SqlError}
use trust_server.Storage.Backend.{
  Backend, Sql, Statement, execute, execute-up, execute-down, settle, select, one, new_uuid,
}
use trust_server.Server.Db.Conversations
use trust_server.Server.Db.Conversations.{
  has_id, pair_id, insert_conversation, insert_members, insert_pair, or_create,
}
use trust_server.Server.Db.Messages
use trust_server.Server.Db.Messages.{next_seq, insert_message}
use trust_server.Server.Db.Media as MediaDb
use trust_server.Server.Db.Media.{Attachment, insert_media}
use trust_server.Server.Invariant.Writes.{
  Replaces, Writes, set_conversations, set_members, set_pairs, set_messages, set_media,
  insert_conversation-Writes, insert_members-Writes, insert_pair-Writes, bump_row-Writes,
  insert_message-Writes, insert_media-Writes,
}

-- the same answers of the outside, and the same devices
abbrev pub SameDevices : Backend → Backend → Type 0
SameDevices b b' = (b'.outside ≡ b.outside) × (b'.tables.devices ≡ b.tables.devices)

pub record IsQuiet {A : Type 0} (m : Sql A) : Type 0 where
  pub at : (b : Backend) → SameDevices b (m b).1

settle-quiet :
    {X A : Type 0} (set : X → Tables → Tables) (b : Backend) (r : Result SqlError (A × Tables))
    → ((x : X) (t : Tables) → (set x t).devices ≡ t.devices)
    → Replaces set b.tables r
    → SameDevices b (settle b r).1
settle-quiet set b (ok (a, t)) same h =
    let (x, e) = h.at in (refl, ap (λ (u : Tables). u.devices) e ∙ same x b.tables)
settle-quiet set b (err e) same h = (refl, refl)

IsQuiet-Writes :
    {X A : Type 0} (set : X → Tables → Tables) (q : Statement A)
    → Writes set q
    → ((x : X) (t : Tables) → (set x t).devices ≡ t.devices)
    → IsQuiet (execute q)
IsQuiet-Writes set q h same = record {
  at = λ b. elim (Bool-cases (b.outside.fault b.calls)) [
    | inl down ↦ rw (execute-down q b down) (refl, refl)
    | inr up ↦ rw (execute-up q b up) (
        settle-quiet set b (q (b.outside.clock b.calls) b.tables) same
          (h (b.outside.clock b.calls) b.tables))
  ];
}

IsQuiet-select : {A : Type 0} (f : Tables → A) → IsQuiet (execute (select f))
unfolding execute
IsQuiet-select f = record {
  at = λ b. elim (Bool-cases (b.outside.fault b.calls)) [
    | inl down ↦ rw down (refl, refl)
    | inr up ↦ rw up (refl, refl)
  ];
}

IsQuiet-one : {A : Type 0} (f : Tables → Option A) → IsQuiet (execute (one f))
unfolding execute
IsQuiet-one f = record {
  at = λ b. elim (Bool-cases (b.outside.fault b.calls)) [
    | inl down ↦ rw down (refl, refl)
    | inr up ↦ elim (Option-cases (f b.tables)) [
      | inl e ↦ rw (up, one, e) (refl, refl)
      | inr (a, e) ↦ rw (up, one, e) (refl, refl)
    ]
  ];
}

IsQuiet-pure : {A : Type 0} (a : A) → IsQuiet (pure a)
IsQuiet-pure a = record { at = λ b. (refl, refl) }

IsQuiet-new_uuid : IsQuiet new_uuid
unfolding new_uuid
IsQuiet-new_uuid = record { at = λ b. (refl, refl) }

continue-quiet :
    {A B : Type 0} (b : Backend) (r : Result SqlError A × Backend) (f : A → Sql B)
    → SameDevices b r.1
    → ((a : A) → IsQuiet (f a))
    → SameDevices b (continue r.0 f r.1).1
continue-quiet b (ok a, b') f (o, d) k = let (o', d') = (k a).at b' in (o' ∙ o, d' ∙ d)
continue-quiet b (err e, b') f s k = s

IsQuiet-bind :
    {A B : Type 0} (m : Sql A) (f : A → Sql B)
    → IsQuiet m
    → ((a : A) → IsQuiet (f a))
    → IsQuiet (m >>= f)
IsQuiet-bind m f km kf = record { at = λ b. continue-quiet b (m b) f (km.at b) kf }

IsQuiet-if :
    {A : Type 0} (c : Bool) (m n : Sql A) → IsQuiet m → IsQuiet n → IsQuiet (if c then m else n)
IsQuiet-if true m n km kn = km
IsQuiet-if false m n km kn = kn

ruleset quiet =
    (IsQuiet-select, IsQuiet-one, IsQuiet-pure, IsQuiet-new_uuid, IsQuiet-bind, IsQuiet-if)

insert_conversation-IsQuiet : (cid : Uuid) → IsQuiet (execute (insert_conversation cid))
insert_conversation-IsQuiet cid =
    IsQuiet-Writes set_conversations _ (insert_conversation-Writes cid) λ x t. refl

insert_members-IsQuiet : (cid lo hi : Uuid) → IsQuiet (execute (insert_members cid lo hi))
insert_members-IsQuiet cid lo hi =
    IsQuiet-Writes set_members _ (insert_members-Writes cid lo hi) λ x t. refl

insert_pair-IsQuiet : (lo hi cid : Uuid) → IsQuiet (execute (insert_pair lo hi cid))
insert_pair-IsQuiet lo hi cid =
    IsQuiet-Writes set_pairs _ (insert_pair-Writes lo hi cid) λ x t. refl

create_pair-IsQuiet : (lo hi : Uuid) → IsQuiet (Conversations.create_pair lo hi)
unfolding Conversations.create_pair
create_pair-IsQuiet lo hi =
    search (quiet, insert_conversation-IsQuiet, insert_members-IsQuiet, insert_pair-IsQuiet) depth
      20

or_create-IsQuiet : (lo hi : Uuid) (o : Option Uuid) → IsQuiet (or_create lo hi o)
or_create-IsQuiet lo hi none = create_pair-IsQuiet lo hi
or_create-IsQuiet lo hi (some cid) = search quiet

pair_conversation-IsQuiet : (lo hi : Uuid) → IsQuiet (Conversations.pair_conversation lo hi)
unfolding Conversations.pair_conversation
pair_conversation-IsQuiet lo hi = search (quiet, or_create-IsQuiet)

pub dm_conversation-IsQuiet : (a b : Uuid) → IsQuiet (Conversations.dm_conversation a b)
unfolding Conversations.dm_conversation
dm_conversation-IsQuiet a b = search (quiet, pair_conversation-IsQuiet)

next_seq-IsQuiet : (cid : Uuid) → IsQuiet (execute (next_seq cid))
next_seq-IsQuiet cid =
    IsQuiet-Writes set_conversations _
      (λ now t. bump_row-Writes cid (find? (has_id cid) t.conversations) now t) λ x t. refl

insert_message-IsQuiet :
    (id cid : Uuid) (seq : ℕ) (account device : Uuid) (text : Bytes) (reply : Option Uuid)
    → IsQuiet (execute (insert_message id cid seq account device text reply))
insert_message-IsQuiet id cid seq account device text reply =
    IsQuiet-Writes set_messages _ (insert_message-Writes id cid seq account device text reply)
      λ x t. refl

pub store_message-IsQuiet :
    (cid account device : Uuid) (text : Bytes) (reply : Option Uuid)
    → IsQuiet (Messages.store_message cid account device text reply)
unfolding Messages.store_message
store_message-IsQuiet cid account device text reply =
    search (quiet, next_seq-IsQuiet, insert_message-IsQuiet) depth 20

insert_media-IsQuiet :
    (id cid message account : Uuid) (seq : ℕ) (a : Attachment)
    → IsQuiet (execute (insert_media id cid message account seq a))
insert_media-IsQuiet id cid message account seq a =
    IsQuiet-Writes set_media _ (insert_media-Writes id cid message account seq a) λ x t. refl

pub record_media-IsQuiet :
    (cid message account : Uuid) (seq : ℕ) (a : Attachment)
    → IsQuiet (MediaDb.record_media cid message account seq a)
unfolding MediaDb.record_media
record_media-IsQuiet cid message account seq a = search (quiet, insert_media-IsQuiet)
