-- ===== src/Server/Db/Messages/Sequence.antt =====
-- The numbering of messages (`store_message` of crates/server/src/db.rs).
use trust_server.Common.{
  ℕ, suc, ◌+◌, ◌≤◌, ◌<◌, ◌≡◌, refl, Bool, true, false, not, ◌&&◌, Option, none, some, [], ◌∷◌, ◌++◌,
  arith, any, find?, map, modify_all, ltb, ◌==◌, List, if◌then◌else◌, any-append, any-modify_all,
  find?-modify_all, find?-passes, any-find?,
}
use trust_server.Exec.{Result, ok}
use trust_server.Storage.Models.{Uuid, Time, Bytes}
use trust_server.Storage.Tables.{Tables, Conversation, Message}
use trust_server.Storage.Outside.{SqlError, unique_violation, foreign_key_violation}
use trust_server.Storage.Backend.{Backend, check}
use trust_server.Storage.Ensures.{
  Outcome, Ensures-execute, Ensures-pure, Ensures-new_uuid, Ensures-bind, Ensures-state,
  Outcome-check,
}
use trust_server.Server.Db.Conversations.{has_id, conversation_exists, account_exists}
use trust_server.Server.Db.Messages.{
  bigint_bound, bump, bump_row, next_seq, message_has_id, has_seq, insert_message, store_message,
  row_of,
}

-- the last number given out in a conversation
abbrev pub last_of : Uuid → Tables → ℕ
last_of cid t = elim (find? (has_id cid) t.conversations) [ none ↦ 0 | some c ↦ c.last_seq ]

-- Every message has a number between 1 and the last one given out in its conversation.
pub record IsSequenced (t : Tables) : Type 0 where
  pub in_range :
      (cid : Uuid) (seq : ℕ)
      → any (has_seq cid seq) t.messages ≡ true
      → (1 ≤ seq) × (seq ≤ last_of cid t)

-- The number has just been given out, and no message has it yet.
pub record IsReserved (cid : Uuid) (seq : ℕ) (t : Tables) : Type 0 where
  pub sequenced : IsSequenced t
  pub is_last : last_of cid t ≡ seq
  pub positive : 1 ≤ seq

abbrev pub bumped : Uuid → Tables → Tables
bumped cid t = record t { conversations = modify_all (has_id cid) bump t.conversations }

pub last_of-bumped :
    (j cid : Uuid) (t : Tables)
    → last_of j (bumped cid t) ≡ elim (find? (has_id j) t.conversations) [
      | none ↦ 0
      | some c ↦ if has_id cid c then c.last_seq + 1 else c.last_seq
    ]
last_of-bumped j cid t =
    ground (arith, find?-modify_all (has_id j) (has_id cid) bump (λ c. refl) t.conversations)

last_of-le-bumped : (j cid : Uuid) (t : Tables) → last_of j t ≤ last_of j (bumped cid t)
last_of-le-bumped j cid t = ground (arith, last_of-bumped j cid t)

pub last_of-bumped_self :
    (cid : Uuid) (t : Tables) (c : Conversation)
    → find? (has_id cid) t.conversations ≡ some c
    → last_of cid (bumped cid t) ≡ c.last_seq + 1
last_of-bumped_self cid t c e =
    ground (arith, last_of-bumped cid cid t, find?-passes (has_id cid) t.conversations {a = c} e)

next_seq-IsReserved :
    (cid : Uuid) (now : Time) (t : Tables)
    → IsSequenced t
    → Outcome (λ seq t'. IsReserved cid seq t') (next_seq cid now t)
next_seq-IsReserved cid now t h = found (find? (has_id cid) t.conversations) refl
  where
    bounded :
        (c : Conversation) (ok : Bool)
        → find? (has_id cid) t.conversations ≡ some c
        → ltb (c.last_seq + 1) bigint_bound ≡ ok
        → Outcome (λ seq t'. IsReserved cid seq t') (bump_row cid (some c) now t)
    bounded c false e l = rw l tt
    bounded c true e l = rw l (record {
      sequenced = record {
        in_range = λ j seq m.
            let (low, high) = h.in_range j seq m in (low, omega (arith, last_of-le-bumped j cid t));
      };
      is_last = last_of-bumped_self cid t c e;
      positive = omega arith;
    })

    found :
        (o : Option Conversation)
        → find? (has_id cid) t.conversations ≡ o
        → Outcome (λ seq t'. IsReserved cid seq t') (bump_row cid o now t)
    found none e = tt
    found (some c) e = bounded c (ltb (c.last_seq + 1) bigint_bound) e refl

insert_message-IsSequenced :
    (id cid : Uuid) (seq : ℕ) (me dev : Uuid) (ct : Bytes) (reply : Option Uuid) (now : Time)
    (t : Tables)
    → IsReserved cid seq t
    → Outcome (λ _ t'. IsSequenced t') (insert_message id cid seq me dev ct reply now t)
insert_message-IsSequenced id cid seq me dev ct reply now t r =
    Outcome-check Q new unique_violation (check refs foreign_key_violation written) λ _.
      Outcome-check Q refs foreign_key_violation written λ _. record {
        in_range = λ j s m.
            ground
              (arith, any-append (has_seq j s) t.messages (row ∷ []), r.sequenced.in_range j s);
      }
  where
    Q : Time → Tables → Type 0
    Q _ t' = IsSequenced t'

    row : Message
    row = record {
      id = id;
      conversation_id = cid;
      seq = seq;
      sender_account_id = me;
      sender_device_id = some dev;
      ciphertext = ct;
      server_ts = now;
      reply_to = reply;
      edited_at = none;
      deleted_at = none;
    }

    new : Bool
    new = not (any (message_has_id id) t.messages) && not (any (has_seq cid seq) t.messages)

    refs : Bool
    refs = conversation_exists cid t && account_exists me t

    written : Result SqlError (Time × Tables)
    written = ok (now, record t { messages = t.messages ++ row ∷ [] })

-- Storing a message, whichever of its statements fail, keeps every message's number between 1 and
-- the last number given out in its conversation.
pub store_message-IsSequenced :
    (cid me dev : Uuid) (ct : Bytes) (reply : Option Uuid) (b : Backend)
    → IsSequenced b.tables
    → IsSequenced (store_message cid me dev ct reply b).1.tables
unfolding store_message
store_message-IsSequenced cid me dev ct reply b h =
    Ensures-state
      (Ensures-bind
        (Ensures-execute (λ seq t. IsReserved cid seq t) (next_seq cid) (λ t p. p)
          (next_seq-IsReserved cid))
        λ seq. Ensures-bind (Ensures-new_uuid (IsReserved cid seq) IsSequenced) λ id.
          Ensures-bind
            (Ensures-execute (λ _ t. IsSequenced t) (insert_message id cid seq me dev ct reply)
              (λ t r. r.sequenced) (insert_message-IsSequenced id cid seq me dev ct reply))
            λ ts.
              Ensures-pure (λ _ t. IsSequenced t)
                (record {
                  id = id;
                  seq = seq;
                  sender_account_id = me;
                  sender_device_id = some dev;
                  ciphertext = ct;
                  server_ts = ts;
                  reply_to = reply;
                  edited_at = none;
                })
                (λ t p. p))
      b h

-- the statement's change of the counter, row by row
modify_all-bump :
    (cid : Uuid) (cs : List Conversation)
    → modify_all (has_id cid) bump cs
      ≡ map (λ x. if x.id == cid then record x { last_seq = x.last_seq + 1 } else x) cs
modify_all-bump cid [] = refl
modify_all-bump cid (x ∷ cs) = rw (modify_all-bump cid cs) refl

-- With the database in reach, where every message has a number between 1 and the counter of its
-- conversation, a message is stored into a conversation that exists, from an account that exists,
-- under an id that no message has and below the bound of a BIGINT: it gets the next number of its
-- conversation and the statement's time, the counter is raised by one, and nothing else changes.
pub store_message_appends :
    (cid me dev : Uuid) (ct : Bytes) (reply : Option Uuid) (b : Backend) (c : Conversation)
    → IsSequenced b.tables
    → find? (has_id cid) b.tables.conversations ≡ some c
    → account_exists me b.tables ≡ true
    → c.last_seq + 1 < bigint_bound
    → any (message_has_id (b.outside.random (suc b.calls))) b.tables.messages ≡ false
    → b.outside.fault b.calls ≡ false
    → b.outside.fault (suc (suc b.calls)) ≡ false
    → let id = b.outside.random (suc b.calls) in
      let now = b.outside.clock (suc (suc b.calls)) in
      let row : Message = record {
        id = id;
        conversation_id = cid;
        seq = c.last_seq + 1;
        sender_account_id = me;
        sender_device_id = some dev;
        ciphertext = ct;
        server_ts = now;
        reply_to = reply;
        edited_at = none;
        deleted_at = none;
      } in
      store_message cid me dev ct reply b ≡ (
        ok (row_of row),
        record b {
          calls = suc (suc (suc b.calls));
          tables = record b.tables {
            conversations =
                map
                  (λ x. if x.id == cid then record x { last_seq = x.last_seq + 1 } else x)
                  b.tables.conversations;
            messages = b.tables.messages ++ row ∷ [];
          };
        },
      )
unfolding store_message
store_message_appends cid me dev ct reply b c h e a l new up up' = ground (
  arith,
  modify_all-bump cid b.tables.conversations,
  h.in_range cid (c.last_seq + 1),
  any-find? (has_id cid) b.tables.conversations,
  any-modify_all (has_id cid) (has_id cid) bump (λ x. refl) b.tables.conversations,
)
