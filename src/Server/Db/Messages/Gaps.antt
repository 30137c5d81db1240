-- ===== src/Server/Db/Messages/Gaps.antt =====
-- Gaps in the numbering of messages (`store_message` of crates/server/src/db.rs).
use trust_server.Common.{
  ℕ, zero, suc, ◌+◌, ◌<◌, ◌≡◌, ◌≢◌, refl, ap, Bool, true, false, not, ◌&&◌, Option, none, some,
  List, [], ◌∷◌, ◌++◌, arith, any, find?, filter, map, ltb, ◌==◌, if◌then◌else◌, find?-passes,
  length, length-append, filter-append, subst, Bool-cases, inl, inr, ==_iff, ==_refl,
}
use mathlib.Core.List.{map-append, append-nil}
use trust_server.Exec.{Result, ok, err}
use trust_server.Storage.Models.{Uuid, Time, Bytes}
use trust_server.Storage.Tables.{Tables, Conversation, Message}
use trust_server.Storage.Outside.{SqlError, unavailable, unique_violation, foreign_key_violation}
use trust_server.Storage.Backend.{Backend, check}
use trust_server.Storage.Ensures.{
  Outcome, Ensures-execute, Ensures-pure, Ensures-new_uuid, Ensures-bind, Ensures-ok, Outcome-check,
}
use trust_server.Server.Db.Conversations.{has_id, conversation_exists, account_exists}
use trust_server.Server.Db.Directory.{says_in}
use trust_server.Server.Db.Messages.{
  MsgRow, bigint_bound, bump_row, next_seq, message_has_id, has_seq, insert_message, store_message,
}
use trust_server.Server.Db.Messages.Sequence.{last_of, bumped, last_of-bumped, last_of-bumped_self}

-- 1, 2, …, n
abbrev pub upto : ℕ → List ℕ
upto zero = []
upto (suc n) = upto n ++ suc n ∷ []

-- the numbers of a conversation's messages, deleted ones included, in the order of storage
abbrev pub numbers : Uuid → Tables → List ℕ
numbers cid t = map (λ m. m.seq) (filter (says_in cid) t.messages)

abbrev pub GapFree : Uuid → Tables → Type 0
GapFree cid t = numbers cid t ≡ upto (last_of cid t)

abbrev pub AllGapFree : Tables → Type 0
AllGapFree t = (j : Uuid) → GapFree j t

-- one number is given out and not yet used
record IsAhead (cid : Uuid) (seq : ℕ) (t : Tables) : Type 0 where
  given : last_of cid t ≡ seq
  pending : numbers cid t ++ seq ∷ [] ≡ upto seq
  others : (j : Uuid) → j ≢ cid → GapFree j t

last_of-bumped_ne : (j cid : Uuid) (t : Tables) → j ≢ cid → last_of j (bumped cid t) ≡ last_of j t
last_of-bumped_ne j cid t ne = go (find? (has_id j) t.conversations) refl
  where
    go :
        (o : Option Conversation)
        → find? (has_id j) t.conversations ≡ o
        → last_of j (bumped cid t) ≡ last_of j t
    go none e = ground (arith, last_of-bumped j cid t)
    go (some c) e =
        ground (arith, last_of-bumped j cid t, find?-passes (has_id j) t.conversations {a = c} e)

next_seq-IsAhead :
    (cid : Uuid) (now : Time) (t : Tables)
    → AllGapFree t
    → Outcome (λ seq t'. IsAhead cid seq t') (next_seq cid now t)
next_seq-IsAhead cid now t h = found (find? (has_id cid) t.conversations) refl
  where
    bounded :
        (c : Conversation) (below : Bool)
        → find? (has_id cid) t.conversations ≡ some c
        → ltb (c.last_seq + 1) bigint_bound ≡ below
        → Outcome (λ seq t'. IsAhead cid seq t') (bump_row cid (some c) now t)
    bounded c false e l = rw l tt
    bounded c true e l = rw l (record {
      given = last_of-bumped_self cid t c e;
      pending =
          let last : last_of cid t ≡ c.last_seq = ground arith in
          let one_more : c.last_seq + 1 ≡ suc c.last_seq = omega arith in
          rw (h cid, last, one_more);
      others = λ j ne. rw (last_of-bumped_ne j cid t ne) (h j);
    })

    found :
        (o : Option Conversation)
        → find? (has_id cid) t.conversations ≡ o
        → Outcome (λ seq t'. IsAhead cid seq t') (bump_row cid o now t)
    found none e = tt
    found (some c) e = bounded c (ltb (c.last_seq + 1) bigint_bound) e refl

-- the numbers once a message is at the end
numbers-append :
    (j : Uuid) (ms : List Message) (m : Message)
    → map (λ x. x.seq) (filter (says_in j) (ms ++ m ∷ []))
      ≡ map (λ x. x.seq) (filter (says_in j) ms) ++ (if says_in j m then m.seq ∷ [] else [])
numbers-append j ms m = rw (filter-append (says_in j) ms (m ∷ []), map-append) (ground arith)

insert_message-AllGapFree :
    (id cid : Uuid) (seq : ℕ) (me dev : Uuid) (ct : Bytes) (reply : Option Uuid) (now : Time)
    (t : Tables)
    → IsAhead cid seq t
    → Outcome (λ _ t'. AllGapFree t') (insert_message id cid seq me dev ct reply now t)
insert_message-AllGapFree id cid seq me dev ct reply now t r =
    Outcome-check Q new unique_violation (check refs foreign_key_violation written) λ _.
      Outcome-check Q refs foreign_key_violation written λ _ j. elim (Bool-cases (cid == j)) [
        | inl e ↦ subst (λ k. GapFree k added) ((==_iff cid j).0 e) own
        | inr e ↦
            rw (numbers-append j t.messages row, e, append-nil) (r.others j (λ p. ground arith))
      ]
  where
    Q : Time → Tables → Type 0
    Q _ t' = AllGapFree t'

    row : Message
    row = record {
      id = id;
      conversation_id = cid;
      seq = seq;
      sender_account_id = me;
      sender_device_id = some dev;
      ciphertext = ct;
      server_ts = now;
      reply_to = reply;
      edited_at = none;
      deleted_at = none;
    }

    new : Bool
    new = not (any (message_has_id id) t.messages) && not (any (has_seq cid seq) t.messages)

    refs : Bool
    refs = conversation_exists cid t && account_exists me t

    written : Result SqlError (Time × Tables)
    written = ok (now, record t { messages = t.messages ++ row ∷ [] })

    added : Tables
    added = record t { messages = t.messages ++ row ∷ [] }

    own : GapFree cid added
    own = rw (numbers-append cid t.messages row, ==_refl cid, r.given) r.pending

-- If storing a message returns it, and no conversation had a gap in its numbers, then none has a
-- gap after it: the messages of each conversation bear the numbers from 1 to the last given out.
pub store_message_gap_free :
    (cid me dev : Uuid) (ct : Bytes) (reply : Option Uuid) (b b' : Backend) (row : MsgRow)
    → AllGapFree b.tables
    → store_message cid me dev ct reply b ≡ (ok row, b')
    → AllGapFree b'.tables
unfolding store_message
store_message_gap_free cid me dev ct reply b b' row h e =
    Ensures-ok
      (Ensures-bind
        (Ensures-execute (λ seq t. IsAhead cid seq t) (next_seq cid) (λ t p. tt)
          (next_seq-IsAhead cid))
        λ seq. Ensures-bind (Ensures-new_uuid (IsAhead cid seq) (λ t. Unit)) λ id.
          Ensures-bind
            (Ensures-execute (λ _ t. AllGapFree t) (insert_message id cid seq me dev ct reply)
              (λ t r. tt) (insert_message-AllGapFree id cid seq me dev ct reply))
            λ ts.
              Ensures-pure (λ _ t. AllGapFree t)
                (record {
                  id = id;
                  seq = seq;
                  sender_account_id = me;
                  sender_device_id = some dev;
                  ciphertext = ct;
                  server_ts = ts;
                  reply_to = reply;
                  edited_at = none;
                })
                (λ t p. p))
      b row b' e h

length-upto : (n : ℕ) → length (upto n) ≡ n
length-upto zero = refl
length-upto (suc n) = omega (arith, length-append (upto n) (suc n ∷ []), length-upto n)

-- If the counter, below the bound of a BIGINT, is raised in the database and the insertion does not
-- reach it, the call fails and the conversation, which had no gap, has one: its last number belongs
-- to no message.
pub lost_insert_leaves_gap :
    (cid me dev : Uuid) (ct : Bytes) (reply : Option Uuid) (b : Backend) (c : Conversation)
    → GapFree cid b.tables
    → find? (has_id cid) b.tables.conversations ≡ some c
    → c.last_seq + 1 < bigint_bound
    → b.outside.fault b.calls ≡ false
    → b.outside.fault (suc (suc b.calls)) ≡ true
    → ((store_message cid me dev ct reply b).0 ≡ err unavailable)
      × ¬ GapFree cid (store_message cid me dev ct reply b).1.tables
unfolding store_message
lost_insert_leaves_gap cid me dev ct reply b c h e l up down =
    (ground arith, λ g. gap (subst (GapFree cid) state g))
  where
    state : (store_message cid me dev ct reply b).1.tables ≡ bumped cid b.tables
    state = ground arith

    before : last_of cid b.tables ≡ c.last_seq
    before = ground arith

    lengths :
        GapFree cid (bumped cid b.tables)
        → length (upto (last_of cid b.tables)) ≡ length (upto (last_of cid (bumped cid b.tables)))
    lengths g = ap (λ (ns : List ℕ). length ns) (rw h at g)

    gap : GapFree cid (bumped cid b.tables) → ⊥
    gap g = omega (
      arith,
      lengths g,
      length-upto (last_of cid b.tables),
      length-upto (last_of cid (bumped cid b.tables)),
      before,
      last_of-bumped_self cid b.tables c e,
    )
