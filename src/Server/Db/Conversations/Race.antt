-- ===== src/Server/Db/Conversations/Race.antt =====
-- Concurrent calls of `dm_conversation` (crates/server/src/db.rs) for one pair of accounts: the
-- statements of the calls interleave in any order.
use trust_server.Common.{
  ℕ, suc, ◌-◌, ◌≤◌, ◌≡◌, refl, subst, false, Option, none, some, List, [], ◌∷◌, arith, any-find?,
}
use trust_server.Exec.{Result, ok, err, pure, raise, ◌>>◌}
use trust_server.Storage.Models.{Uuid, Time}
use trust_server.Storage.Tables.{Tables}
use trust_server.Storage.Outside.{SqlError}
use trust_server.Storage.Backend.{Backend, Sql, execute, execute-up, one}
use trust_server.Server.Db.Conversations.Pairs.{called}
use trust_server.Server.Db.Conversations.{
  pair_id, is_pair, insert_conversation, insert_members, insert_pair, pair_conversation,
  create_pair,
}

-- How far a call is: before its first query, before each statement of the slow path, or at its end.
pub data Call : Type 0 where
  starting : Call
  creating adding claiming : Uuid → Call
  reading : Call
  returned : Uuid → Call
  failed : SqlError → Call

-- a statement that writes, and where the call is after it
abbrev pub write : Call → Tables → Result SqlError (Unit {0} × Tables) → Call × Tables
write next t (ok (_, t')) = (next, t')
write next t (err e) = (failed e, t)

abbrev pub looked : Uuid → Option Uuid → Call
looked id none = creating id
looked id (some cid) = returned cid

abbrev pub settled : Result SqlError (Uuid × Tables) → Call
settled (ok (cid, _)) = returned cid
settled (err e) = failed e

-- One statement of a call for a pair; `id` is what `Uuid::new_v4()` gives if it is asked for.
unfoldable pub step : Uuid → Uuid → Uuid → Time → Call → Tables → Call × Tables
step lo hi id now starting t = (looked id (pair_id lo hi t), t)
step lo hi id now (creating cid) t = write (adding cid) t (insert_conversation cid now t)
step lo hi id now (adding cid) t = write (claiming cid) t (insert_members cid lo hi now t)
step lo hi id now (claiming cid) t = write reading t (insert_pair lo hi cid now t)
step lo hi id now reading t = (settled (one (pair_id lo hi) now t), t)
step lo hi id now (returned cid) t = (returned cid, t)
step lo hi id now (failed e) t = (failed e, t)

-- Whose turn it is, with the id and the time that the outside gives.
pub data Turn : Type 0 where
  first second : Uuid → Time → Turn

-- two calls and the database
pub record Calls : Type 0 where
  pub one : Call
  pub two : Call
  pub tables : Tables

abbrev pub turn : Uuid → Uuid → Turn → Calls → Calls
turn lo hi (first id now) s =
    let (c, t) = step lo hi id now s.one s.tables in record s { one = c; tables = t }
turn lo hi (second id now) s =
    let (c, t) = step lo hi id now s.two s.tables in record s { two = c; tables = t }

abbrev pub interleave : Uuid → Uuid → List Turn → Calls → Calls
interleave lo hi [] s = s
interleave lo hi (w ∷ ws) s = interleave lo hi ws (turn lo hi w s)

-- A call that has returned has returned the conversation of the pair.
abbrev Answered : Uuid → Uuid → Call → Tables → Type 0
Answered lo hi (returned cid) t = pair_id lo hi t ≡ some cid
Answered lo hi c t = Unit

-- no statement changes the conversation of a pair that has one
step-pair_id :
    (lo hi id : Uuid) (now : Time) (c : Call) (t : Tables) (cid : Uuid)
    → pair_id lo hi t ≡ some cid
    → pair_id lo hi (step lo hi id now c t).1 ≡ some cid
unfolding step
step-pair_id lo hi id now starting t cid e = e
step-pair_id lo hi id now (creating x) t cid e = ground arith
step-pair_id lo hi id now (adding x) t cid e = ground arith
step-pair_id lo hi id now (claiming x) t cid e =
    ground (arith, any-find? (is_pair lo hi) t.dm_conversations)
step-pair_id lo hi id now reading t cid e = e
step-pair_id lo hi id now (returned x) t cid e = e
step-pair_id lo hi id now (failed x) t cid e = e

step-Answered :
    (lo hi id : Uuid) (now : Time) (c : Call) (t : Tables)
    → Answered lo hi c t
    → Answered lo hi (step lo hi id now c t).0 (step lo hi id now c t).1
unfolding step
step-Answered lo hi id now starting t h = ground arith
step-Answered lo hi id now (creating x) t h = ground arith
step-Answered lo hi id now (adding x) t h = ground arith
step-Answered lo hi id now (claiming x) t h = ground arith
step-Answered lo hi id now reading t h = ground arith
step-Answered lo hi id now (returned x) t h = h
step-Answered lo hi id now (failed x) t h = tt

-- the turn of another call keeps what has been answered
other-Answered :
    (lo hi id : Uuid) (now : Time) (c d : Call) (t : Tables)
    → Answered lo hi d t
    → Answered lo hi d (step lo hi id now c t).1
other-Answered lo hi id now c (returned x) t h = step-pair_id lo hi id now c t x h
other-Answered lo hi id now c _ t h = tt

abbrev AllAnswered : Uuid → Uuid → Calls → Type 0
AllAnswered lo hi s = Answered lo hi s.one s.tables × Answered lo hi s.two s.tables

interleave-AllAnswered :
    (lo hi : Uuid) (ws : List Turn) (s : Calls)
    → AllAnswered lo hi s
    → AllAnswered lo hi (interleave lo hi ws s)
interleave-AllAnswered lo hi [] s h = h
interleave-AllAnswered lo hi (first id now ∷ ws) s h =
    interleave-AllAnswered lo hi ws (turn lo hi (first id now) s) (
      step-Answered lo hi id now s.one s.tables h.0,
      other-Answered lo hi id now s.one s.two s.tables h.1,
    )
interleave-AllAnswered lo hi (second id now ∷ ws) s h =
    interleave-AllAnswered lo hi ws (turn lo hi (second id now) s) (
      other-Answered lo hi id now s.two s.one s.tables h.0,
      step-Answered lo hi id now s.two s.tables h.1,
    )

abbrev pub both_starting : Tables → Calls
both_starting t = record { one = starting; two = starting; tables = t }

-- However the statements of two calls for one pair interleave, and whatever ids they draw, two
-- calls that return have returned the same conversation, and it is the pair's in the database.
pub race_agrees :
    (lo hi : Uuid) (ws : List Turn) (t : Tables) {c d : Uuid}
    → (interleave lo hi ws (both_starting t)).one ≡ returned c
    → (interleave lo hi ws (both_starting t)).two ≡ returned d
    → (c ≡ d) × (pair_id lo hi (interleave lo hi ws (both_starting t)).tables ≡ some c)
race_agrees lo hi ws t {c} {d} p q =
    let (h, k) = interleave-AllAnswered lo hi ws (both_starting t) (tt, tt) in
    let s = interleave lo hi ws (both_starting t) in
    let h' : pair_id lo hi s.tables ≡ some c = subst (λ x. Answered lo hi x s.tables) p h in
    let k' : pair_id lo hi s.tables ≡ some d = subst (λ x. Answered lo hi x s.tables) q k in
    (cc, h')

-- the statements that a call may still make
abbrev pub left : Call → ℕ
left starting = 5
left (creating x) = 4
left (adding x) = 3
left (claiming x) = 2
left reading = 1
left (returned x) = 0
left (failed e) = 0

pub step-left :
    (lo hi id : Uuid) (now : Time) (c : Call) (t : Tables)
    → left (step lo hi id now c t).0 ≤ left c - 1
unfolding step
step-left lo hi id now starting t = ground arith
step-left lo hi id now (creating x) t = ground arith
step-left lo hi id now (adding x) t = ground arith
step-left lo hi id now (claiming x) t = ground arith
step-left lo hi id now reading t = ground arith
step-left lo hi id now (returned x) t = omega arith
step-left lo hi id now (failed x) t = omega arith

-- what is left of a call at each point; at the start it is the whole of `pair_conversation`
abbrev pub rest : Uuid → Uuid → Call → Sql Uuid
rest lo hi starting = pair_conversation lo hi
rest lo hi (creating cid) = do
  execute (insert_conversation cid)
  execute (insert_members cid lo hi)
  execute (insert_pair lo hi cid)
  execute (one (pair_id lo hi))
rest lo hi (adding cid) = do
  execute (insert_members cid lo hi)
  execute (insert_pair lo hi cid)
  execute (one (pair_id lo hi))
rest lo hi (claiming cid) = do execute (insert_pair lo hi cid); execute (one (pair_id lo hi))
rest lo hi reading = execute (one (pair_id lo hi))
rest lo hi (returned cid) = pure cid
rest lo hi (failed e) = raise e

-- the answers of the outside that a step uses up: the drawing of an id is one
abbrev pub spend : Call → Call → Backend → Backend
spend (returned x) d b = b
spend (failed x) d b = b
spend starting (creating x) b = called (called b)
spend c d b = called b

create_pair-rest :
    (lo hi : Uuid) (b : Backend)
    → create_pair lo hi b ≡ rest lo hi (creating (b.outside.random b.calls)) (called b)
unfolding create_pair
create_pair-rest lo hi b = refl

start_runs_code :
    (lo hi : Uuid) (b : Backend) (o : Option Uuid)
    → b.outside.fault b.calls ≡ false
    → pair_id lo hi b.tables ≡ o
    → let d = looked (b.outside.random (suc b.calls)) o in
      pair_conversation lo hi b ≡ rest lo hi d (record (spend starting d b) { tables = b.tables })
unfolding pair_conversation
start_runs_code lo hi b none up e = ground (arith, create_pair-rest lo hi (called b))
start_runs_code lo hi b (some cid) up e = ground arith

-- One step of the machine is one statement of the code: where the statement reaches the database,
-- the rest of the code from a point is the rest of the code from the point after the step, run on
-- the tables that the step leaves.
pub step_runs_code :
    (lo hi : Uuid) (c : Call) (b : Backend)
    → b.outside.fault b.calls ≡ false
    → let (d, t) =
        step lo hi (b.outside.random (suc b.calls)) (b.outside.clock b.calls) c b.tables in
      rest lo hi c b ≡ rest lo hi d (record (spend c d b) { tables = t })
unfolding step
step_runs_code lo hi starting b up = start_runs_code lo hi b (pair_id lo hi b.tables) up refl
step_runs_code lo hi (creating x) b up = ground (arith, execute-up (insert_conversation x) b)
step_runs_code lo hi (adding x) b up = ground (arith, execute-up (insert_members x lo hi) b)
step_runs_code lo hi (claiming x) b up = ground (arith, execute-up (insert_pair lo hi x) b)
step_runs_code lo hi reading b up = ground (arith, execute-up (one (pair_id lo hi)) b)
step_runs_code lo hi (returned x) b up = refl
step_runs_code lo hi (failed x) b up = refl
