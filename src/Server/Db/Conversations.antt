-- ===== src/Server/Db/Conversations.antt =====
-- The conversations section of crates/server/src/db.rs, statement by statement.
pub mod Pairs
pub mod Privacy
pub mod Race
pub mod Unfailing
pub mod Ending
use trust_server.Common.{
  ℕ, Bool, true, false, not, ◌&&◌, Option, none, some, List, [], ◌∷◌, ◌++◌, map, any, filter, find?,
  leb, ◌==◌, if◌then◌else◌,
}
use trust_server.Exec.{ok, err, pure, ◌>>=◌, ◌>>◌}
use trust_server.Storage.Models.{Uuid}
use trust_server.Storage.Tables.{Tables, Conversation, Member, DmConversation}
use trust_server.Storage.Outside.{unique_violation, foreign_key_violation}
use trust_server.Storage.Backend.{Backend, Sql, Statement, execute, select, one, check, new_uuid}
use trust_server.Storage.AuthRepo.{account_has_id}

abbrev pub has_id : Uuid → Conversation → Bool
has_id cid c = c.id == cid

abbrev pub is_pair : Uuid → Uuid → DmConversation → Bool
is_pair lo hi r = r.account_lo == lo && r.account_hi == hi

abbrev pub is_member : Uuid → Uuid → Member → Bool
is_member cid account m = m.conversation_id == cid && m.account_id == account

abbrev pub conversation_exists : Uuid → Tables → Bool
conversation_exists cid t = any (has_id cid) t.conversations

abbrev pub account_exists : Uuid → Tables → Bool
account_exists a t = any (account_has_id a) t.accounts

-- `SELECT conversation_id FROM dm_conversations WHERE account_lo = $1 AND account_hi = $2`
abbrev pub pair_id : Uuid → Uuid → Tables → Option Uuid
pair_id lo hi t = elim (find? (is_pair lo hi) t.dm_conversations) [
  | none ↦ none
  | some r ↦ some r.conversation_id
]

abbrev pub insert_conversation : Uuid → Statement (Unit {0})
insert_conversation cid now t =
    let row : Conversation = record {
      id = cid;
      kind = "dm";
      epoch = 0;
      last_seq = 0;
      created_at = now;
    } in
    check (not (conversation_exists cid t)) unique_violation
      (ok (tt, record t { conversations = t.conversations ++ row ∷ [] }))

-- one row of an `INSERT … ON CONFLICT DO NOTHING`
abbrev pub add_member : Uuid → Uuid → List Member → List Member
add_member cid a ms =
    if any (is_member cid a) ms
    then ms
    else ms ++ record { conversation_id = cid; account_id = a } ∷ []

abbrev pub members_of_pair : Uuid → Uuid → Uuid → List Member → List Member
members_of_pair cid lo hi ms =
    if lo == hi then add_member cid lo ms else add_member cid hi (add_member cid lo ms)

abbrev pub insert_members : Uuid → Uuid → Uuid → Statement (Unit {0})
insert_members cid lo hi now t =
    check (conversation_exists cid t && account_exists lo t && account_exists hi t)
      foreign_key_violation
      (ok
        (tt, record t { conversation_members = members_of_pair cid lo hi t.conversation_members }))

abbrev pub insert_pair : Uuid → Uuid → Uuid → Statement (Unit {0})
insert_pair lo hi cid now t =
    if any (is_pair lo hi) t.dm_conversations
    then ok (tt, t)
    else check (conversation_exists cid t && account_exists lo t && account_exists hi t)
        foreign_key_violation
        (ok (
          tt,
          record t {
            dm_conversations =
                t.dm_conversations
                ++ record { account_lo = lo; account_hi = hi; conversation_id = cid } ∷ [];
          },
        ))

-- the path of `dm_conversation` for a pair that has no conversation yet
unfoldable pub create_pair : Uuid → Uuid → Sql Uuid
unfolding execute new_uuid
create_pair lo hi = do
  cid ← new_uuid
  execute (insert_conversation cid)
  execute (insert_members cid lo hi)
  execute (insert_pair lo hi cid)
  execute (one (pair_id lo hi))

abbrev pub or_create : Uuid → Uuid → Option Uuid → Sql Uuid
or_create lo hi none = create_pair lo hi
or_create lo hi (some cid) = pure cid

unfoldable pub pair_conversation : Uuid → Uuid → Sql Uuid
unfolding execute
pair_conversation lo hi = do found ← execute (select (pair_id lo hi)); or_create lo hi found

unfoldable pub dm_conversation : Uuid → Uuid → Sql Uuid
dm_conversation a b = if leb a b then pair_conversation a b else pair_conversation b a

unfoldable pub is_participant : Uuid → Uuid → Sql Bool
unfolding execute
is_participant cid account =
    execute (select (λ t. any (is_member cid account) t.conversation_members))

abbrev pub in_conversation : Uuid → Member → Bool
in_conversation cid m = m.conversation_id == cid

unfoldable pub conversation_member_ids : Uuid → Sql (List Uuid)
unfolding execute
conversation_member_ids cid =
    execute
      (select (λ t. map (λ m. m.account_id) (filter (in_conversation cid) t.conversation_members)))
