-- ===== src/Server/Db/Conversations/Pairs.antt =====
-- The conversation of a pair of accounts (`dm_conversation` of crates/server/src/db.rs).
use trust_server.Common.{suc, ◌≡◌, false, some, arith}
use trust_server.Exec.{ok}
use trust_server.Storage.Models.{Uuid}
use trust_server.Storage.Backend.{Backend}
use trust_server.Server.Db.Conversations.{pair_id, pair_conversation, create_pair, dm_conversation}

-- The state after one more call that changes nothing.
abbrev pub called : Backend → Backend
called b = record b { calls = suc b.calls }

-- what the last query of the path returns is the pair's conversation
create_pair-pair_id :
    (lo hi : Uuid) (b b' : Backend) (cid : Uuid)
    → create_pair lo hi b ≡ (ok cid, b')
    → pair_id lo hi b'.tables ≡ some cid
unfolding create_pair
create_pair-pair_id lo hi b b' cid e = ground arith

pub pair_conversation-pair_id :
    (lo hi : Uuid) (b b' : Backend) (cid : Uuid)
    → pair_conversation lo hi b ≡ (ok cid, b')
    → pair_id lo hi b'.tables ≡ some cid
unfolding pair_conversation
pair_conversation-pair_id lo hi b b' cid e =
    ground (arith, create_pair-pair_id lo hi (called b) b' cid)

-- once a pair has its conversation, every call returns it and writes nothing
pub pair_conversation-again :
    (lo hi : Uuid) (b : Backend) (cid : Uuid)
    → pair_id lo hi b.tables ≡ some cid
    → b.outside.fault b.calls ≡ false
    → pair_conversation lo hi b ≡ (ok cid, called b)
unfolding pair_conversation
pair_conversation-again lo hi b cid e up = ground arith

-- The order of the two accounts does not matter: both calls do and return the same.
pub dm_conversation_comm :
    (a c : Uuid) (b : Backend) → dm_conversation a c b ≡ dm_conversation c a b
unfolding dm_conversation
dm_conversation_comm a c b = ground arith

-- Once a call has returned a conversation, a call for the same two accounts, in either order, that
-- reaches the database returns the same conversation and writes nothing.
pub dm_conversation_stable :
    (a c : Uuid) (b b' : Backend) (cid : Uuid)
    → dm_conversation a c b ≡ (ok cid, b')
    → b'.outside.fault b'.calls ≡ false
    → (dm_conversation a c b' ≡ (ok cid, called b'))
      × (dm_conversation c a b' ≡ (ok cid, called b'))
unfolding dm_conversation
dm_conversation_stable a c b b' cid e up = ground (
  arith,
  pair_conversation-pair_id a c b b' cid,
  pair_conversation-pair_id c a b b' cid,
  pair_conversation-again a c b' cid,
  pair_conversation-again c a b' cid,
)
