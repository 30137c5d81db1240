-- ===== src/Server/Invariant/Parts.antt =====
-- From the parts of the tables on which a property does not depend to the queries that keep it.
use trust_server.Common.{ℕ, Option, none, some, find?}
use trust_server.Storage.Models.{Uuid, Time, Bytes}
use trust_server.Storage.Tables.{Tables}
use trust_server.Storage.Backend.{execute}
use trust_server.Storage.Keeps.{KeepsDb, KeepsDb-stored, keeps_db}
use trust_server.Storage.AuthRepo
use trust_server.Server.Db.Conversations
use trust_server.Server.Db.Conversations.{
  has_id, insert_conversation, insert_members, insert_pair, or_create,
}
use trust_server.Server.Db.Messages
use trust_server.Server.Db.Messages.{
  next_seq, bump_row, insert_message, insert_hidden, delete_media, update_ciphertext, mark_deleted,
}
use trust_server.Server.Invariant.Writes.{
  KeepsDb-writes, set_sessions, set_conversations, set_members, set_pairs, set_messages,
  insert_session-Writes, update_tokens-Writes, set_revoked-Writes, insert_conversation-Writes,
  insert_members-Writes, insert_pair-Writes, bump_row-Writes, insert_message-Writes,
  update_ciphertext-Writes, mark_deleted-Writes,
}

-- the property does not depend on a part of the tables
abbrev pub Ignores : {X : Type 0} → (Tables → Type 0) → (X → Tables → Tables) → Type 0
Ignores {X} P set = (x : X) (t : Tables) → P t → P (set x t)

module _ {P : Tables → Type 0} where
  pub create_session-KeepsDb :
      Ignores P set_sessions
      → (id device : Uuid) (access refresh : Bytes) (expires : Time)
      → KeepsDb P (AuthRepo.create_session id device access refresh expires)
  unfolding AuthRepo.create_session
  create_session-KeepsDb i id device access refresh expires =
      KeepsDb-stored _
        (KeepsDb-writes set_sessions _ (insert_session-Writes id device access refresh expires) i)

  pub rotate_session-KeepsDb :
      Ignores P set_sessions
      → (id : Uuid) (access refresh : Bytes) (expires : Time)
      → KeepsDb P (AuthRepo.rotate_session id access refresh expires)
  unfolding AuthRepo.rotate_session
  rotate_session-KeepsDb i id access refresh expires =
      KeepsDb-stored _
        (KeepsDb-writes set_sessions _ (update_tokens-Writes id access refresh expires) i)

  pub revoke_session-KeepsDb :
      Ignores P set_sessions → (id : Uuid) → KeepsDb P (AuthRepo.revoke_session id)
  unfolding AuthRepo.revoke_session
  revoke_session-KeepsDb i id =
      KeepsDb-stored _ (KeepsDb-writes set_sessions _ (set_revoked-Writes id) i)

  insert_members-KeepsDb :
      Ignores P set_members → (cid lo hi : Uuid) → KeepsDb P (execute (insert_members cid lo hi))
  insert_members-KeepsDb i cid lo hi =
      KeepsDb-writes set_members _ (insert_members-Writes cid lo hi) i

  insert_pair-KeepsDb :
      Ignores P set_pairs → (lo hi cid : Uuid) → KeepsDb P (execute (insert_pair lo hi cid))
  insert_pair-KeepsDb i lo hi cid = KeepsDb-writes set_pairs _ (insert_pair-Writes lo hi cid) i

  module _ (new : (cid : Uuid) → KeepsDb P (execute (insert_conversation cid)))
      (m : Ignores P set_members) (p : Ignores P set_pairs) where
    create_pair-KeepsDb : (lo hi : Uuid) → KeepsDb P (Conversations.create_pair lo hi)
    unfolding Conversations.create_pair
    create_pair-KeepsDb lo hi =
        search (keeps_db, new, insert_members-KeepsDb m, insert_pair-KeepsDb p) depth 20

    or_create-KeepsDb : (lo hi : Uuid) (o : Option Uuid) → KeepsDb P (or_create lo hi o)
    or_create-KeepsDb lo hi none = create_pair-KeepsDb lo hi
    or_create-KeepsDb lo hi (some cid) = search keeps_db

    pair_conversation-KeepsDb : (lo hi : Uuid) → KeepsDb P (Conversations.pair_conversation lo hi)
    unfolding Conversations.pair_conversation
    pair_conversation-KeepsDb lo hi = search (keeps_db, or_create-KeepsDb)

    pub dm_conversation-KeepsDb : (a b : Uuid) → KeepsDb P (Conversations.dm_conversation a b)
    unfolding Conversations.dm_conversation
    dm_conversation-KeepsDb a b = search (keeps_db, pair_conversation-KeepsDb)

  insert_message-KeepsDb :
      Ignores P set_messages
      → (id cid : Uuid) (seq : ℕ) (account device : Uuid) (text : Bytes) (reply : Option Uuid)
      → KeepsDb P (execute (insert_message id cid seq account device text reply))
  insert_message-KeepsDb i id cid seq account device text reply =
      KeepsDb-writes set_messages _ (insert_message-Writes id cid seq account device text reply) i

  pub store_message-KeepsDb :
      ((cid : Uuid) → KeepsDb P (execute (next_seq cid)))
      → Ignores P set_messages
      → (cid account device : Uuid) (text : Bytes) (reply : Option Uuid)
      → KeepsDb P (Messages.store_message cid account device text reply)
  unfolding Messages.store_message
  store_message-KeepsDb next m cid account device text reply =
      search (keeps_db, next, insert_message-KeepsDb m) depth 20

  pub next_seq-KeepsDb :
      Ignores P set_conversations → (cid : Uuid) → KeepsDb P (execute (next_seq cid))
  next_seq-KeepsDb i cid =
      KeepsDb-writes set_conversations _
        (λ now t. bump_row-Writes cid (find? (has_id cid) t.conversations) now t) i

  pub insert_conversation-KeepsDb :
      Ignores P set_conversations → (cid : Uuid) → KeepsDb P (execute (insert_conversation cid))
  insert_conversation-KeepsDb i cid =
      KeepsDb-writes set_conversations _ (insert_conversation-Writes cid) i

  pub edit_message-KeepsDb :
      Ignores P set_messages
      → (id account : Uuid) (text : Bytes) → KeepsDb P (Messages.edit_message id account text)
  unfolding Messages.edit_message
  edit_message-KeepsDb i id account text =
      KeepsDb-writes set_messages _ (update_ciphertext-Writes id account text) i

  pub mark_deleted-KeepsDb :
      Ignores P set_messages → (id account : Uuid) → KeepsDb P (execute (mark_deleted id account))
  mark_deleted-KeepsDb i id account =
      KeepsDb-writes set_messages _ (mark_deleted-Writes id account) i
