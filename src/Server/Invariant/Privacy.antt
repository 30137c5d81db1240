-- ===== src/Server/Invariant/Privacy.antt =====
-- Who takes part in a conversation, under every query.
use trust_server.Common.{
  ◌+◌, ◌≡◌, refl, ◌∙◌, Option, none, some, any, any-modify_all, find?, ltb, modify_all,
}
use trust_server.Exec.{ok}
use trust_server.Storage.Models.{Uuid, Time}
use trust_server.Storage.Tables.{Tables, Conversation}
use trust_server.Storage.Outside.{out_of_range}
use trust_server.Storage.Backend.{execute}
use trust_server.Storage.Ensures.{Outcome, Outcome-check}
use trust_server.Storage.Keeps.{KeepsDb, KeepsDb-execute}
use trust_server.Server.Db.Conversations.{has_id}
use trust_server.Server.Db.Conversations.Privacy.{IsPrivate, dm_conversation-IsPrivate}
use trust_server.Server.Db.Messages.{bigint_bound, bump, bump_row, next_seq}
use trust_server.Server.Invariant.Parts.{
  create_session-KeepsDb, rotate_session-KeepsDb, revoke_session-KeepsDb, store_message-KeepsDb,
  edit_message-KeepsDb, mark_deleted-KeepsDb,
}
use trust_server.Server.Invariant.Stability.{Parts}

bump_row-IsPrivate :
    (cid : Uuid) (o : Option Conversation) (now : Time) (t : Tables)
    → IsPrivate t
    → Outcome (λ _ t'. IsPrivate t') (bump_row cid o now t)
bump_row-IsPrivate cid none now t p = tt
bump_row-IsPrivate cid (some c) now t p =
    Outcome-check (λ _ t'. IsPrivate t') (ltb (c.last_seq + 1) bigint_bound) out_of_range
      (ok
        (c.last_seq + 1, record t { conversations = modify_all (has_id cid) bump t.conversations }))
      λ _. record {
        members_exist = λ j x m. still j ∙ p.members_exist j x m;
        pairs_exist = λ lo hi j m. still j ∙ p.pairs_exist lo hi j m;
        pairs_differ = p.pairs_differ;
        only_the_pair = p.only_the_pair;
      }
  where
    still :
        (j : Uuid)
        → any (has_id j) (modify_all (has_id cid) bump t.conversations)
          ≡ any (has_id j) t.conversations
    still j = any-modify_all (has_id j) (has_id cid) bump (λ x. refl) t.conversations

next_seq-IsPrivate : (cid : Uuid) → KeepsDb IsPrivate (execute (next_seq cid))
next_seq-IsPrivate cid =
    KeepsDb-execute (next_seq cid)
      λ now t p. bump_row-IsPrivate cid (find? (has_id cid) t.conversations) now t p

-- it is a property of the conversations, their members and the pairs
IsPrivate-kept :
    (t t' : Tables)
    → t'.conversations ≡ t.conversations
    → t'.conversation_members ≡ t.conversation_members
    → t'.dm_conversations ≡ t.dm_conversations
    → IsPrivate t
    → IsPrivate t'
IsPrivate-kept t t' c m d p = record {
  members_exist = rw (c, m) p.members_exist;
  pairs_exist = rw (c, d) p.pairs_exist;
  pairs_differ = rw d p.pairs_differ;
  only_the_pair = rw (m, d) p.only_the_pair;
}

-- Conversations stay private under every query.
pub IsPrivate-parts : Parts IsPrivate
IsPrivate-parts = record {
  accounts = λ x t. IsPrivate-kept t _ refl refl refl;
  devices = λ x t. IsPrivate-kept t _ refl refl refl;
  hidden = λ x t. IsPrivate-kept t _ refl refl refl;
  read = λ x t. IsPrivate-kept t _ refl refl refl;
  delivered = λ x t. IsPrivate-kept t _ refl refl refl;
  profiles = λ x t. IsPrivate-kept t _ refl refl refl;
  blobs = λ x t. IsPrivate-kept t _ refl refl refl;
  media = λ x t. IsPrivate-kept t _ refl refl refl;
  create_session = create_session-KeepsDb λ x t. IsPrivate-kept t _ refl refl refl;
  rotate_session = rotate_session-KeepsDb λ x t. IsPrivate-kept t _ refl refl refl;
  revoke_session = revoke_session-KeepsDb λ x t. IsPrivate-kept t _ refl refl refl;
  dm_conversation = λ a b. record { at = dm_conversation-IsPrivate a b };
  store_message = store_message-KeepsDb next_seq-IsPrivate λ x t. IsPrivate-kept t _ refl refl refl;
  edit_message = edit_message-KeepsDb λ x t. IsPrivate-kept t _ refl refl refl;
  mark_deleted = mark_deleted-KeepsDb λ x t. IsPrivate-kept t _ refl refl refl;
}
