-- ===== src/Server/Db/Messages/Arrival.antt =====
-- How a stored message arrives in what is listed (`store_message` and `history` of
-- crates/server/src/db.rs).
use trust_server.Common.{
  ℕ, suc, ◌+◌, ◌<◌, ◌≡◌, refl, ap, true, false, Option, none, some, List, [], ◌∷◌, ◌++◌, arith, any,
  find?, filter, filter-append, map, ◌==◌, if◌then◌else◌, ==_refl, All,
}
use mathlib.Core.List.{map-append}
use trust_server.Common.Selection.{All-members, All-selected, sort_by-last}
use trust_server.Exec.{ok, map_ok}
use trust_server.Storage.Models.{Uuid, Bytes}
use trust_server.Storage.Tables.{Tables, Conversation, Message}
use trust_server.Storage.Backend.{Backend}
use trust_server.Server.Db.Conversations.{has_id, account_exists}
use trust_server.Server.Db.Messages.{
  MsgRow, bigint_bound, message_has_id, has_seq, hides, visible, row_of, by_seq, store_message,
  history,
}
use trust_server.Server.Db.Messages.Sequence.{IsSequenced, store_message_appends}
use trust_server.Server.Db.Messages.Listing.{listing, history-listing}

-- the messages of the conversation all come before the next number
before_next :
    (cid viewer : Uuid) (c : Conversation) (t : Tables) (row : Message)
    → IsSequenced t
    → find? (has_id cid) t.conversations ≡ some c
    → row.seq ≡ c.last_seq + 1
    → All (λ m. by_seq m row ≡ true) (filter (visible cid viewer t) t.messages)
before_next cid viewer c t row h e s =
    All-selected (λ m. by_seq m row ≡ true) (visible cid viewer t) t.messages
      (All-members (λ m. visible cid viewer t m ≡ true → by_seq m row ≡ true) t.messages
        (λ m member v.
          let there : any (has_seq cid m.seq) t.messages ≡ true =
            member (has_seq cid m.seq) (ground (arith, ==_refl m.seq)) in
          let (low, high) = h.in_range cid m.seq there in ground arith))

listing-arrival :
    (cid viewer : Uuid) (c : Conversation) (t : Tables) (cs : List Conversation) (row : Message)
    → IsSequenced t
    → find? (has_id cid) t.conversations ≡ some c
    → row.seq ≡ c.last_seq + 1
    → visible cid viewer t row ≡ true
    → listing cid viewer (record t { conversations = cs; messages = t.messages ++ row ∷ [] })
      ≡ listing cid viewer t ++ row_of row ∷ []
listing-arrival cid viewer c t cs row h e s v =
    rw
      (
        filter-append (visible cid viewer t) t.messages (row ∷ []),
        v,
        sort_by-last by_seq row (filter (visible cid viewer t) t.messages)
            (before_next cid viewer c t row h e s),
        map-append,
      )
      refl

-- With the database in reach, where every message has a number between 1 and the counter of its
-- conversation, a message is stored into a conversation that exists, from an account that exists,
-- under an id that no message has and the viewer has not hidden, and below the bound of a BIGINT;
-- then it arrives at the end of what `history` lists to the viewer for the conversation, and nothing
-- else changes there.
pub store_message-history :
    (cid me dev viewer : Uuid) (ct : Bytes) (reply : Option Uuid) (b : Backend) (c : Conversation)
    → ((n : ℕ) → b.outside.fault n ≡ false)
    → IsSequenced b.tables
    → find? (has_id cid) b.tables.conversations ≡ some c
    → account_exists me b.tables ≡ true
    → c.last_seq + 1 < bigint_bound
    → any (message_has_id (b.outside.random (suc b.calls))) b.tables.messages ≡ false
    → any (hides (b.outside.random (suc b.calls)) viewer) b.tables.hidden_messages ≡ false
    → let (stored, b') = store_message cid me dev ct reply b in
      (row : MsgRow) × (stored ≡ ok row)
      × ((history cid viewer b').0 ≡ map_ok (λ rows. rows ++ row ∷ []) (history cid viewer b).0)
store_message-history cid me dev viewer ct reply b c up h e a l new shown =
    rw
      (store_message_appends cid me dev ct reply b c h e a l new (up b.calls)
        (up (suc (suc b.calls))))
      (
        row_of row,
        refl,
        rw
            (
              history-listing cid viewer b (up b.calls),
              history-listing cid viewer after (up (suc (suc (suc b.calls)))),
            )
            (ap (λ (rows : List MsgRow). ok rows)
              (listing-arrival cid viewer c b.tables
                (map (λ x. if x.id == cid then record x { last_seq = x.last_seq + 1 } else x)
                  b.tables.conversations)
                row h e refl (ground (arith, ==_refl cid)))),
      )
  where
    row : Message
    row = record {
      id = b.outside.random (suc b.calls);
      conversation_id = cid;
      seq = c.last_seq + 1;
      sender_account_id = me;
      sender_device_id = some dev;
      ciphertext = ct;
      server_ts = b.outside.clock (suc (suc b.calls));
      reply_to = reply;
      edited_at = none;
      deleted_at = none;
    }

    after : Backend
    after = record b {
      calls = suc (suc (suc b.calls));
      tables = record b.tables {
        conversations =
            map (λ x. if x.id == cid then record x { last_seq = x.last_seq + 1 } else x)
              b.tables.conversations;
        messages = b.tables.messages ++ row ∷ [];
      };
    }
