-- ===== src/Server/Db/Messages.antt =====
-- The messages section of crates/server/src/db.rs, statement by statement.
pub mod Sequence
pub mod Gaps
pub mod Listing
pub mod Arrival
pub mod Actions
use trust_server.Common.{
  ℕ, ◌+◌, ◌^◌, Bool, true, false, not, ◌&&◌, ◌||◌, Option, none, some, List, [], ◌∷◌, ◌++◌, map,
  any, filter, find?, modify_all, leb, ltb, ◌==◌, is_none, is_some, if◌then◌else◌,
}
use trust_server.Common.Sorting.{sort_by}
use trust_server.Exec.{ok, err, pure, when, ◌>>=◌, ◌>>◌}
use trust_server.Storage.Models.{Uuid, Time, Bytes}
use trust_server.Storage.Tables.{Tables, Conversation, Message, Hidden, Media}
use trust_server.Storage.Outside.{
  unique_violation, foreign_key_violation, out_of_range, row_not_found,
}
use trust_server.Storage.Backend.{Backend, Sql, Statement, execute, select, check, new_uuid}
use trust_server.Server.Db.Conversations.{has_id, is_member, conversation_exists, account_exists}

pub record MsgRow : Type 0 where
  pub id : Uuid
  pub seq : ℕ
  pub sender_account_id : Uuid
  pub sender_device_id : Option Uuid
  pub ciphertext : Bytes
  pub server_ts : Time
  pub reply_to : Option Uuid
  pub edited_at : Option Time

-- the bound of a BIGINT
abbrev pub bigint_bound : ℕ
bigint_bound = 2 ^ 63

abbrev pub bump : Conversation → Conversation
bump c = record c { last_seq = c.last_seq + 1 }

abbrev pub bump_row : Uuid → Option Conversation → Statement ℕ
bump_row cid none now t = err row_not_found
bump_row cid (some c) now t =
    check (ltb (c.last_seq + 1) bigint_bound) out_of_range (
      ok
        (c.last_seq + 1, record t { conversations = modify_all (has_id cid) bump t.conversations }))

-- `UPDATE conversations SET last_seq = last_seq + 1 WHERE id = $1 RETURNING last_seq`
abbrev pub next_seq : Uuid → Statement ℕ
next_seq cid now t = bump_row cid (find? (has_id cid) t.conversations) now t

abbrev pub message_has_id : Uuid → Message → Bool
message_has_id id m = m.id == id

abbrev pub has_seq : Uuid → ℕ → Message → Bool
has_seq cid seq m = m.conversation_id == cid && m.seq == seq

abbrev pub insert_message : Uuid → Uuid → ℕ → Uuid → Uuid → Bytes → Option Uuid → Statement Time
insert_message id cid seq sender_account sender_device ciphertext reply_to now t =
    let row : Message = record {
      id = id;
      conversation_id = cid;
      seq = seq;
      sender_account_id = sender_account;
      sender_device_id = some sender_device;
      ciphertext = ciphertext;
      server_ts = now;
      reply_to = reply_to;
      edited_at = none;
      deleted_at = none;
    } in
    check (not (any (message_has_id id) t.messages) && not (any (has_seq cid seq) t.messages))
      unique_violation
      (check (conversation_exists cid t && account_exists sender_account t) foreign_key_violation
        (ok (now, record t { messages = t.messages ++ row ∷ [] })))

unfoldable pub store_message : Uuid → Uuid → Uuid → Bytes → Option Uuid → Sql MsgRow
unfolding execute new_uuid
store_message cid sender_account sender_device ciphertext reply_to = do
  seq ← execute (next_seq cid)
  id ← new_uuid
  server_ts ← execute (insert_message id cid seq sender_account sender_device ciphertext reply_to)
  pure (record {
    id = id;
    seq = seq;
    sender_account_id = sender_account;
    sender_device_id = some sender_device;
    ciphertext = ciphertext;
    server_ts = server_ts;
    reply_to = reply_to;
    edited_at = none;
  })

abbrev pub hides : Uuid → Uuid → Hidden → Bool
hides msg_id account h = h.message_id == msg_id && h.account_id == account

-- the `WHERE` clause of `history`
abbrev pub visible : Uuid → Uuid → Tables → Message → Bool
visible cid me t m =
    m.conversation_id == cid && is_none m.deleted_at && not (any (hides m.id me) t.hidden_messages)

abbrev pub row_of : Message → MsgRow
row_of m = record {
  id = m.id;
  seq = m.seq;
  sender_account_id = m.sender_account_id;
  sender_device_id = m.sender_device_id;
  ciphertext = m.ciphertext;
  server_ts = m.server_ts;
  reply_to = m.reply_to;
  edited_at = m.edited_at;
}

abbrev pub by_seq : Message → Message → Bool
by_seq x y = leb x.seq y.seq

unfoldable pub history : Uuid → Uuid → Sql (List MsgRow)
unfolding execute
history cid me =
    execute (select (λ t. map row_of (sort_by by_seq (filter (visible cid me t) t.messages))))

abbrev pub insert_hidden : Uuid → Uuid → Statement (Unit {0})
insert_hidden msg_id account now t =
    if any (hides msg_id account) t.hidden_messages
    then ok (tt, t)
    else check (account_exists account t) foreign_key_violation (
        ok (
          tt,
          record t {
            hidden_messages =
                t.hidden_messages ++ record { message_id = msg_id; account_id = account } ∷ [];
          },
        ))

unfoldable pub hide_message_for : Uuid → Uuid → Sql (Unit {0})
unfolding execute
hide_message_for msg_id account = execute (insert_hidden msg_id account)

-- the `WHERE` clause of `edit_message`
abbrev pub editable : Uuid → Uuid → Message → Bool
editable msg_id sender m = m.id == msg_id && m.sender_account_id == sender && is_none m.deleted_at

abbrev pub edited : Bytes → Time → Message → Message
edited ciphertext now m = record m { ciphertext = ciphertext; edited_at = some now }

abbrev pub update_ciphertext : Uuid → Uuid → Bytes → Statement (Option (Uuid × ℕ × Time))
update_ciphertext msg_id sender ciphertext now t = ok (
  elim (find? (editable msg_id sender) t.messages) [
    | none ↦ none
    | some m ↦ some (m.conversation_id, m.seq, now)
  ],
  record t { messages = modify_all (editable msg_id sender) (edited ciphertext now) t.messages },
)

unfoldable pub edit_message : Uuid → Uuid → Bytes → Sql (Option (Uuid × ℕ × Time))
unfolding execute
edit_message msg_id sender ciphertext = execute (update_ciphertext msg_id sender ciphertext)

-- the `WHERE` clause of `delete_message`
abbrev pub deletable : Uuid → Uuid → Tables → Message → Bool
deletable msg_id actor t m =
    m.id == msg_id
    && is_none m.deleted_at
    && any (is_member m.conversation_id actor) t.conversation_members

abbrev pub deleted : Time → Message → Message
deleted now m = record m { deleted_at = some now; ciphertext = [] }

abbrev pub mark_deleted : Uuid → Uuid → Statement (Option (Uuid × ℕ))
mark_deleted msg_id actor now t = ok (
  elim (find? (deletable msg_id actor t) t.messages) [
    | none ↦ none
    | some m ↦ some (m.conversation_id, m.seq)
  ],
  record t { messages = modify_all (deletable msg_id actor t) (deleted now) t.messages },
)

abbrev pub media_of : Uuid → Media → Bool
media_of msg_id r = r.message_id == msg_id

abbrev pub delete_media : Uuid → Statement (Unit {0})
delete_media msg_id now t =
    ok (tt, record t { media = filter (λ r. not (media_of msg_id r)) t.media })

unfoldable pub delete_message : Uuid → Uuid → Sql (Option (Uuid × ℕ))
unfolding execute
delete_message msg_id actor = do
  row ← execute (mark_deleted msg_id actor)
  when (is_some row) (execute (delete_media msg_id))
  pure row
