-- ===== src/Server/Db/Messages/Actions.antt =====
-- What `edit_message` and `delete_message` of crates/server/src/db.rs change of the messages that
-- `history` lists.
use trust_server.Common.{
  ◌≡◌, refl, ap, Bool, true, false, not, ◌&&◌, some, List, arith, any, find?, modify_all, filter,
  ◌==◌, is_some, filter-modify_all, ==_iff, Bool-cases, inl, inr,
}
use trust_server.Common.Sorting.{sort_by}
use trust_server.Common.Sorting.Laws.{sort_by-modify_all}
use trust_server.Common.Selection.{modify_all-selected, filter-modify_all_out, map-modify_all}
use trust_server.Exec.{ok, map_ok}
use trust_server.Storage.Models.{Uuid, Time, Bytes}
use trust_server.Storage.Tables.{Tables, Message}
use trust_server.Storage.Backend.{Backend}
use trust_server.Server.Db.Messages.{
  MsgRow, row_of, by_seq, visible, history, delete_message, deletable, deleted, edit_message,
  editable, edited,
}
use trust_server.Server.Db.Messages.Listing.{listing, history-listing, listing-filter}
use trust_server.Server.Db.Conversations.{is_member}

-- the row that an edit leaves
abbrev pub rewritten : Bytes → Time → MsgRow → MsgRow
rewritten ct now r = record r { ciphertext = ct; edited_at = some now }

abbrev pub sent_as : Uuid → Uuid → MsgRow → Bool
sent_as id me r = r.id == id && r.sender_account_id == me

edit_message-up :
    (id me : Uuid) (ct : Bytes) (b : Backend)
    → b.outside.fault b.calls ≡ false
    → (edit_message id me ct b).1.tables ≡ record b.tables {
      messages =
          modify_all (editable id me) (edited ct (b.outside.clock b.calls)) b.tables.messages;
    }
unfolding edit_message
edit_message-up id me ct b up = ground arith

listing-edited :
    (id me cid viewer : Uuid) (ct : Bytes) (now : Time) (t : Tables)
    → listing cid viewer
        (record t { messages = modify_all (editable id me) (edited ct now) t.messages })
      ≡ modify_all (sent_as id me) (rewritten ct now) (listing cid viewer t)
listing-edited id me cid viewer ct now t =
    rw
      (
        filter-modify_all (visible cid viewer t) (editable id me) (edited ct now) (λ m. refl)
            t.messages,
        modify_all-selected (visible cid viewer t) (editable id me) (λ m. sent_as id me (row_of m))
            (edited ct now) t.messages (λ m v. ground arith),
        sort_by-modify_all by_seq (λ m. sent_as id me (row_of m)) (edited ct now) (λ x y. refl)
            (λ x y. refl) (filter (visible cid viewer t) t.messages),
        map-modify_all row_of (sent_as id me) (edited ct now) (rewritten ct now)
            (sort_by by_seq (filter (visible cid viewer t) t.messages)) (λ m. refl),
      )
      refl

-- An edit gives the message with the id, in whatever `history` lists to anyone, the new text and
-- the time of the statement, if the caller is its sender, and changes no other message.
pub edit_message-history :
    (id me cid viewer : Uuid) (ct : Bytes) (b : Backend)
    → b.outside.fault b.calls ≡ false
    → (edit_message id me ct b).1.outside.fault (edit_message id me ct b).1.calls ≡ false
    → (history cid viewer (edit_message id me ct b).1).0
      ≡ map_ok
          (modify_all (sent_as id me) (rewritten ct (b.outside.clock b.calls)))
          (history cid viewer b).0
edit_message-history id me cid viewer ct b up up' =
    rw
      (
        history-listing cid viewer (edit_message id me ct b).1 up',
        history-listing cid viewer b up,
        edit_message-up id me ct b up,
      )
      (ap (λ (rows : List MsgRow). ok rows)
        (listing-edited id me cid viewer ct (b.outside.clock b.calls) b.tables))

delete_message-up :
    (id actor : Uuid) (b : Backend)
    → b.outside.fault b.calls ≡ false
    → ((delete_message id actor b).1.tables.messages
        ≡ modify_all
            (deletable id actor b.tables)
            (deleted (b.outside.clock b.calls))
            b.tables.messages)
      × ((delete_message id actor b).1.tables.hidden_messages ≡ b.tables.hidden_messages)
unfolding delete_message
delete_message-up id actor b up =
    elim (Bool-cases (is_some (find? (deletable id actor b.tables) b.tables.messages))) [
      | inl e ↦ ground arith
      | inr e ↦ ground arith
    ]

-- A deletion takes the message with the id out of whatever `history` lists to anyone, if the
-- caller is a member of the conversation, even if its second statement fails; it changes nothing
-- of what is listed for a conversation that the caller is not in.
pub delete_message-history :
    (id actor cid viewer : Uuid) (b : Backend)
    → b.outside.fault b.calls ≡ false
    → (delete_message id actor b).1.outside.fault (delete_message id actor b).1.calls ≡ false
    → (history cid viewer (delete_message id actor b).1).0
      ≡ map_ok
          (filter
            (λ r. not (r.id == id && any (is_member cid actor) b.tables.conversation_members)))
          (history cid viewer b).0
delete_message-history id actor cid viewer b up up' =
    rw
      (
        history-listing cid viewer (delete_message id actor b).1 up',
        history-listing cid viewer b up,
      )
      (ap (λ (rows : List MsgRow). ok rows)
        (listing-filter cid viewer b.tables (delete_message id actor b).1.tables keep shown))
  where
    keep : MsgRow → Bool
    keep r = not (r.id == id && any (is_member cid actor) b.tables.conversation_members)

    after : Tables
    after = (delete_message id actor b).1.tables

    members :
        (m : Message)
        → (m.conversation_id == cid) ≡ true
        → any (is_member m.conversation_id actor) b.tables.conversation_members
          ≡ any (is_member cid actor) b.tables.conversation_members
    members m e =
        ap (λ k. any (is_member k actor) b.tables.conversation_members)
          ((==_iff m.conversation_id cid).0 e)

    shown :
        filter (visible cid viewer after) after.messages
        ≡ filter (λ m. visible cid viewer b.tables m && keep (row_of m)) b.tables.messages
    shown =
        let (ms, hs) = delete_message-up id actor b up in
        rw ms (
          filter-modify_all_out (visible cid viewer after)
            (λ m. visible cid viewer b.tables m && keep (row_of m)) (deletable id actor b.tables)
            (deleted (b.outside.clock b.calls)) b.tables.messages
            (λ m. elim (Bool-cases (m.conversation_id == cid)) [
              | inl e ↦ let same = members m e in ground (arith, hs)
              | inr e ↦ ground (arith, hs)
            ])
            (λ m v. elim (Bool-cases (m.conversation_id == cid)) [
              | inl e ↦ let same = members m e in ground arith
              | inr e ↦ ground arith
            ]))
