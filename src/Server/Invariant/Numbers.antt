-- ===== src/Server/Invariant/Numbers.antt =====
-- The numbering of the messages under every query.
use trust_server.Common.{refl, sym, ◌∙◌, not, any-modify_all, arith, find?-append, [], ◌∷◌, ◌++◌}
use trust_server.Exec.{ok}
use trust_server.Storage.Models.{Uuid, Time, Bytes}
use trust_server.Storage.Tables.{Tables, Conversation}
use trust_server.Storage.Outside.{unique_violation}
use trust_server.Storage.Backend.{execute}
use trust_server.Storage.Ensures.{Outcome, Outcome-check}
use trust_server.Storage.Keeps.{KeepsDb, KeepsDb-execute}
use trust_server.Server.Db.Conversations.{has_id, conversation_exists, insert_conversation}
use trust_server.Server.Db.Messages
use trust_server.Server.Db.Messages.{
  has_seq, editable, edited, deletable, deleted, update_ciphertext, mark_deleted,
}
use trust_server.Server.Db.Messages.Sequence.{IsSequenced, store_message-IsSequenced}
use trust_server.Server.Invariant.Parts.{
  create_session-KeepsDb, rotate_session-KeepsDb, revoke_session-KeepsDb, dm_conversation-KeepsDb,
}
use trust_server.Server.Invariant.Stability.{Parts}

insert_conversation-IsSequenced :
    (cid : Uuid) → KeepsDb IsSequenced (execute (insert_conversation cid))
insert_conversation-IsSequenced cid = KeepsDb-execute (insert_conversation cid) inserted
  where
    inserted :
        (now : Time) (t : Tables)
        → IsSequenced t
        → Outcome (λ _ t'. IsSequenced t') (insert_conversation cid now t)
    inserted now t h =
        let row : Conversation = record {
          id = cid;
          kind = "dm";
          epoch = 0;
          last_seq = 0;
          created_at = now;
        } in
        Outcome-check (λ _ t'. IsSequenced t') (not (conversation_exists cid t)) unique_violation
          (ok (tt, record t { conversations = t.conversations ++ row ∷ [] }))
          λ new. record {
            in_range = λ j seq m.
                ground
                  (arith, h.in_range j seq, find?-append (has_id j) t.conversations (row ∷ []));
          }

update_ciphertext-IsSequenced :
    (id account : Uuid) (text : Bytes) → KeepsDb IsSequenced (Messages.edit_message id account text)
unfolding Messages.edit_message
update_ciphertext-IsSequenced id account text =
    KeepsDb-execute (update_ciphertext id account text) λ now t h. record {
      in_range = λ j seq m. h.in_range j seq (
          sym (
            any-modify_all (has_seq j seq) (editable id account) (edited text now) (λ x. refl)
              t.messages)
          ∙ m);
    }

mark_deleted-IsSequenced :
    (id account : Uuid) → KeepsDb IsSequenced (execute (mark_deleted id account))
mark_deleted-IsSequenced id account = KeepsDb-execute (mark_deleted id account) λ now t h. record {
  in_range = λ j seq m. h.in_range j seq (
      sym (
        any-modify_all (has_seq j seq) (deletable id account t) (deleted now) (λ x. refl)
          t.messages)
      ∙ m);
}

-- The messages stay numbered under every query.
pub IsSequenced-parts : Parts IsSequenced
IsSequenced-parts = record {
  accounts = λ x t h. record { in_range = h.in_range };
  devices = λ x t h. record { in_range = h.in_range };
  hidden = λ x t h. record { in_range = h.in_range };
  read = λ x t h. record { in_range = h.in_range };
  delivered = λ x t h. record { in_range = h.in_range };
  profiles = λ x t h. record { in_range = h.in_range };
  blobs = λ x t h. record { in_range = h.in_range };
  media = λ x t h. record { in_range = h.in_range };
  create_session = create_session-KeepsDb λ x t h. record { in_range = h.in_range };
  rotate_session = rotate_session-KeepsDb λ x t h. record { in_range = h.in_range };
  revoke_session = revoke_session-KeepsDb λ x t h. record { in_range = h.in_range };
  dm_conversation =
      dm_conversation-KeepsDb insert_conversation-IsSequenced
        (λ x t h. record { in_range = h.in_range }) (λ x t h. record { in_range = h.in_range });
  store_message = λ cid account device text reply. record {
    at = store_message-IsSequenced cid account device text reply;
  };
  edit_message = update_ciphertext-IsSequenced;
  mark_deleted = mark_deleted-IsSequenced;
}
