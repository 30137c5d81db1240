-- ===== src/Tests/Messages.antt =====
-- Messages and their markers, on a small database.
use trust_server.Common.{
  ℕ, ◌≡◌, refl, Bool, false, not, ◌&&◌, none, List, [], ◌∷◌, ◌++◌, ==_iff, arith, ◌==◌, Bool-cases,
  subst, inl, inr, any, filter, map, modify_all, max, if◌then◌else◌, ◌+◌,
}
use trust_server.Common.Sorting.Laws.{count, Ordered}
use trust_server.Exec.{ok, err, map_ok}
use trust_server.Storage.Tables.{Tables, Message}
use trust_server.Storage.Outside.{unavailable}
use trust_server.Storage.Backend.{Backend, execute}
use trust_server.Server.Db.Conversations.{is_member}
use trust_server.Server.Db.Messages.{
  MsgRow, row_of, store_message, history, hide_message_for, edit_message, delete_message,
}
use trust_server.Server.Db.Messages.Sequence.{
  IsSequenced, last_of, store_message-IsSequenced, store_message_appends,
}
use trust_server.Server.Db.Messages.Arrival.{store_message-history}
use trust_server.Server.Db.Messages.Gaps.{
  GapFree, AllGapFree, store_message_gap_free, lost_insert_leaves_gap,
}
use trust_server.Server.Db.Messages.Listing.{
  row_by_seq, shown_to, columns, history_lists_visible, hide_message_for-history,
}
use trust_server.Server.Db.Messages.Actions.{
  sent_as, rewritten, edit_message-history, delete_message-history,
}
use trust_server.Server.Db.Receipts.{read_markers, mark, marker, up_to}
use trust_server.Server.Db.Receipts.Markers.{IsLastSeq, mark-marker}
use trust_server.Tests.Sample.{backend, tables, outside, talk, message}

abbrev one_message : Tables
one_message = record tables {
  conversations = record talk { last_seq = 1 } ∷ [];
  messages = message 201 1 1 ∷ [];
}

abbrev start : Backend
start = record backend { tables = one_message }

start-IsSequenced : IsSequenced start.tables
start-IsSequenced = record { in_range = λ cid seq m. ground arith }

start-AllGapFree : AllGapFree start.tables
start-AllGapFree j = elim (Bool-cases (100 == j)) [
  | inl e ↦ subst (λ k. GapFree k start.tables) ((==_iff 100 j).0 e) refl
  | inr e ↦ let none_yet : last_of j start.tables ≡ 0 = ground arith in rw (e, none_yet) refl
]

store_message-IsSequenced_example :
    IsSequenced (store_message 100 1 11 (9 ∷ []) none start).1.tables
store_message-IsSequenced_example =
    store_message-IsSequenced 100 1 11 (9 ∷ []) none start start-IsSequenced

abbrev stored : Message
stored = record (message 1001 2 1) { ciphertext = 9 ∷ []; server_ts = 2 }

store_message_appends_example : store_message 100 1 11 (9 ∷ []) none start ≡ (
  ok (row_of stored),
  record start {
    calls = 3;
    tables = record one_message {
      conversations =
          map
            (λ x. if x.id == 100 then record x { last_seq = x.last_seq + 1 } else x)
            one_message.conversations;
      messages = one_message.messages ++ stored ∷ [];
    };
  },
)
store_message_appends_example =
    store_message_appends 100 1 11 (9 ∷ []) none start (record talk { last_seq = 1 })
      start-IsSequenced refl refl (ground arith) refl refl refl

store-runs :
    store_message 100 1 11 (9 ∷ []) none start
    ≡ (ok (row_of stored), (store_message 100 1 11 (9 ∷ []) none start).1)
unfolding store_message execute
store-runs = refl

store_message_gap_free_example : AllGapFree (store_message 100 1 11 (9 ∷ []) none start).1.tables
store_message_gap_free_example =
    store_message_gap_free 100 1 11 (9 ∷ []) none start
      (store_message 100 1 11 (9 ∷ []) none start).1 (row_of stored) start-AllGapFree store-runs

-- the third call is lost
abbrev shaky : Backend
shaky = record start { outside = record outside { fault = λ n. n == 2 } }

lost_insert_leaves_gap_example :
    ((store_message 100 1 11 [] none shaky).0 ≡ err unavailable)
    × ¬ GapFree 100 (store_message 100 1 11 [] none shaky).1.tables
lost_insert_leaves_gap_example =
    lost_insert_leaves_gap 100 1 11 [] none shaky (record talk { last_seq = 1 })
      (start-AllGapFree 100) refl (ground arith) refl refl

history_lists_visible_example :
    (rows : List MsgRow) × (history 100 2 backend ≡ (ok rows, record backend { calls = 1 }))
    × ((p : MsgRow → Bool)
        → count p rows
          ≡ count (λ m. shown_to 100 2 tables.hidden_messages m && p (columns m)) tables.messages)
    × Ordered row_by_seq rows
history_lists_visible_example = history_lists_visible 100 2 backend refl

hide-runs : hide_message_for 201 1 backend ≡ (ok tt, (hide_message_for 201 1 backend).1)
unfolding hide_message_for execute
hide-runs = refl

hide_up :
    (hide_message_for 201 1 backend).1.outside.fault (hide_message_for 201 1 backend).1.calls
    ≡ false
unfolding hide_message_for execute
hide_up = refl

hide_message_for-history_example :
    (history 100 2 (hide_message_for 201 1 backend).1).0
    ≡ map_ok (filter (λ r. not (r.id == 201 && 2 == 1))) (history 100 2 backend).0
hide_message_for-history_example =
    hide_message_for-history 201 1 100 2 backend (hide_message_for 201 1 backend).1 refl hide_up
      hide-runs

edit_up :
    (edit_message 201 1 (8 ∷ []) backend).1.outside.fault
      (edit_message 201 1 (8 ∷ []) backend).1.calls
    ≡ false
unfolding edit_message execute
edit_up = refl

edit_message-history_example :
    (history 100 2 (edit_message 201 1 (8 ∷ []) backend).1).0
    ≡ map_ok (modify_all (sent_as 201 1) (rewritten (8 ∷ []) 0)) (history 100 2 backend).0
edit_message-history_example = edit_message-history 201 1 100 2 (8 ∷ []) backend refl edit_up

delete_up :
    (delete_message 201 2 backend).1.outside.fault (delete_message 201 2 backend).1.calls ≡ false
unfolding delete_message execute
delete_up = refl

delete_message-history_example :
    (history 100 1 (delete_message 201 2 backend).1).0
    ≡ map_ok
        (filter (λ r. not (r.id == 201 && any (is_member 100 2) tables.conversation_members)))
        (history 100 1 backend).0
delete_message-history_example = delete_message-history 201 2 100 1 backend refl delete_up

mark-runs : mark read_markers 100 1 backend ≡ (ok tt, (mark read_markers 100 1 backend).1)
unfolding mark execute
mark-runs = refl

mark_up :
    (mark read_markers 100 1 backend).1.outside.fault (mark read_markers 100 1 backend).1.calls
    ≡ false
unfolding mark execute
mark_up = refl

mark-marker_example :
    (last : ℕ) × IsLastSeq 100 tables.messages last
    × ((marker read_markers 100 1 (mark read_markers 100 1 backend).1).0
        ≡ ok (max (up_to 100 1 tables.read_markers) last))
mark-marker_example =
    mark-marker read_markers read_markers 100 1 100 1 backend (mark read_markers 100 1 backend).1
      mark_up mark-runs

store_message-history_example :
    let (stored, b') = store_message 100 1 11 (9 ∷ []) none start in
    (row : MsgRow) × (stored ≡ ok row)
    × ((history 100 2 b').0 ≡ map_ok (λ rows. rows ++ row ∷ []) (history 100 2 start).0)
store_message-history_example =
    store_message-history 100 1 11 2 (9 ∷ []) none start (record talk { last_seq = 1 }) (λ n. refl)
      start-IsSequenced refl refl (ground arith) refl refl
