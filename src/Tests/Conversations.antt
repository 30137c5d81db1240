-- ===== src/Tests/Conversations.antt =====
-- Conversations of pairs, on a small database.
use trust_server.Common.Sorting.Laws.{count, Ordered}
use trust_server.Server.Db.Directory.{ConvoListRow, conversations_for}
use trust_server.Server.Db.Directory.Listed.{partners, conversations_for_lists}
use trust_server.Server.Db.Directory.Latest.{later_first}
use trust_server.Common.{ℕ, ◌≡◌, refl, arith, Bool, some, List, [], ◌∷◌}
use trust_server.Exec.{ok}
use trust_server.Storage.Tables.{no_tables}
use trust_server.Storage.Backend.{Backend, execute}
use trust_server.Server.Db.Conversations.{pair_id, dm_conversation, pair_conversation}
use trust_server.Server.Db.Conversations.Pairs.{dm_conversation_stable, called}
use trust_server.Server.Db.Conversations.Privacy.{IsPrivate, dm_conversation-IsPrivate}
use trust_server.Server.Db.Conversations.Race.{
  Turn, first, second, returned, interleave, both_starting, race_agrees, step,
}
use trust_server.Server.Db.Conversations.Ending.{race_returns}
use trust_server.Tests.Sample.{backend, alice, bob}

abbrev fresh : Backend
fresh = record backend { tables = record no_tables { accounts = alice ∷ bob ∷ [] } }

no_tables-IsPrivate : IsPrivate fresh.tables
no_tables-IsPrivate = record {
  members_exist = λ cid x e. cc;
  pairs_exist = λ lo hi cid e. cc;
  pairs_differ = λ lo hi lo' hi' cid e f. cc;
  only_the_pair = λ lo hi cid x e f. cc;
}

dm_conversation-IsPrivate_example : IsPrivate (dm_conversation 2 1 fresh).1.tables
dm_conversation-IsPrivate_example = dm_conversation-IsPrivate 2 1 fresh no_tables-IsPrivate

dm_conversation-backend : dm_conversation 1 2 backend ≡ (ok 100, called backend)
unfolding dm_conversation pair_conversation execute
dm_conversation-backend = refl

dm_conversation_stable_example :
    (dm_conversation 1 2 (called backend) ≡ (ok 100, called (called backend)))
    × (dm_conversation 2 1 (called backend) ≡ (ok 100, called (called backend)))
dm_conversation_stable_example =
    dm_conversation_stable 1 2 backend (called backend) 100 dm_conversation-backend refl

-- both look the pair up before either has written
abbrev turns : List Turn
turns =
    first 500 1
    ∷ second 501 2
    ∷ first 0 3
    ∷ first 0 4
    ∷ second 0 5
    ∷ second 0 6
    ∷ first 0 7
    ∷ second 0 8
    ∷ second 0 9
    ∷ first 0 10
    ∷ []

first-returned : (interleave 1 2 turns (both_starting fresh.tables)).one ≡ returned 500
unfolding step
first-returned = refl

second-returned : (interleave 1 2 turns (both_starting fresh.tables)).two ≡ returned 500
unfolding step
second-returned = refl

race_agrees_example :
    (◌≡◌ {A = ℕ} 500 500)
    × (pair_id 1 2 (interleave 1 2 turns (both_starting fresh.tables)).tables ≡ some 500)
race_agrees_example = race_agrees 1 2 turns fresh.tables first-returned second-returned

-- five turns each
abbrev five_each : List Turn
five_each =
    first 500 1
    ∷ second 501 2
    ∷ first 500 3
    ∷ second 501 4
    ∷ second 501 5
    ∷ second 501 6
    ∷ first 500 7
    ∷ first 500 8
    ∷ first 500 9
    ∷ second 501 10
    ∷ []

race_returns_example :
    (c : ℕ) × ((interleave 1 2 five_each (both_starting fresh.tables)).one ≡ returned c)
    × ((interleave 1 2 five_each (both_starting fresh.tables)).two ≡ returned c)
    × (pair_id 1 2 (interleave 1 2 five_each (both_starting fresh.tables)).tables ≡ some c)
race_returns_example =
    race_returns 1 2 500 501 five_each fresh.tables refl refl refl refl refl
      (refl, (refl, (refl, (refl, (refl, (refl, (refl, (refl, (refl, (refl, tt))))))))))
      (ground arith) (ground arith)

conversations_for_lists_example :
    (rows : List ConvoListRow) × (conversations_for 1 backend ≡ (ok rows, called backend))
    × ((p : ConvoListRow → Bool) → count p rows ≡ partners 1 backend.tables p)
    × Ordered (later_first backend.tables.messages) rows
conversations_for_lists_example = conversations_for_lists 1 backend refl
