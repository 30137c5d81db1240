-- ===== src/Server/Db/Directory/Latest.antt =====
-- The order of `conversations_for` of crates/server/src/db.rs: the latest message of a conversation.
use trust_server.Common.{
  ℕ, ◌≡◌, ◌≤◌, refl, Bool, true, false, not, ◌&&◌, List, [], ◌∷◌, arith, any, ltb, leb, ◌==◌,
  ==_iff, ==_refl, Bool-cases, inl, inr,
}
use trust_server.Common.Totals.{any_mono}
use trust_server.Common.Sorting.Laws.{IsOrder}
use trust_server.Storage.Models.{Uuid}
use trust_server.Storage.Tables.{Tables, Message}
use trust_server.Server.Db.Directory.{ConvoListRow, says_in, latest}

latest-silent : (cid : Uuid) (ms : List Message) → any (says_in cid) ms ≡ false → latest cid ms ≡ 0
latest-silent cid [] h = refl
latest-silent cid (m ∷ ms) h = ground (arith, latest-silent cid ms)

latest-attained :
    (cid : Uuid) (ms : List Message)
    → any (says_in cid) ms ≡ true
    → any (λ m. m.conversation_id == cid && m.server_ts == latest cid ms) ms ≡ true
latest-attained cid [] h = h
latest-attained cid (m ∷ ms) h = elim (Bool-cases (any (says_in cid) ms)) [
  | inl e ↦ ground (arith, latest-attained cid ms)
  | inr e ↦ ground (arith, latest-silent cid ms, ==_refl m.server_ts)
]

latest-bounds :
    (cid : Uuid) (n : ℕ) (ms : List Message)
    → latest cid ms ≤ n
    → any (λ m. m.conversation_id == cid && ltb n m.server_ts) ms ≡ false
latest-bounds cid n [] h = refl
latest-bounds cid n (m ∷ ms) h = ground (arith, latest-bounds cid n ms)

-- some message of the first conversation is at least as late as every message of the second
abbrev pub later_first : List Message → ConvoListRow → ConvoListRow → Bool
later_first ms x y =
    any
      (λ n.
        n.conversation_id == x.cid
        && not (any (λ m. m.conversation_id == y.cid && ltb n.server_ts m.server_ts) ms))
      ms

abbrev pub by_latest : Tables → ConvoListRow → ConvoListRow → Bool
by_latest t x y = leb (latest y.cid t.messages) (latest x.cid t.messages)

pub by_latest-IsOrder : (t : Tables) → IsOrder (by_latest t)
by_latest-IsOrder t = record { total = λ x y e. ground arith; trans = λ x y z e f. ground arith }

pub by_latest-later_first :
    (t : Tables) (x y : ConvoListRow)
    → any (says_in x.cid) t.messages ≡ true
    → by_latest t x y ≡ true
    → later_first t.messages x y ≡ true
by_latest-later_first t x y h e =
    any_mono _ _ t.messages
      (λ n a.
        let last : n.server_ts ≡ latest x.cid t.messages =
          (==_iff n.server_ts (latest x.cid t.messages)).0 (ground arith) in
        let none_later = latest-bounds y.cid n.server_ts t.messages (ground arith) in ground arith)
      (latest-attained x.cid t.messages h)
