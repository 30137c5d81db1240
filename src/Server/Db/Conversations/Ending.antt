-- ===== src/Server/Db/Conversations/Ending.antt =====
-- Two interleaved calls of `dm_conversation` (crates/server/src/db.rs) come to an end.
use trust_server.Common.{
  ◌-◌, ◌≤◌, ◌≡◌, ap, sym, ◌∙◌, Bool, true, false, not, some, List, [], ◌∷◌, arith, ◌==◌, All,
}
use trust_server.Common.Sorting.Laws.{count}
use trust_server.Storage.Models.{Uuid}
use trust_server.Storage.Tables.{Tables}
use trust_server.Server.Db.Conversations.{pair_id, conversation_exists, account_exists}
use trust_server.Server.Db.Conversations.Race.{
  returned, Turn, first, second, Calls, turn, interleave, both_starting, left, step-left,
  race_agrees,
}
use trust_server.Server.Db.Conversations.Unfailing.{
  Ready, step-accounts, step-Ready, other-Ready, ended,
}

-- the ids that the outside gives to the two calls
abbrev pub Draws : Uuid → Uuid → Turn → Type 0
Draws x y (first id now) = id ≡ x
Draws x y (second id now) = id ≡ y

abbrev pub is_first : Turn → Bool
is_first (first id now) = true
is_first (second id now) = false

record IsReady (lo hi x y : Uuid) (s : Calls) : Type 0 where
  one : Ready lo hi x s.one s.tables
  two : Ready lo hi y s.two s.tables
  low : account_exists lo s.tables ≡ true
  high : account_exists hi s.tables ≡ true

turn-IsReady :
    (lo hi x y : Uuid) (w : Turn) (s : Calls)
    → (x == y) ≡ false
    → Draws x y w
    → IsReady lo hi x y s
    → IsReady lo hi x y (turn lo hi w s)
turn-IsReady lo hi x y (first id now) s n e r = rw e (record {
  one = step-Ready lo hi x now s.one s.tables r.low r.high r.one;
  two = other-Ready lo hi y x now s.two s.one s.tables (ground arith) r.one r.two;
  low = step-accounts lo hi lo x now s.one s.tables ∙ r.low;
  high = step-accounts lo hi hi x now s.one s.tables ∙ r.high;
})
turn-IsReady lo hi x y (second id now) s n e r = rw e (record {
  one = other-Ready lo hi x y now s.one s.two s.tables n r.two r.one;
  two = step-Ready lo hi y now s.two s.tables r.low r.high r.two;
  low = step-accounts lo hi lo y now s.two s.tables ∙ r.low;
  high = step-accounts lo hi hi y now s.two s.tables ∙ r.high;
})

interleave-IsReady :
    (lo hi x y : Uuid) (ws : List Turn) (s : Calls)
    → (x == y) ≡ false
    → All (Draws x y) ws
    → IsReady lo hi x y s
    → IsReady lo hi x y (interleave lo hi ws s)
interleave-IsReady lo hi x y [] s n d r = r
interleave-IsReady lo hi x y (w ∷ ws) s n d r =
    interleave-IsReady lo hi x y ws (turn lo hi w s) n d.1 (turn-IsReady lo hi x y w s n d.0 r)

left-interleave_one :
    (lo hi : Uuid) (ws : List Turn) (s : Calls)
    → left (interleave lo hi ws s).one ≤ left s.one - count is_first ws
left-interleave_one lo hi [] s = omega arith
left-interleave_one lo hi (first id now ∷ ws) s = omega (
  arith,
  left-interleave_one lo hi ws (turn lo hi (first id now) s),
  step-left lo hi id now s.one s.tables,
)
left-interleave_one lo hi (second id now ∷ ws) s =
    left-interleave_one lo hi ws (turn lo hi (second id now) s)

left-interleave_two :
    (lo hi : Uuid) (ws : List Turn) (s : Calls)
    → left (interleave lo hi ws s).two ≤ left s.two - count (λ w. not (is_first w)) ws
left-interleave_two lo hi [] s = omega arith
left-interleave_two lo hi (first id now ∷ ws) s =
    left-interleave_two lo hi ws (turn lo hi (first id now) s)
left-interleave_two lo hi (second id now ∷ ws) s = omega (
  arith,
  left-interleave_two lo hi ws (turn lo hi (second id now) s),
  step-left lo hi id now s.two s.tables,
)

-- Two calls for one pair of accounts that exist, with ids that differ and that no conversation has,
-- both return, and with the same conversation, which is the pair's in the database: whatever the
-- order of their statements, five turns each are enough, and no statement fails as long as the
-- database is in reach.
pub race_returns :
    (lo hi x y : Uuid) (ws : List Turn) (t : Tables)
    → account_exists lo t ≡ true
    → account_exists hi t ≡ true
    → conversation_exists x t ≡ false
    → conversation_exists y t ≡ false
    → (x == y) ≡ false
    → All (Draws x y) ws
    → 5 ≤ count is_first ws
    → 5 ≤ count (λ w. not (is_first w)) ws
    → (c : Uuid) × ((interleave lo hi ws (both_starting t)).one ≡ returned c)
      × ((interleave lo hi ws (both_starting t)).two ≡ returned c)
      × (pair_id lo hi (interleave lo hi ws (both_starting t)).tables ≡ some c)
race_returns lo hi x y ws t l h ex ey n draws five five' =
    let s = interleave lo hi ws (both_starting t) in
    let r =
      interleave-IsReady lo hi x y ws (both_starting t) n draws
        (record { one = ex; two = ey; low = l; high = h }) in
    let (c, one) =
      ended lo hi x s.one s.tables (omega (arith, left-interleave_one lo hi ws (both_starting t)))
        r.one in
    let (d, two) =
      ended lo hi y s.two s.tables (omega (arith, left-interleave_two lo hi ws (both_starting t)))
        r.two in
    let (same, pair) = race_agrees lo hi ws t one two in
    (c, one, two ∙ ap (λ z. returned z) (sym same), pair)
