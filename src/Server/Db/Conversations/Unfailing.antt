-- ===== src/Server/Db/Conversations/Unfailing.antt =====
-- What keeps each statement of two interleaved calls of `dm_conversation`
-- (crates/server/src/db.rs) from failing.
use trust_server.Common.{
  ◌≤◌, ◌≡◌, refl, ◌∙◌, Bool, true, false, arith, any, any-append, any-find?, find?, ◌==◌, ==_refl,
  ◌||◌, Option-cases, Bool-cases, inl, inr,
}
use trust_server.Storage.Models.{Uuid, Time}
use trust_server.Storage.Tables.{Tables}
use trust_server.Server.Db.Conversations.{pair_id, is_pair, conversation_exists, account_exists}
use trust_server.Server.Db.Conversations.Race.{
  Call, starting, creating, adding, claiming, reading, returned, failed, step, left,
}

or_false : (b : Bool) → (b || false) ≡ b
or_false true = refl
or_false false = refl

or_true : (b : Bool) → (b || true) ≡ true
or_true true = refl
or_true false = refl

module _ (lo hi : Uuid) where
  -- the next statement of a call that draws the id `x` does not fail
  abbrev pub Ready : Uuid → Call → Tables → Type 0
  Ready x starting t = conversation_exists x t ≡ false
  Ready x (creating z) t = (z ≡ x) × (conversation_exists x t ≡ false)
  Ready x (adding z) t = conversation_exists z t ≡ true
  Ready x (claiming z) t = conversation_exists z t ≡ true
  Ready x reading t = any (is_pair lo hi) t.dm_conversations ≡ true
  Ready x (returned z) t = Unit
  Ready x (failed e) t = true ≡ false

  pub step-accounts :
      (a id : Uuid) (now : Time) (c : Call) (t : Tables)
      → account_exists a (step lo hi id now c t).1 ≡ account_exists a t
  unfolding step
  step-accounts a id now starting t = refl
  step-accounts a id now (creating z) t = ground arith
  step-accounts a id now (adding z) t = ground arith
  step-accounts a id now (claiming z) t = ground arith
  step-accounts a id now reading t = refl
  step-accounts a id now (returned z) t = refl
  step-accounts a id now (failed e) t = refl

  pub step-Ready :
      (x : Uuid) (now : Time) (c : Call) (t : Tables)
      → account_exists lo t ≡ true
      → account_exists hi t ≡ true
      → Ready x c t
      → Ready x (step lo hi x now c t).0 (step lo hi x now c t).1
  unfolding step
  step-Ready x now starting t l h r = elim (Option-cases (pair_id lo hi t)) [
    | inl e ↦ rw e (refl, r)
    | inr (c, e) ↦ rw e tt
  ]
  step-Ready x now (creating z) t l h r =
      let new : conversation_exists z t ≡ false = rw r.0 r.1 in
      rw (new, any-append, ==_refl z, or_true) refl
  step-Ready x now (adding z) t l h r = ground arith
  step-Ready x now (claiming z) t l h r =
      elim (Bool-cases (any (is_pair lo hi) t.dm_conversations)) [
        | inl e ↦ rw e e
        | inr e ↦ rw (e, r, l, h, any-append, ==_refl lo, ==_refl hi, or_true) refl
      ]
  step-Ready x now reading t l h r =
      elim (Option-cases (find? (is_pair lo hi) t.dm_conversations)) [
        | inl e ↦ let gone = rw (any-find?, e) at r in cc
        | inr (c, e) ↦ rw (e, Ready) tt
      ]
  step-Ready x now (returned z) t l h r = tt
  step-Ready x now (failed e) t l h r = r

  -- what a step of a call that draws the id `y` leaves of the tables
  step-exists :
      (x y : Uuid) (now : Time) (d : Call) (t : Tables)
      → (x == y) ≡ false
      → Ready y d t
      → conversation_exists x (step lo hi y now d t).1 ≡ conversation_exists x t
  unfolding step
  step-exists x y now starting t n r = refl
  step-exists x y now (creating z) t n r =
      let new : conversation_exists z t ≡ false = rw r.0 r.1 in
      let apart : (z == x) ≡ false = rw r.0 (ground arith) in
      rw (new, any-append, apart, or_false) refl
  step-exists x y now (adding z) t n r = ground arith
  step-exists x y now (claiming z) t n r = ground arith
  step-exists x y now reading t n r = refl
  step-exists x y now (returned z) t n r = refl
  step-exists x y now (failed e) t n r = refl

  step-keeps_existing :
      (z y : Uuid) (now : Time) (d : Call) (t : Tables)
      → conversation_exists z t ≡ true
      → conversation_exists z (step lo hi y now d t).1 ≡ true
  unfolding step
  step-keeps_existing z y now starting t e = e
  step-keeps_existing z y now (creating u) t e = elim (Bool-cases (conversation_exists u t)) [
    | inl f ↦ rw f e
    | inr f ↦ rw (f, any-append, e) refl
  ]
  step-keeps_existing z y now (adding u) t e = ground arith
  step-keeps_existing z y now (claiming u) t e = ground arith
  step-keeps_existing z y now reading t e = e
  step-keeps_existing z y now (returned u) t e = e
  step-keeps_existing z y now (failed x) t e = e

  step-keeps_pair :
      (y : Uuid) (now : Time) (d : Call) (t : Tables)
      → any (is_pair lo hi) t.dm_conversations ≡ true
      → any (is_pair lo hi) (step lo hi y now d t).1.dm_conversations ≡ true
  unfolding step
  step-keeps_pair y now starting t e = e
  step-keeps_pair y now (creating u) t e = ground arith
  step-keeps_pair y now (adding u) t e = ground arith
  step-keeps_pair y now (claiming u) t e = rw e e
  step-keeps_pair y now reading t e = e
  step-keeps_pair y now (returned u) t e = e
  step-keeps_pair y now (failed x) t e = e

  pub other-Ready :
      (x y : Uuid) (now : Time) (c d : Call) (t : Tables)
      → (x == y) ≡ false
      → Ready y d t
      → Ready x c t
      → Ready x c (step lo hi y now d t).1
  other-Ready x y now starting d t n k r = step-exists x y now d t n k ∙ r
  other-Ready x y now (creating z) d t n k r = (r.0, step-exists x y now d t n k ∙ r.1)
  other-Ready x y now (adding z) d t n k r = step-keeps_existing z y now d t r
  other-Ready x y now (claiming z) d t n k r = step-keeps_existing z y now d t r
  other-Ready x y now reading d t n k r = step-keeps_pair y now d t r
  other-Ready x y now (returned z) d t n k r = tt
  other-Ready x y now (failed e) d t n k r = r

  pub ended :
      (x : Uuid) (c : Call) (t : Tables) → left c ≤ 0 → Ready x c t → (z : Uuid) × (c ≡ returned z)
  ended x starting t l r = absurd (omega arith)
  ended x (creating z) t l r = absurd (omega arith)
  ended x (adding z) t l r = absurd (omega arith)
  ended x (claiming z) t l r = absurd (omega arith)
  ended x reading t l r = absurd (omega arith)
  ended x (returned z) t l r = (z, refl)
  ended x (failed e) t l r = cc
