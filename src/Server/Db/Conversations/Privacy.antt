-- ===== src/Server/Db/Conversations/Privacy.antt =====
-- Who takes part in a conversation of two accounts (`dm_conversation` of crates/server/src/db.rs).
use trust_server.Common.{
  ◌≡◌, refl, Bool, true, false, ◌&&◌, ◌||◌, ◌⊎◌, inl, inr, Option, none, some, List, [], ◌∷◌, ◌++◌,
  arith, any, leb, ◌==◌, if◌then◌else◌, any-append, find?-append, or_else, Bool-cases,
}
use trust_server.Storage.Models.{Uuid, Time}
use trust_server.Storage.Tables.{Tables, Conversation, Member}
use trust_server.Storage.Backend.{Backend, one, select}
use trust_server.Storage.Ensures.{
  Ensures, Outcome, Ensures-execute, Ensures-pure, Ensures-new_uuid, Ensures-bind, Ensures-state,
}
use trust_server.Server.Db.Conversations.{
  has_id, is_pair, is_member, conversation_exists, account_exists, pair_id, insert_conversation,
  add_member, members_of_pair, insert_members, insert_pair, create_pair, or_create,
  pair_conversation, dm_conversation,
}

abbrev pub takes_part : Uuid → Uuid → Tables → Bool
takes_part cid x t = any (is_member cid x) t.conversation_members

-- Memberships and pairs belong to conversations that exist, two pairs never share a conversation,
-- and only the two accounts of a pair take part in its conversation.
pub record IsPrivate (t : Tables) : Type 0 where
  pub members_exist : (cid x : Uuid) → takes_part cid x t ≡ true → conversation_exists cid t ≡ true
  pub pairs_exist :
      (lo hi cid : Uuid) → pair_id lo hi t ≡ some cid → conversation_exists cid t ≡ true
  pub pairs_differ :
      (lo hi lo' hi' cid : Uuid)
      → pair_id lo hi t ≡ some cid
      → pair_id lo' hi' t ≡ some cid
      → (lo ≡ lo') × (hi ≡ hi')
  pub only_the_pair :
      (lo hi cid x : Uuid)
      → pair_id lo hi t ≡ some cid
      → takes_part cid x t ≡ true
      → (x ≡ lo) ⊎ (x ≡ hi)

-- A conversation that no pair has yet, and in which only the given accounts take part.
pub record IsReserved (cid lo hi : Uuid) (t : Tables) : Type 0 where
  pub private : IsPrivate t
  pub unclaimed : (l h : Uuid) → pair_id l h t ≡ some cid → ⊥
  pub members : (x : Uuid) → takes_part cid x t ≡ true → (x ≡ lo) ⊎ (x ≡ hi)

add_member_lem :
    (cid a c x : Uuid) (ms : List Member)
    → any (is_member c x) (add_member cid a ms) ≡ (any (is_member c x) ms || (cid == c && a == x))
add_member_lem cid a c x ms = ground (
  arith,
  any-append (is_member c x) ms (record { conversation_id = cid; account_id = a } ∷ []),
  same,
)
  where
    same : cid ≡ c → a ≡ x → any (is_member cid a) ms ≡ any (is_member c x) ms
    same p q = λ i. any (is_member (p i) (q i)) ms

members_of_pair_lem :
    (cid lo hi c x : Uuid) (ms : List Member)
    → any (is_member c x) (members_of_pair cid lo hi ms)
      ≡ (any (is_member c x) ms || (cid == c && (lo == x || hi == x)))
members_of_pair_lem cid lo hi c x ms =
    ground (arith, add_member_lem cid lo c x ms, add_member_lem cid hi c x (add_member cid lo ms))

still_exists :
    (c : Uuid) (t : Tables) (r : Conversation)
    → conversation_exists c t ≡ true
    → any (has_id c) (t.conversations ++ r ∷ []) ≡ true
still_exists c t r e = ground (arith, any-append (has_id c) t.conversations (r ∷ []))

insert_conversation-IsReserved :
    (cid lo hi : Uuid) (now : Time) (t : Tables)
    → IsPrivate t
    → Outcome (λ _ t'. IsReserved cid lo hi t') (insert_conversation cid now t)
insert_conversation-IsReserved cid lo hi now t p = go (conversation_exists cid t) refl
  where
    go :
        (b : Bool)
        → conversation_exists cid t ≡ b
        → Outcome (λ _ t'. IsReserved cid lo hi t') (insert_conversation cid now t)
    go true e = rw e tt
    go false e = rw e (record {
      private = record {
        members_exist = λ c x m. still_exists c t _ (p.members_exist c x m);
        pairs_exist = λ l h c m. still_exists c t _ (p.pairs_exist l h c m);
        pairs_differ = p.pairs_differ;
        only_the_pair = p.only_the_pair;
      };
      unclaimed = λ l h m. cc (p.pairs_exist l h cid m);
      members = λ x m. absurd (cc (p.members_exist cid x m));
    })

insert_members-IsReserved :
    (cid lo hi : Uuid) (now : Time) (t : Tables)
    → IsReserved cid lo hi t
    → Outcome (λ _ t'. IsReserved cid lo hi t') (insert_members cid lo hi now t)
insert_members-IsReserved cid lo hi now t r =
    go (conversation_exists cid t && account_exists lo t && account_exists hi t) refl
  where
    go :
        (b : Bool)
        → (conversation_exists cid t && account_exists lo t && account_exists hi t) ≡ b
        → Outcome (λ _ t'. IsReserved cid lo hi t') (insert_members cid lo hi now t)
    go false e = rw e tt
    go true e = rw e (record {
      private = record {
        members_exist = λ c x m. ground (
          arith,
          members_of_pair_lem cid lo hi c x t.conversation_members,
          r.private.members_exist c x,
        );
        pairs_exist = r.private.pairs_exist;
        pairs_differ = r.private.pairs_differ;
        only_the_pair = λ l h c x m k. ground (
          arith,
          members_of_pair_lem cid lo hi c x t.conversation_members,
          r.private.only_the_pair l h c x,
          r.unclaimed l h,
        );
      };
      unclaimed = r.unclaimed;
      members = λ x m.
          ground (arith, members_of_pair_lem cid lo hi cid x t.conversation_members, r.members x);
    })

-- the pairs with one more at the end
pair_id-append :
    (l h lo hi cid : Uuid) (t : Tables) (u : Tables)
    → u.dm_conversations
      ≡ t.dm_conversations
        ++ record { account_lo = lo; account_hi = hi; conversation_id = cid } ∷ []
    → pair_id l h u ≡ or_else (pair_id l h t) (if lo == l && hi == h then some cid else none)
pair_id-append l h lo hi cid t u e = ground (
  arith,
  find?-append (is_pair l h) t.dm_conversations
      (record { account_lo = lo; account_hi = hi; conversation_id = cid } ∷ []),
)

insert_pair-IsPrivate :
    (cid lo hi : Uuid) (now : Time) (t : Tables)
    → IsReserved cid lo hi t
    → Outcome (λ _ t'. IsPrivate t') (insert_pair lo hi cid now t)
insert_pair-IsPrivate cid lo hi now t r = go (any (is_pair lo hi) t.dm_conversations) refl
  where
    added : Tables
    added = record t {
      dm_conversations =
          t.dm_conversations
          ++ record { account_lo = lo; account_hi = hi; conversation_id = cid } ∷ [];
    }

    write :
        (b : Bool)
        → (conversation_exists cid t && account_exists lo t && account_exists hi t) ≡ b
        → any (is_pair lo hi) t.dm_conversations ≡ false
        → Outcome (λ _ t'. IsPrivate t') (insert_pair lo hi cid now t)
    write false e f = rw (f, e) tt
    write true e f =
        rw (f, e)
          (record {
            members_exist = r.private.members_exist;
            pairs_exist = λ l h c m.
                ground
                  (arith, pair_id-append l h lo hi cid t added refl, r.private.pairs_exist l h c);
            pairs_differ = λ l h l' h' c m k. ground (
              arith,
              pair_id-append l h lo hi cid t added refl,
              pair_id-append l' h' lo hi cid t added refl,
              r.private.pairs_differ l h l' h' c,
              r.unclaimed l h,
              r.unclaimed l' h',
            );
            only_the_pair = λ l h c x m k. ground (
              arith,
              pair_id-append l h lo hi cid t added refl,
              r.private.only_the_pair l h c x,
              r.members x,
            );
          })

    go :
        (b : Bool)
        → any (is_pair lo hi) t.dm_conversations ≡ b
        → Outcome (λ _ t'. IsPrivate t') (insert_pair lo hi cid now t)
    go true e = rw e r.private
    go false e =
        write (conversation_exists cid t && account_exists lo t && account_exists hi t) refl e

create_pair-IsPrivate :
    (lo hi : Uuid) → Ensures IsPrivate (create_pair lo hi) (λ _ t. IsPrivate t) IsPrivate
unfolding create_pair
create_pair-IsPrivate lo hi = Ensures-bind (Ensures-new_uuid IsPrivate IsPrivate) λ cid.
    Ensures-bind
      (Ensures-execute (λ _ t. IsReserved cid lo hi t) (insert_conversation cid) (λ t p. p)
        (insert_conversation-IsReserved cid lo hi))
      λ _.
        Ensures-bind
          (Ensures-execute (λ _ t. IsReserved cid lo hi t) (insert_members cid lo hi)
            (λ t r. r.private) (insert_members-IsReserved cid lo hi))
          λ _.
            Ensures-bind
              (Ensures-execute (λ _ t. IsPrivate t) (insert_pair lo hi cid) (λ t r. r.private)
                (insert_pair-IsPrivate cid lo hi))
              λ _.
                Ensures-execute (λ _ t. IsPrivate t) (one (pair_id lo hi)) (λ t p. p)
                  λ now t p. ground arith

or_create-IsPrivate :
    (lo hi : Uuid) (o : Option Uuid)
    → Ensures IsPrivate (or_create lo hi o) (λ _ t. IsPrivate t) IsPrivate
or_create-IsPrivate lo hi none = create_pair-IsPrivate lo hi
or_create-IsPrivate lo hi (some cid) = Ensures-pure (λ _ t. IsPrivate t) cid (λ t p. p)

pair_conversation-IsPrivate :
    (lo hi : Uuid) → Ensures IsPrivate (pair_conversation lo hi) (λ _ t. IsPrivate t) IsPrivate
unfolding pair_conversation
pair_conversation-IsPrivate lo hi =
    Ensures-bind
      (Ensures-execute (λ _ t. IsPrivate t) (select (pair_id lo hi)) (λ t p. p) (λ now t p. p))
      (or_create-IsPrivate lo hi)

-- Looking up or creating the conversation of two accounts, whichever of its statements fail and
-- whatever id it draws, keeps conversations private: only the two accounts of a pair take part in
-- the pair's conversation, and no two pairs share one.
pub dm_conversation-IsPrivate :
    (a c : Uuid) (b : Backend) → IsPrivate b.tables → IsPrivate (dm_conversation a c b).1.tables
unfolding dm_conversation
dm_conversation-IsPrivate a c b p = elim (Bool-cases (leb a c)) [
  | inl e ↦ rw e (Ensures-state (pair_conversation-IsPrivate a c) b p)
  | inr e ↦ rw e (Ensures-state (pair_conversation-IsPrivate c a) b p)
]
