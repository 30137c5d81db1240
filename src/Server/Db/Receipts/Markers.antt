-- ===== src/Server/Db/Receipts/Markers.antt =====
-- What `mark_read` and `mark_delivered` of crates/server/src/db.rs do to the markers that `read_seq`
-- and `delivered_seq` return.
use trust_server.Common.{
  ℕ, ◌≡◌, ◌≤◌, refl, ltb, ◌||◌, subst, Bool, true, false, ◌&&◌, List, [], ◌∷◌, arith, max, any,
  ◌==◌, if◌then◌else◌, find?-append, find?-absent, find?-present, find?-passes, find?-modify_all,
  ==_iff, ==_refl, Bool-cases, inl, inr,
}
use trust_server.Exec.{ok}
use trust_server.Storage.Models.{Uuid}
use trust_server.Storage.Tables.{Tables, Marker, Message}
use trust_server.Storage.Outside.{foreign_key_violation}
use trust_server.Storage.Backend.{Backend}
use trust_server.Storage.Ensures.{Outcome, Outcome-check, Ensures-execute, Ensures-ok}
use trust_server.Server.Db.Conversations.{conversation_exists, account_exists}
use trust_server.Server.Db.Receipts.{
  MarkerTable, read_markers, delivered_markers, markers, set_markers, is_marker, max_seq, raise_to,
  upsert, advance, mark, up_to, marker,
}

abbrev pub same_table : MarkerTable → MarkerTable → Bool
same_table read_markers read_markers = true
same_table delivered_markers delivered_markers = true
same_table a b = false

module _ (cid account seq : ℕ) (ms : List Marker) where
  abbrev new_marker : Marker
  new_marker = record { conversation_id = cid; account_id = account; up_to_seq = seq }

  up_to-upsert_same : up_to cid account (upsert cid account seq ms) ≡ max (up_to cid account ms) seq
  up_to-upsert_same = elim (Bool-cases (any (is_marker cid account) ms)) [
    | inl e ↦
        let (m, found) = find?-present (is_marker cid account) ms e in
        let itself = find?-passes (is_marker cid account) ms {a = m} found in
        ground (
          arith,
          find?-modify_all (is_marker cid account) (is_marker cid account) (raise_to seq)
              (λ m. refl) ms,
        )
    | inr e ↦ ground (
      arith,
      find?-append (is_marker cid account) ms (new_marker ∷ []),
      find?-absent (is_marker cid account) ms,
      ==_refl cid,
      ==_refl account,
    )
  ]

  -- the markers of other conversations and accounts stay
  up_to-upsert_other :
      (j other : ℕ)
      → (j == cid && other == account) ≡ false
      → up_to j other (upsert cid account seq ms) ≡ up_to j other ms
  up_to-upsert_other j other ne = elim (Bool-cases (any (is_marker cid account) ms)) [
    | inl e ↦ elim (Bool-cases (any (is_marker j other) ms)) [
      | inl f ↦
          let (m, found) = find?-present (is_marker j other) ms f in
          let itself = find?-passes (is_marker j other) ms {a = m} found in
          ground (
            arith,
            find?-modify_all (is_marker j other) (is_marker cid account) (raise_to seq) (λ m. refl)
                ms,
          )
      | inr f ↦ ground (
        arith,
        find?-absent (is_marker j other) ms,
        find?-modify_all (is_marker j other) (is_marker cid account) (raise_to seq) (λ m. refl) ms,
      )
    ]
    | inr e ↦ ground (arith, find?-append (is_marker j other) ms (new_marker ∷ []))
  ]

  up_to-upsert :
      (j other : ℕ)
      → up_to j other (upsert cid account seq ms) ≡ (
          if j == cid && other == account then max (up_to cid account ms) seq else up_to j other ms)
  up_to-upsert j other = elim (Bool-cases (j == cid && other == account)) [
    | inl e ↦
        rw (e, (==_iff j cid).0 (ground arith), (==_iff other account).0 (ground arith))
          up_to-upsert_same
    | inr e ↦ rw e (up_to-upsert_other j other e)
  ]

-- what a mark leaves of all markers
abbrev Marked : MarkerTable → Uuid → Uuid → Tables → Tables → Type 0
Marked table cid account t t' =
    (table' : MarkerTable) (j other : Uuid)
    → up_to j other (markers table' t') ≡ (
        if same_table table table' && j == cid && other == account
        then max (up_to cid account (markers table t)) (max_seq cid t.messages)
        else up_to j other (markers table' t))

set_markers-Marked :
    (table : MarkerTable) (cid account : Uuid) (t : Tables)
    → Marked table cid account t
        (set_markers table (upsert cid account (max_seq cid t.messages) (markers table t)) t)
set_markers-Marked read_markers cid account t read_markers j other =
    up_to-upsert cid account (max_seq cid t.messages) t.read_markers j other
set_markers-Marked read_markers cid account t delivered_markers j other = refl
set_markers-Marked delivered_markers cid account t read_markers j other = refl
set_markers-Marked delivered_markers cid account t delivered_markers j other =
    up_to-upsert cid account (max_seq cid t.messages) t.delivered_markers j other

-- the greatest number of a message in the conversation, or 0 where it has none
abbrev pub IsLastSeq : Uuid → List Message → ℕ → Type 0
IsLastSeq cid ms last =
    (any (λ m. m.conversation_id == cid && ltb last m.seq) ms ≡ false)
    × ((last == 0 || any (λ m. m.conversation_id == cid && m.seq == last) ms) ≡ true)

max_seq-bounds :
    (cid : Uuid) (n : ℕ) (ms : List Message)
    → max_seq cid ms ≤ n
    → any (λ m. m.conversation_id == cid && ltb n m.seq) ms ≡ false
max_seq-bounds cid n [] h = refl
max_seq-bounds cid n (m ∷ ms) h = ground (arith, max_seq-bounds cid n ms)

max_seq-attained :
    (cid : Uuid) (ms : List Message)
    → (max_seq cid ms == 0 || any (λ m. m.conversation_id == cid && m.seq == max_seq cid ms) ms)
      ≡ true
max_seq-attained cid [] = refl
max_seq-attained cid (m ∷ ms) = ground (arith, max_seq-attained cid ms)

max_seq-IsLastSeq : (cid : Uuid) (ms : List Message) → IsLastSeq cid ms (max_seq cid ms)
max_seq-IsLastSeq cid ms =
    (max_seq-bounds cid (max_seq cid ms) ms (omega arith), max_seq-attained cid ms)

-- Once a mark has returned, the marker of the conversation and the account is the greater of what
-- it was and the number of the conversation's last message, 0 where it has none, so that it never
-- falls, and no other marker of either table has changed.
pub mark-marker :
    (table table' : MarkerTable) (cid account j other : Uuid) (b b' : Backend)
    → b'.outside.fault b'.calls ≡ false
    → mark table cid account b ≡ (ok tt, b')
    → (last : ℕ) × IsLastSeq cid b.tables.messages last
      × ((marker table' j other b').0
          ≡ ok (
              if same_table table table' && j == cid && other == account
              then max (up_to cid account (markers table b.tables)) last
              else up_to j other (markers table' b.tables)))
unfolding mark marker
mark-marker table table' cid account j other b b' up' e = (
  max_seq cid b.tables.messages,
  max_seq-IsLastSeq cid b.tables.messages,
  rw (up', marked table' j other) refl,
)
  where
    marked : Marked table cid account b.tables b'.tables
    marked =
        Ensures-ok
          (Ensures-execute {P = λ t. t ≡ b.tables} (λ _ t'. Marked table cid account b.tables t')
            (advance table cid account) (λ t p. tt)
            (λ now t p.
              subst
                (λ s.
                  Outcome (λ _ t'. Marked table cid account s t') (advance table cid account now t))
                p
                (Outcome-check {A = Unit {0}} (λ _ t'. Marked table cid account t t')
                  (conversation_exists cid t && account_exists account t) foreign_key_violation
                  (ok (
                    tt,
                    set_markers table
                        (upsert cid account (max_seq cid t.messages) (markers table t)) t,
                  ))
                  (λ _. set_markers-Marked table cid account t))))
          b tt b' e refl
