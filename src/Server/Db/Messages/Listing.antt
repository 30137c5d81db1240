-- ===== src/Server/Db/Messages/Listing.antt =====
-- What `history` of crates/server/src/db.rs lists, and what hiding a message takes out of it.
use trust_server.Common.{
  suc, ◌≡◌, refl, ap, subst, sym, Bool, true, false, not, ◌&&◌, List, [], ◌∷◌, ◌++◌, arith, any,
  filter, map, leb, ◌==◌, any-append, All, ◌||◌, ==_iff, Bool-cases, inl, inr, Option-cases,
  is_some, length, ◌∙◌,
}
use trust_server.Common.Sorting.{sort_by}
use trust_server.Common.Sorting.Laws.{
  count, Ordered, IsOrder, count-sort_by, sort_by-Ordered, sort_by-filter,
}
use trust_server.Common.Selection.{filter-filter, filter-ext, map-filter, count-map}
use trust_server.Exec.{ok, map_ok}
use trust_server.Storage.Models.{Uuid, Time}
use trust_server.Storage.Tables.{Tables, Message, Hidden}
use trust_server.Storage.Outside.{foreign_key_violation}
use trust_server.Storage.Ensures.{Outcome, Outcome-check, Ensures-execute, Ensures-ok}
use trust_server.Storage.Backend.{Backend}
use trust_server.Server.Db.Conversations.{account_exists}
use trust_server.Server.Db.Messages.{
  MsgRow, row_of, by_seq, visible, hides, history, hide_message_for, insert_hidden,
}

pub by_seq-IsOrder : IsOrder by_seq
by_seq-IsOrder = record { total = λ x y e. ground arith; trans = λ x y z e f. ground arith }

abbrev pub listing : Uuid → Uuid → Tables → List MsgRow
listing cid me t = map row_of (sort_by by_seq (filter (visible cid me t) t.messages))

abbrev pub row_by_seq : MsgRow → MsgRow → Bool
row_by_seq x y = leb x.seq y.seq

pub history-listing :
    (cid me : Uuid) (b : Backend)
    → b.outside.fault b.calls ≡ false
    → history cid me b ≡ (ok (listing cid me b.tables), record b { calls = suc b.calls })
unfolding history
history-listing cid me b up = ground arith

count-selected :
    (v : Message → Bool) (p : MsgRow → Bool) (ms : List Message)
    → count p (map row_of (sort_by by_seq (filter v ms))) ≡ count (λ m. v m && p (row_of m)) ms
count-selected v p ms =
    rw
      (
        count-map row_of p (sort_by by_seq (filter v ms)),
        count-sort_by by_seq (λ m. p (row_of m)) (filter v ms),
        filter-filter (λ m. p (row_of m)) v ms,
      )
      refl

map-All-by_seq :
    (m : Message) (ms : List Message)
    → All (λ x. by_seq m x ≡ true) ms
    → All (λ r. row_by_seq (row_of m) r ≡ true) (map row_of ms)
map-All-by_seq m [] h = tt
map-All-by_seq m (x ∷ xs) h = (h.0, map-All-by_seq m xs h.1)

map-Ordered : (ms : List Message) → Ordered by_seq ms → Ordered row_by_seq (map row_of ms)
map-Ordered [] h = tt
map-Ordered (m ∷ ms) h = (map-All-by_seq m ms h.0, map-Ordered ms h.1)

-- a message that stands in the conversation, was not deleted and that the account has not hidden
abbrev pub shown_to : Uuid → Uuid → List Hidden → Message → Bool
shown_to cid me hidden m =
    m.conversation_id == cid
    && not (is_some m.deleted_at)
    && not (any (λ h. h.message_id == m.id && h.account_id == me) hidden)

-- what is read of a message
abbrev pub columns : Message → MsgRow
columns m = record {
  id = m.id;
  seq = m.seq;
  sender_account_id = m.sender_account_id;
  sender_device_id = m.sender_device_id;
  ciphertext = m.ciphertext;
  server_ts = m.server_ts;
  reply_to = m.reply_to;
  edited_at = m.edited_at;
}

visible-shown_to :
    (cid me : Uuid) (t : Tables) (p : MsgRow → Bool) (m : Message)
    → (visible cid me t m && p (row_of m)) ≡ (shown_to cid me t.hidden_messages m && p (columns m))
visible-shown_to cid me t p m = elim (Option-cases m.deleted_at) [
  | inl e ↦ rw e refl
  | inr (at, e) ↦ rw e refl
]

-- With the database in reach, `history` returns the messages of the conversation that are neither
-- deleted nor hidden by the caller, each as often as it is stored and with the columns of its row,
-- by ascending number, and changes no table.
pub history_lists_visible :
    (cid me : Uuid) (b : Backend)
    → b.outside.fault b.calls ≡ false
    → (rows : List MsgRow) × (history cid me b ≡ (ok rows, record b { calls = suc b.calls }))
      × ((p : MsgRow → Bool)
          → count p rows
            ≡ count
                (λ m. shown_to cid me b.tables.hidden_messages m && p (columns m))
                b.tables.messages)
      × Ordered row_by_seq rows
history_lists_visible cid me b up = (
  listing cid me b.tables,
  history-listing cid me b up,
  λ p.
      count-selected (visible cid me b.tables) p b.tables.messages
      ∙ ap length (filter-ext _ _ b.tables.messages (visible-shown_to cid me b.tables p)),
  map-Ordered (sort_by by_seq shown) (sort_by-Ordered by_seq by_seq-IsOrder shown),
)
  where
    shown : List Message
    shown = filter (visible cid me b.tables) b.tables.messages

-- a listing with some messages taken out
pub listing-filter :
    (cid me : Uuid) (t t' : Tables) (keep : MsgRow → Bool)
    → filter (visible cid me t') t'.messages
      ≡ filter (λ m. visible cid me t m && keep (row_of m)) t.messages
    → listing cid me t' ≡ filter keep (listing cid me t)
listing-filter cid me t t' keep e =
    rw
      (
        e,
        sym (filter-filter (λ m. keep (row_of m)) (visible cid me t) t.messages),
        sort_by-filter by_seq by_seq-IsOrder (λ m. keep (row_of m))
            (filter (visible cid me t) t.messages),
        map-filter row_of keep (sort_by by_seq (filter (visible cid me t) t.messages)),
      )
      refl

-- the tables once an account has hidden a message
record IsHidden (id me : Uuid) (t t' : Tables) : Type 0 where
  same : t'.messages ≡ t.messages
  more :
      (j viewer : Uuid)
      → any (hides j viewer) t'.hidden_messages
        ≡ (any (hides j viewer) t.hidden_messages || (j == id && viewer == me))

already :
    (id me j viewer : Uuid) (hs : List Hidden)
    → any (hides id me) hs ≡ true
    → any (hides j viewer) hs ≡ (any (hides j viewer) hs || (j == id && viewer == me))
already id me j viewer hs e = elim (Bool-cases (j == id && viewer == me)) [
  | inl t ↦
      let here : any (hides j viewer) hs ≡ true =
        rw ((==_iff j id).0 (ground arith), (==_iff viewer me).0 (ground arith)) e in
      rw (t, here) refl
  | inr f ↦ ground arith
]

insert_hidden-IsHidden :
    (id me : Uuid) (now : Time) (t : Tables)
    → Outcome (λ _ t'. IsHidden id me t t') (insert_hidden id me now t)
insert_hidden-IsHidden id me now t = elim (Bool-cases (any (hides id me) t.hidden_messages)) [
  | inl e ↦
      rw e (record { same = refl; more = λ j viewer. already id me j viewer t.hidden_messages e })
  | inr e ↦ rw e (
      Outcome-check {A = Unit {0}} (λ _ t'. IsHidden id me t t') (account_exists me t)
        foreign_key_violation
        (ok (tt, record t { hidden_messages = t.hidden_messages ++ new ∷ [] }))
        (λ _. record {
          same = refl;
          more =
              λ j viewer. ground (arith, any-append (hides j viewer) t.hidden_messages (new ∷ []));
        }))
]
  where
    new : Hidden
    new = record { message_id = id; account_id = me }

-- Hiding a message, once the call has returned, takes it out of what `history` lists for the
-- caller, and leaves the caller's other messages and what the other accounts see as they were.
pub hide_message_for-history :
    (id me cid viewer : Uuid) (b b' : Backend)
    → b.outside.fault b.calls ≡ false
    → b'.outside.fault b'.calls ≡ false
    → hide_message_for id me b ≡ (ok tt, b')
    → (history cid viewer b').0
      ≡ map_ok (filter (λ r. not (r.id == id && viewer == me))) (history cid viewer b).0
unfolding hide_message_for
hide_message_for-history id me cid viewer b b' up up' e =
    rw (history-listing cid viewer b' up', history-listing cid viewer b up)
      (ap (λ (rows : List MsgRow). ok rows)
        (listing-filter cid viewer b.tables b'.tables (λ r. not (r.id == id && viewer == me))
          shown))
  where
    hidden : IsHidden id me b.tables b'.tables
    hidden =
        Ensures-ok
          (Ensures-execute {P = λ t. t ≡ b.tables} (λ _ t'. IsHidden id me b.tables t')
            (insert_hidden id me) (λ t p. tt)
            (λ now t p.
              subst (λ s. Outcome (λ _ t'. IsHidden id me s t') (insert_hidden id me now t)) p
                (insert_hidden-IsHidden id me now t)))
          b tt b' e refl

    shown :
        filter (visible cid viewer b'.tables) b'.tables.messages
        ≡ filter
            (λ m. visible cid viewer b.tables m && not (m.id == id && viewer == me))
            b.tables.messages
    shown = rw hidden.same (
        filter-ext (visible cid viewer b'.tables)
          (λ m. visible cid viewer b.tables m && not (m.id == id && viewer == me)) b.tables.messages
          (λ m. ground (arith, hidden.more m.id viewer)))
