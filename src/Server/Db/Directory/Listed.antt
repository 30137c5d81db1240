-- ===== src/Server/Db/Directory/Listed.antt =====
-- Which conversations `conversations_for` of crates/server/src/db.rs lists, and in which order.
use trust_server.Common.{
  ℕ, suc, ◌≡◌, refl, ap, ◌∙◌, Bool, true, false, ◌&&◌, not, ◌==◌, Option, none, some, List, [], ◌∷◌,
  arith, any, filter, find?, map, flat_map, if◌then◌else◌, Bool-cases, inl, inr, length, All,
  ==_iff, subst, sym,
}
use trust_server.Common.Selection.{count-map, filter-filter, filter-ext}
use trust_server.Common.Totals.{
  total, total-ext, total-filter, count-flat_map, All-flat_map, All-mapped, All-passed,
  Ordered-mono,
}
use trust_server.Common.Sorting.{sort_by}
use trust_server.Common.Sorting.Laws.{count, count-sort_by, Ordered, sort_by-Ordered, All-sort_by}
use trust_server.Exec.{ok}
use trust_server.Storage.Models.{Uuid, Account}
use trust_server.Storage.Tables.{Tables, Member, Profile}
use trust_server.Storage.Backend.{Backend, execute}
use trust_server.Storage.AuthRepo.{account_has_id}
use trust_server.Server.Db.Directory.{
  ConvoListRow, convo_row, convo_rows, partner, belongs_to, says_in, conversations_for, profile_of,
  no_profile,
}
use trust_server.Server.Db.Directory.Latest.{
  later_first, by_latest, by_latest-IsOrder, by_latest-later_first,
}

-- a column of a profile that there may be
abbrev pub column : {A : Type 0} → (Profile → Option A) → Option Profile → Option A
column f none = none
column f (some p) = f p

-- the row of another member and its account
abbrev pub partner_row : Tables → Member → Account → ConvoListRow
partner_row t o a =
    let profile = find? (λ p. p.account_id == o.account_id) t.profiles in
    record {
      other = o.account_id;
      cid = o.conversation_id;
      username = a.username;
      display_name = column (λ p. p.display_name) profile;
      avatar_blob_id = column (λ p. p.avatar_blob_id) profile;
      last_seen = column (λ p. p.last_seen) profile;
    }

-- the rows of one other member that pass a test
abbrev pub rows_of_member : Tables → (ConvoListRow → Bool) → Member → ℕ
rows_of_member t p o = count (λ a. a.id == o.account_id && p (partner_row t o a)) t.accounts

-- the rows that pass a test, counted over the conversations of the account in which somebody has
-- written, their other members and the accounts of those
abbrev pub partners : Uuid → Tables → (ConvoListRow → Bool) → ℕ
partners account t p =
    total
      (λ me.
        if me.account_id == account
        then if any (λ m. m.conversation_id == me.conversation_id) t.messages
          then total
              (λ o.
                if o.conversation_id == me.conversation_id && not (o.account_id == me.account_id)
                then rows_of_member t p o
                else 0)
              t.conversation_members
          else 0
        else 0)
      t.conversation_members

convo_row-partner_row :
    (t : Tables) (o : Member) (a : Account) → convo_row t o a ≡ partner_row t o a
convo_row-partner_row t o a = by_profile (find? (profile_of o.account_id) t.profiles)
  where
    by_profile :
        (found : Option Profile)
        → let p : Profile = elim found [ none ↦ no_profile o.account_id | some q ↦ q ] in
          let left : ConvoListRow = record {
            other = o.account_id;
            cid = o.conversation_id;
            username = a.username;
            display_name = p.display_name;
            avatar_blob_id = p.avatar_blob_id;
            last_seen = p.last_seen;
          } in
          left ≡ record {
            other = o.account_id;
            cid = o.conversation_id;
            username = a.username;
            display_name = column (λ p. p.display_name) found;
            avatar_blob_id = column (λ p. p.avatar_blob_id) found;
            last_seen = column (λ p. p.last_seen) found;
          }
    by_profile none = refl
    by_profile (some p) = refl

module _ (p : ConvoListRow → Bool) (t : Tables) where
  count-rows_of :
      (o : Member)
      → count p (map (convo_row t o) (filter (account_has_id o.account_id) t.accounts))
        ≡ rows_of_member t p o
  count-rows_of o =
      count-map (convo_row t o) p (filter (account_has_id o.account_id) t.accounts)
      ∙ ap length (
          filter-filter (λ a. p (convo_row t o a)) (account_has_id o.account_id) t.accounts
          ∙ filter-ext _ _ t.accounts
              λ a. ap (λ r. account_has_id o.account_id a && p r) (convo_row-partner_row t o a))

  count-if :
      (c : Bool) (rows : List ConvoListRow)
      → count p (if c then rows else []) ≡ (if c then count p rows else 0)
  count-if true rows = refl
  count-if false rows = refl

  count-convo_rows :
      (me : Member)
      → count p (convo_rows t me) ≡ (
          if any (says_in me.conversation_id) t.messages
          then total (λ o. if partner me o then rows_of_member t p o else 0) t.conversation_members
          else 0)
  count-convo_rows me =
      count-if (any (says_in me.conversation_id) t.messages) _
      ∙ ap (λ n. if any (says_in me.conversation_id) t.messages then n else 0)
          (count-flat_map p _ (filter (partner me) t.conversation_members)
            ∙ total-filter _ (partner me) t.conversation_members
            ∙ total-ext _ _ t.conversation_members
                λ o. ap (λ n. if partner me o then n else 0) (count-rows_of o))

  count-listed :
      (account : Uuid)
      → count p (
          sort_by
            (by_latest t)
            (flat_map (convo_rows t) (filter (belongs_to account) t.conversation_members)))
        ≡ partners account t p
  count-listed account =
      count-sort_by (by_latest t) p _
      ∙ count-flat_map p (convo_rows t) (filter (belongs_to account) t.conversation_members)
      ∙ total-filter _ (belongs_to account) t.conversation_members
      ∙ total-ext _ _ t.conversation_members
          λ me. ap (λ n. if belongs_to account me then n else 0) (count-convo_rows me)

module _ (t : Tables) where
  -- a message stands in the conversation of the row
  abbrev Spoken : ConvoListRow → Type 0
  Spoken r = any (says_in r.cid) t.messages ≡ true

  convo_rows-Spoken : (me : Member) → All Spoken (convo_rows t me)
  convo_rows-Spoken me = elim (Bool-cases (any (says_in me.conversation_id) t.messages)) [
    | inl e ↦ rw e (
        All-flat_map Spoken _ (filter (partner me) t.conversation_members) (
          All-passed _ (partner me) t.conversation_members λ o h.
            let same : o.conversation_id ≡ me.conversation_id =
              (==_iff o.conversation_id me.conversation_id).0 (ground arith) in
            All-mapped Spoken (convo_row t o) (filter (account_has_id o.account_id) t.accounts)
              (λ a. subst (λ c. any (says_in c) t.messages ≡ true) (sym same) e)))
    | inr e ↦ rw e tt
  ]

  listed-Spoken :
      (mes : List Member) → All Spoken (sort_by (by_latest t) (flat_map (convo_rows t) mes))
  listed-Spoken mes =
      All-sort_by (by_latest t) Spoken (flat_map (convo_rows t) mes)
        (All-flat_map Spoken (convo_rows t) mes (everywhere mes))
    where
      everywhere : (xs : List Member) → All (λ me. All Spoken (convo_rows t me)) xs
      everywhere [] = tt
      everywhere (x ∷ xs) = (convo_rows-Spoken x, everywhere xs)

-- With the database in reach, `conversations_for` returns one row for each account of each other
-- member of each conversation of the account in which a message stands, as often as the tables
-- have them and with the columns of the member, the account and the profile; where a row comes
-- before another, some message of its conversation is at least as late as all of the other's. No
-- table changes.
pub conversations_for_lists :
    (account : Uuid) (b : Backend)
    → b.outside.fault b.calls ≡ false
    → (rows : List ConvoListRow) × (conversations_for account b
        ≡ (ok rows, record b { calls = suc b.calls }))
      × ((p : ConvoListRow → Bool) → count p rows ≡ partners account b.tables p)
      × Ordered (later_first b.tables.messages) rows
unfolding conversations_for execute
conversations_for_lists account b up = (
  sort_by (by_latest b.tables) all,
  rw up refl,
  λ p. count-listed p b.tables account,
  Ordered-mono (Spoken b.tables) (by_latest b.tables) (later_first b.tables.messages)
      (sort_by (by_latest b.tables) all) (by_latest-later_first b.tables)
      (listed-Spoken b.tables (filter (belongs_to account) b.tables.conversation_members))
      (sort_by-Ordered (by_latest b.tables) (by_latest-IsOrder b.tables) all),
)
  where
    all : List ConvoListRow
    all = flat_map (convo_rows b.tables) (filter (belongs_to account) b.tables.conversation_members)
