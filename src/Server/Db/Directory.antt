-- ===== src/Server/Db/Directory.antt =====
-- The listings of crates/server/src/db.rs: users, and the conversations of an account.
pub mod Latest
pub mod Listed
use trust_server.Common.{
  String, Bool, not, ◌&&◌, Option, none, some, List, [], ◌∷◌, map, any, filter, find?, leb, max,
  ◌==◌, if◌then◌else◌, flat_map,
}
use trust_server.Common.Sorting.{sort_by}
use trust_server.Storage.Models.{Uuid, Time, Account}
use trust_server.Storage.Tables.{Tables, Member, Message, Profile}
use trust_server.Storage.Backend.{Sql, execute, select}
use trust_server.Storage.AuthRepo.{account_has_id, account_has_name}

pub record ConvoListRow : Type 0 where
  pub other : Uuid
  pub cid : Uuid
  pub username : String
  pub display_name : Option String
  pub avatar_blob_id : Option Uuid
  pub last_seen : Option Time

pub record UserRow : Type 0 where
  pub id : Uuid
  pub username : String
  pub display_name : Option String
  pub avatar_blob_id : Option Uuid
  pub last_seen : Option Time

abbrev pub profile_of : Uuid → Profile → Bool
profile_of account p = p.account_id == account

-- the columns of a `LEFT JOIN profiles`
abbrev pub no_profile : Uuid → Profile
no_profile account = record {
  account_id = account;
  display_name = none;
  bio = none;
  avatar_blob_id = none;
  last_seen = none;
}

abbrev pub joined : Uuid → Tables → Profile
joined account t = elim (find? (profile_of account) t.profiles) [
  | none ↦ no_profile account
  | some p ↦ p
]

abbrev pub user_row : Tables → Account → UserRow
user_row t a = record {
  id = a.id;
  username = a.username;
  display_name = (joined a.id t).display_name;
  avatar_blob_id = (joined a.id t).avatar_blob_id;
  last_seen = (joined a.id t).last_seen;
}

-- `a.id <> $1`
abbrev pub other_than : Uuid → Account → Bool
other_than me a = not (a.id == me)

unfoldable pub list_users : Uuid → Sql (List UserRow)
unfolding execute
list_users me b =
    execute
      (select (λ t. map (user_row t) (
        sort_by (λ x y. b.outside.collation x.username y.username)
          (filter (other_than me) t.accounts))))
      b

unfoldable pub find_user_by_username : String → Sql (Option UserRow)
unfolding execute
find_user_by_username username = execute (
    select (λ t. elim (find? (account_has_name username) t.accounts) [
      | none ↦ none
      | some a ↦ some (user_row t a)
    ]))

-- `fetch_optional(…).unwrap_or_default()`
unfoldable pub username_of : Uuid → Sql String
unfolding execute
username_of id =
    execute (
      select (λ t. elim (find? (account_has_id id) t.accounts) [ none ↦ "" | some a ↦ a.username ]))

abbrev pub says_in : Uuid → Message → Bool
says_in cid m = m.conversation_id == cid

-- `max(server_ts)` over the messages of a conversation
abbrev pub latest : Uuid → List Message → Time
latest cid [] = 0
latest cid (m ∷ ms) =
    if m.conversation_id == cid then max m.server_ts (latest cid ms) else latest cid ms

-- another member of the conversation
abbrev pub partner : Member → Member → Bool
partner me o = o.conversation_id == me.conversation_id && not (o.account_id == me.account_id)

abbrev pub convo_row : Tables → Member → Account → ConvoListRow
convo_row t o a = record {
  other = o.account_id;
  cid = o.conversation_id;
  username = a.username;
  display_name = (joined o.account_id t).display_name;
  avatar_blob_id = (joined o.account_id t).avatar_blob_id;
  last_seen = (joined o.account_id t).last_seen;
}

-- the rows of the join for one membership of the account
abbrev pub convo_rows : Tables → Member → List ConvoListRow
convo_rows t me =
    if any (says_in me.conversation_id) t.messages
    then flat_map (λ o. map (convo_row t o) (filter (account_has_id o.account_id) t.accounts))
        (filter (partner me) t.conversation_members)
    else []

abbrev pub belongs_to : Uuid → Member → Bool
belongs_to account m = m.account_id == account

unfoldable pub conversations_for : Uuid → Sql (List ConvoListRow)
unfolding execute
conversations_for account = execute (
    select (λ t.
      sort_by (λ x y. leb (latest y.cid t.messages) (latest x.cid t.messages))
        (flat_map (convo_rows t) (filter (belongs_to account) t.conversation_members))))
