-- ===== src/Server/Db/Media.antt =====
-- The shared-media section of crates/server/src/db.rs.
pub mod Paging
pub mod Follow
pub mod Albums
use trust_server.Common.{
  ℕ, suc, ◌+◌, String, Bool, true, false, not, ◌&&◌, Option, none, some, List, [], ◌∷◌, ◌++◌, any,
  filter, leb, ltb, ◌==◌, length, take, get_last?, if◌then◌else◌,
}
use trust_server.Common.Int.{ℤ, pos, ltb_ℤ}
use trust_server.Common.Sorting.{sort_by}
use trust_server.Common.Text.{str_eq}
use trust_server.Exec.{ok, err, pure, ◌>>=◌, ◌>>◌}
use trust_server.Storage.Models.{Uuid, Time}
use trust_server.Storage.Tables.{Tables, Media}
use trust_server.Storage.Outside.{unique_violation, foreign_key_violation}
use trust_server.Storage.Backend.{Backend, Sql, Statement, execute, select, check, new_uuid}
use trust_server.Server.Db.Conversations.{conversation_exists, account_exists}

-- the arguments of `record_media` that describe the attachment
pub record Attachment : Type 0 where
  pub kind : String
  pub blob_id : Option Uuid
  pub thumb_blob_id : Option Uuid
  pub mime : Option String
  pub name : Option String
  pub url : Option String
  pub size : Option ℤ
  pub width : Option ℤ
  pub height : Option ℤ

abbrev pub media_has_id : Uuid → Media → Bool
media_has_id id r = r.id == id

abbrev pub insert_media : Uuid → Uuid → Uuid → Uuid → ℕ → Attachment → Statement (Unit {0})
insert_media id cid message_id sender_account seq a now t =
    let row : Media = record {
      id = id;
      conversation_id = cid;
      message_id = message_id;
      sender_account_id = sender_account;
      seq = seq;
      kind = a.kind;
      blob_id = a.blob_id;
      thumb_blob_id = a.thumb_blob_id;
      mime = a.mime;
      name = a.name;
      url = a.url;
      size = a.size;
      width = a.width;
      height = a.height;
      created_at = now;
    } in
    check (not (any (media_has_id id) t.media)) unique_violation (
      check (conversation_exists cid t && account_exists sender_account t) foreign_key_violation
        (ok (tt, record t { media = t.media ++ row ∷ [] })))

unfoldable pub record_media : Uuid → Uuid → Uuid → ℕ → Attachment → Sql (Unit {0})
unfolding execute new_uuid
record_media cid message_id sender_account seq a = do
  id ← new_uuid
  execute (insert_media id cid message_id sender_account seq a)

abbrev pub of_kind : Option String → Media → Bool
of_kind none r = true
of_kind (some kind) r = str_eq r.kind kind

abbrev pub before_cursor : Option ℤ → Media → Bool
before_cursor none r = true
before_cursor (some before) r = ltb_ℤ (pos r.seq) before

-- the `WHERE` clause of `list_media`
abbrev pub listed : Uuid → Option String → Option ℤ → Media → Bool
listed cid kind before r = r.conversation_id == cid && of_kind kind r && before_cursor before r

-- `ORDER BY seq DESC`
abbrev pub newest_first : Media → Media → Bool
newest_first x y = leb y.seq x.seq

-- one row more than the limit is fetched; the page is the rows up to the limit, and the cursor is
-- there if the extra row is
abbrev pub page : ℕ → List Media → List Media × Option ℕ
page limit rows =
    let kept = take limit rows in
    if ltb limit (length rows)
    then (kept, elim (get_last? kept) [ none ↦ none | some r ↦ some r.seq ])
    else (rows, none)

abbrev pub ordered : Uuid → Option String → Option ℤ → Tables → List Media
ordered cid kind before t = sort_by newest_first (filter (listed cid kind before) t.media)

-- `limit` is between 1 and 100 where the handler calls this
unfoldable pub list_media : Uuid → Option String → Option ℤ → ℕ → Sql (List Media × Option ℕ)
unfolding execute
list_media cid kind before limit = do
  rows ← execute (select (λ t. take (limit + 1) (ordered cid kind before t)))
  pure (page limit rows)
