-- ===== src/Server/Db/Receipts.antt =====
-- The receipts section of crates/server/src/db.rs: the markers of what an account has read and of
-- what has reached it.
pub mod Markers
use trust_server.Common.{
  ℕ, Bool, true, false, not, ◌&&◌, Option, none, some, List, [], ◌∷◌, ◌++◌, any, find?, modify_all,
  max, ◌==◌, if◌then◌else◌,
}
use trust_server.Exec.{ok, err, pure, ◌>>=◌, ◌>>◌}
use trust_server.Storage.Models.{Uuid}
use trust_server.Storage.Tables.{Tables, Marker, Message}
use trust_server.Storage.Outside.{foreign_key_violation}
use trust_server.Storage.Backend.{Backend, Sql, Statement, execute, select, check}
use trust_server.Server.Db.Conversations.{conversation_exists, account_exists}

-- the `table` argument of `mark` and `marker`
pub data MarkerTable : Type 0 where
  read_markers delivered_markers : MarkerTable

abbrev pub markers : MarkerTable → Tables → List Marker
markers read_markers t = t.read_markers
markers delivered_markers t = t.delivered_markers

abbrev pub set_markers : MarkerTable → List Marker → Tables → Tables
set_markers read_markers ms t = record t { read_markers = ms }
set_markers delivered_markers ms t = record t { delivered_markers = ms }

abbrev pub is_marker : Uuid → Uuid → Marker → Bool
is_marker cid account m = m.conversation_id == cid && m.account_id == account

-- `COALESCE(MAX(seq), 0)` over the messages of a conversation
abbrev pub max_seq : Uuid → List Message → ℕ
max_seq cid [] = 0
max_seq cid (m ∷ ms) =
    if m.conversation_id == cid then max m.seq (max_seq cid ms) else max_seq cid ms

abbrev pub raise_to : ℕ → Marker → Marker
raise_to seq m = record m { up_to_seq = max m.up_to_seq seq }

-- `INSERT … ON CONFLICT DO UPDATE SET up_to_seq = GREATEST(…)`
abbrev pub upsert : Uuid → Uuid → ℕ → List Marker → List Marker
upsert cid account seq ms =
    if any (is_marker cid account) ms
    then modify_all (is_marker cid account) (raise_to seq) ms
    else ms ++ record { conversation_id = cid; account_id = account; up_to_seq = seq } ∷ []

abbrev pub advance : MarkerTable → Uuid → Uuid → Statement (Unit {0})
advance table cid account now t =
    check (conversation_exists cid t && account_exists account t) foreign_key_violation
      (ok (tt, set_markers table (upsert cid account (max_seq cid t.messages) (markers table t)) t))

unfoldable pub mark : MarkerTable → Uuid → Uuid → Sql (Unit {0})
unfolding execute
mark table cid account = execute (advance table cid account)

unfoldable pub mark_read : Uuid → Uuid → Sql (Unit {0})
unfolding mark
mark_read = mark read_markers

unfoldable pub mark_delivered : Uuid → Uuid → Sql (Unit {0})
unfolding mark
mark_delivered = mark delivered_markers

-- `fetch_optional(…).unwrap_or(0)`
abbrev pub up_to : Uuid → Uuid → List Marker → ℕ
up_to cid account ms = elim (find? (is_marker cid account) ms) [ none ↦ 0 | some m ↦ m.up_to_seq ]

unfoldable pub marker : MarkerTable → Uuid → Uuid → Sql ℕ
unfolding execute
marker table cid account = execute (select (λ t. up_to cid account (markers table t)))

unfoldable pub read_seq : Uuid → Uuid → Sql ℕ
unfolding marker
read_seq = marker read_markers

unfoldable pub delivered_seq : Uuid → Uuid → Sql ℕ
unfolding marker
delivered_seq = marker delivered_markers
