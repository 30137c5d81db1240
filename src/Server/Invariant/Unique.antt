-- ===== src/Server/Invariant/Unique.antt =====
-- The UNIQUE columns of `sessions` stay unique.
use trust_server.Common.{
  ◌≡◌, refl, sym, subst, Bool, false, not, ◌&&◌, none, List, [], ◌∷◌, ◌++◌, arith, any, modify_all,
  modify_all-absent, is_none, Bool-cases, inl, inr,
}
use trust_server.Common.Sorting.Laws.{Ordered}
use trust_server.Exec.{Result, ok}
use trust_server.Storage.Models.{Uuid, Time, Bytes, Session}
use trust_server.Storage.Tables.{Tables}
use trust_server.Storage.Outside.{SqlError, unique_violation, foreign_key_violation}
use trust_server.Storage.Backend.{check}
use trust_server.Storage.Ensures.{Outcome, Outcome-check}
use trust_server.Storage.Keeps.{KeepsDb, KeepsDb-execute, KeepsDb-stored}
use trust_server.Storage.AuthRepo
use trust_server.Storage.AuthRepo.{
  session_has_id, device_has_id, has_access, has_refresh, clashes, with_tokens, revoked,
  set_revoked, insert_session, update_tokens,
}
use trust_server.Server.Invariant.Parts.{
  dm_conversation-KeepsDb, store_message-KeepsDb, next_seq-KeepsDb, insert_conversation-KeepsDb,
  edit_message-KeepsDb, mark_deleted-KeepsDb,
}
use trust_server.Server.Invariant.Stability.{Parts}
use trust_server.Server.Invariant.Hashes.{
  taken, differ, other_id, append-Ordered, new-differ, new-other_id, modify_all-Ordered,
  rotated-Ordered,
}

abbrev access_of : Session → Bytes
access_of s = s.access_token_hash

abbrev refresh_of : Session → Bytes
refresh_of s = s.refresh_token_hash

-- No two sessions share their id, the hash of their access token or that of their refresh token.
pub record IsUnique (t : Tables) : Type 0 where
  pub ids : Ordered other_id t.sessions
  pub access : Ordered (differ access_of) t.sessions
  pub refresh : Ordered (differ refresh_of) t.sessions

-- it is a property of the sessions alone
IsUnique-kept : (t t' : Tables) → t'.sessions ≡ t.sessions → IsUnique t → IsUnique t'
IsUnique-kept t t' e u = record {
  ids = subst (Ordered other_id) (sym e) u.ids;
  access = subst (Ordered (differ access_of)) (sym e) u.access;
  refresh = subst (Ordered (differ refresh_of)) (sym e) u.refresh;
}

create_session-IsUnique :
    (id device : Uuid) (access refresh : Bytes) (expires : Time)
    → KeepsDb IsUnique (AuthRepo.create_session id device access refresh expires)
unfolding AuthRepo.create_session
create_session-IsUnique id device access refresh expires =
    KeepsDb-stored _ (KeepsDb-execute (insert_session id device access refresh expires) inserted)
  where
    inserted :
        (now : Time) (t : Tables)
        → IsUnique t
        → Outcome (λ _ t'. IsUnique t') (insert_session id device access refresh expires now t)
    inserted now t u =
        let row : Session = record {
          id = id;
          device_id = device;
          access_token_hash = access;
          refresh_token_hash = refresh;
          expires_at = expires;
          revoked_at = none;
          created_at = now;
        } in
        let written : Result SqlError (Session × Tables) =
          ok (row, record t { sessions = t.sessions ++ row ∷ [] }) in
        let there = any (device_has_id device) t.devices in
        Outcome-check (λ _ t'. IsUnique t')
          (not (any (session_has_id id) t.sessions)
            && not (any (has_access access) t.sessions)
            && not (any (has_refresh refresh) t.sessions))
          unique_violation (check there foreign_key_violation written)
          λ new.
            Outcome-check (λ _ t'. IsUnique t') there foreign_key_violation written
              λ _. record {
                ids =
                    append-Ordered other_id t.sessions row
                      (new-other_id row t.sessions (ground arith)) u.ids;
                access =
                    append-Ordered (differ access_of) t.sessions row
                      (new-differ access_of access row t.sessions refl (ground arith)) u.access;
                refresh =
                    append-Ordered (differ refresh_of) t.sessions row
                      (new-differ refresh_of refresh row t.sessions refl (ground arith)) u.refresh;
              }

revoke_session-IsUnique : (id : Uuid) → KeepsDb IsUnique (AuthRepo.revoke_session id)
unfolding AuthRepo.revoke_session
revoke_session-IsUnique id = KeepsDb-stored _ (KeepsDb-execute (set_revoked id) marked)
  where
    marked :
        (now : Time) (t : Tables)
        → IsUnique t
        → Outcome (λ _ t'. IsUnique t') (set_revoked id now t)
    marked now t u =
        let p : Session → Bool = λ s. session_has_id id s && is_none s.revoked_at in
        let f = revoked now in
        record {
          ids = modify_all-Ordered other_id p f (λ x y. refl) (λ x y. refl) t.sessions u.ids;
          access =
              modify_all-Ordered (differ access_of) p f (λ x y. refl) (λ x y. refl) t.sessions
                u.access;
          refresh =
              modify_all-Ordered (differ refresh_of) p f (λ x y. refl) (λ x y. refl) t.sessions
                u.refresh;
        }

module _ (id : Uuid) (access refresh : Bytes) where
  access_free :
      (xs : List Session)
      → any (clashes id access refresh) xs ≡ false
      → any (taken access_of access id) xs ≡ false
  access_free [] h = refl
  access_free (x ∷ xs) h = ground (arith, access_free xs)

  refresh_free :
      (xs : List Session)
      → any (clashes id access refresh) xs ≡ false
      → any (taken refresh_of refresh id) xs ≡ false
  refresh_free [] h = refl
  refresh_free (x ∷ xs) h = ground (arith, refresh_free xs)

rotate_session-IsUnique :
    (id : Uuid) (access refresh : Bytes) (expires : Time)
    → KeepsDb IsUnique (AuthRepo.rotate_session id access refresh expires)
unfolding AuthRepo.rotate_session
rotate_session-IsUnique id access refresh expires =
    KeepsDb-stored _ (KeepsDb-execute (update_tokens id access refresh expires) rotated)
  where
    rotated :
        (now : Time) (t : Tables)
        → IsUnique t
        → Outcome (λ _ t'. IsUnique t') (update_tokens id access refresh expires now t)
    rotated now t u =
        let xs = t.sessions in
        let f = with_tokens access refresh expires in
        let here = any (session_has_id id) xs in
        let clash = any (clashes id access refresh) xs in
        let written : Result SqlError (Unit {0} × Tables) =
          ok (tt, record t { sessions = modify_all (session_has_id id) f xs }) in
        Outcome-check (λ _ t'. IsUnique t') (not (here && clash)) unique_violation written
          λ free. record {
            ids =
                modify_all-Ordered other_id (session_has_id id) f (λ x y. refl) (λ x y. refl) xs
                  u.ids;
            access = elim (Bool-cases here) [
              | inr e ↦ rw (modify_all-absent (session_has_id id) f xs e) u.access
              | inl e ↦
                  rotated-Ordered access_of access id f (λ s. refl) xs u.ids
                    (access_free id access refresh xs (ground arith)) u.access
            ];
            refresh = elim (Bool-cases here) [
              | inr e ↦ rw (modify_all-absent (session_has_id id) f xs e) u.refresh
              | inl e ↦
                  rotated-Ordered refresh_of refresh id f (λ s. refl) xs u.ids
                    (refresh_free id access refresh xs (ground arith)) u.refresh
            ];
          }

-- The sessions keep their unique columns under every query.
pub IsUnique-parts : Parts IsUnique
IsUnique-parts = record {
  accounts = λ x t. IsUnique-kept t _ refl;
  devices = λ x t. IsUnique-kept t _ refl;
  hidden = λ x t. IsUnique-kept t _ refl;
  read = λ x t. IsUnique-kept t _ refl;
  delivered = λ x t. IsUnique-kept t _ refl;
  profiles = λ x t. IsUnique-kept t _ refl;
  blobs = λ x t. IsUnique-kept t _ refl;
  media = λ x t. IsUnique-kept t _ refl;
  create_session = create_session-IsUnique;
  rotate_session = rotate_session-IsUnique;
  revoke_session = revoke_session-IsUnique;
  dm_conversation =
      dm_conversation-KeepsDb (insert_conversation-KeepsDb (λ x t. IsUnique-kept t _ refl))
        (λ x t. IsUnique-kept t _ refl) (λ x t. IsUnique-kept t _ refl);
  store_message =
      store_message-KeepsDb (next_seq-KeepsDb (λ x t. IsUnique-kept t _ refl))
        (λ x t. IsUnique-kept t _ refl);
  edit_message = edit_message-KeepsDb (λ x t. IsUnique-kept t _ refl);
  mark_deleted = mark_deleted-KeepsDb (λ x t. IsUnique-kept t _ refl);
}
