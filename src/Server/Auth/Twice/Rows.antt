-- ===== src/Server/Auth/Twice/Rows.antt =====
-- Sessions that `rotate_session` (crates/storage/src/auth_repo.rs) has changed once or twice: which
-- hashes are left.
use trust_server.Common.{◌≡◌, refl, false, List, [], ◌∷◌, arith, any, modify_all, bytes_eq}
use trust_server.Storage.Models.{Uuid, Time, Bytes, Session}
use trust_server.Storage.AuthRepo.{session_has_id, has_access, has_refresh, with_tokens, clashes}

module _ (id : Uuid) (a r : Bytes) where
  pub no_clash :
      (xs : List Session)
      → any (has_access a) xs ≡ false
      → any (has_refresh r) xs ≡ false
      → any (clashes id a r) xs ≡ false
  no_clash [] h k = refl
  no_clash (x ∷ xs) h k = ground (arith, no_clash xs)

  -- the row that a rotation changes does not clash with its own id
  pub no_clash-rotated :
      (a' r' : Bytes) (expires : Time) (xs : List Session)
      → any (has_access a) xs ≡ false
      → any (has_refresh r) xs ≡ false
      → any (clashes id a r) (modify_all (session_has_id id) (with_tokens a' r' expires) xs) ≡ false
  no_clash-rotated a' r' expires [] h k = refl
  no_clash-rotated a' r' expires (x ∷ xs) h k = ground (arith, no_clash-rotated a' r' expires xs)

  -- the first pair is gone once the second is written
  pub access_gone :
      (a' r' : Bytes) (e e' : Time) (xs : List Session)
      → any (has_access a) xs ≡ false
      → bytes_eq a' a ≡ false
      → any (has_access a) (
          modify_all
            (session_has_id id)
            (with_tokens a' r' e')
            (modify_all (session_has_id id) (with_tokens a r e) xs))
        ≡ false
  access_gone a' r' e e' [] h n = refl
  access_gone a' r' e e' (x ∷ xs) h n = ground (arith, access_gone a' r' e e' xs)

  pub refresh_gone :
      (a' r' : Bytes) (e e' : Time) (xs : List Session)
      → any (has_refresh r) xs ≡ false
      → bytes_eq r' r ≡ false
      → any (has_refresh r) (
          modify_all
            (session_has_id id)
            (with_tokens a' r' e')
            (modify_all (session_has_id id) (with_tokens a r e) xs))
        ≡ false
  refresh_gone a' r' e e' [] h n = refl
  refresh_gone a' r' e e' (x ∷ xs) h n = ground (arith, refresh_gone a' r' e e' xs)
