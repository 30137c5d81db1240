-- ===== src/Server/Auth/Refresh.antt =====
-- The exchange of a refresh token (`refresh` of crates/server/src/auth.rs, `rotate_session` of
-- crates/storage/src/auth_repo.rs).
use Prim.Native.String.{◌++◌}
use trust_server.Common.{
  suc, ◌≡◌, refl, ap, sym, subst, String, Bool, true, false, not, ◌&&◌, none, some, List, [], ◌∷◌,
  ◌+◌, arith, any, find?, modify_all, Bool-cases, Option-cases, inl, inr, All, bytes_eq,
  bytes_eq→eq,
}
use trust_server.Common.Sorting.Laws.{Ordered}
use trust_server.Exec.{ok, err}
use trust_server.Protocol.Rest.{TokenPair}
use trust_server.Storage.Models.{Uuid, Time, Bytes, Session}
use trust_server.Storage.AuthRepo
use trust_server.Storage.AuthRepo.{
  session_has_id, has_access, has_refresh, live_access, live_refresh, revoked, with_tokens, clashes,
  update_tokens,
}
use trust_server.Storage.Backend.{execute}
use trust_server.Server.Error.{unauthorized}
use trust_server.Server.World.{World}
use trust_server.Server.Auth.{access_ttl, refresh, new_token}

-- the UNIQUE constraint on the refresh hashes of `sessions`
abbrev pub other_refresh : Session → Session → Bool
other_refresh x y = not (has_refresh x.refresh_token_hash y)

no-refresh :
    (x : Session) (hash : Bytes) (xs : List Session)
    → has_refresh hash x ≡ true
    → All (λ y. other_refresh x y ≡ true) xs
    → any (has_refresh hash) xs ≡ false
no-refresh x hash [] e h = refl
no-refresh x hash (y ∷ ys) e h =
    let same = bytes_eq→eq x.refresh_token_hash hash e in
    let out : has_refresh hash y ≡ false =
      subst (λ k. has_refresh k y ≡ false) same (ground (arith, h.0)) in
    ground (arith, no-refresh x hash ys e h.1)

pub dead-refresh :
    (hash : Bytes) (xs : List Session)
    → any (has_refresh hash) xs ≡ false
    → find? (live_refresh hash) xs ≡ none
dead-refresh hash [] h = refl
dead-refresh hash (x ∷ xs) h = ground (arith, dead-refresh hash xs)

rotated-absent :
    (id : Uuid) (a r hash : Bytes) (expires : Time) (xs : List Session)
    → bytes_eq r hash ≡ false
    → any (has_refresh hash) xs ≡ false
    → any (has_refresh hash) (modify_all (session_has_id id) (with_tokens a r expires) xs) ≡ false
rotated-absent id a r hash expires [] n h = refl
rotated-absent id a r hash expires (x ∷ xs) n h =
    ground (arith, rotated-absent id a r hash expires xs)

rotated-dead :
    (a r hash : Bytes) (expires : Time) (s : Session) (xs : List Session)
    → Ordered other_refresh xs
    → bytes_eq r hash ≡ false
    → find? (live_refresh hash) xs ≡ some s
    → find? (live_refresh hash) (modify_all (session_has_id s.id) (with_tokens a r expires) xs)
      ≡ none
rotated-dead a r hash expires s [] u n e = refl
rotated-dead a r hash expires s (x ∷ xs) u n e = elim (Bool-cases (has_refresh hash x)) [
  | inl h ↦
      let alone = no-refresh x hash xs h u.0 in
      let same : x ≡ s = ground (arith, dead-refresh hash xs alone) in
      let rest =
        dead-refresh hash (modify_all (session_has_id s.id) (with_tokens a r expires) xs)
          (rotated-absent s.id a r hash expires xs n alone) in
      rw rest (ground (arith, ap (λ (y : Session). y.id) same))
  | inr h ↦ ground (arith, rotated-dead a r hash expires s xs u.1)
]

refresh-dead :
    (token : String) (w : World) (tokens : TokenPair)
    → Ordered other_refresh w.backend.tables.sessions
    → (refresh (record { refresh_token = token }) w).0 ≡ ok tokens
    → bytes_eq (w.backend.outside.sha256 tokens.refresh_token) (w.backend.outside.sha256 token)
      ≡ false
    → (find?
          (live_refresh (w.backend.outside.sha256 token))
          (refresh (record { refresh_token = token }) w).1.backend.tables.sessions
        ≡ none)
      × ((refresh (record { refresh_token = token }) w).1.backend.outside ≡ w.backend.outside)
unfolding refresh new_token AuthRepo.find_live_session_by_refresh_hash AuthRepo.rotate_session
    execute
refresh-dead token w tokens u e n = elim (Bool-cases (w.backend.outside.fault w.backend.calls)) [
  | inl down ↦ let bad = rw down at e in cc
  | inr up ↦ elim (Option-cases (find? (live_refresh hash) w.backend.tables.sessions)) [
    | inl f ↦ let bad = rw (up, f) at e in cc
    | inr (s, f) ↦
        elim (Bool-cases (w.backend.outside.fault (suc (suc (suc (suc w.backend.calls)))))) [
          | inl down ↦ let bad = rw (up, f, down) at e in cc
          | inr up' ↦
              elim (Bool-cases (
                not (
                  any (session_has_id s.id) w.backend.tables.sessions
                  && any (clashes s.id (a) (r)) w.backend.tables.sessions))) [
                    | inl c ↦
                        let given = rw (up, f, up', c) at e in
                        let same : refresh_token ≡ tokens.refresh_token = cc in
                        rw (up, f, up', c)
                          (
                            rotated-dead a r hash expires s w.backend.tables.sessions u
                                (subst (λ k. bytes_eq (w.backend.outside.sha256 k) hash ≡ false)
                                  (sym same) n)
                                f,
                            refl {a = w.backend.outside},
                          )
                    | inr c ↦ let bad = rw (up, f, up', c) at e in cc
                  ]
        ]
  ]
]
  where
    hash : Bytes
    hash = w.backend.outside.sha256 token

    refresh_token : String
    refresh_token =
        "tkr_"
        ++ w.backend.outside.base64_url (w.backend.outside.random (suc (suc w.backend.calls)))

    a : Bytes
    a =
        w.backend.outside.sha256
          ("tka_" ++ w.backend.outside.base64_url (w.backend.outside.random (suc w.backend.calls)))

    r : Bytes
    r = w.backend.outside.sha256 refresh_token

    expires : Time
    expires = w.backend.outside.clock (suc (suc (suc w.backend.calls))) + access_ttl

-- a refresh token that no session holds is refused
pub refresh-unknown :
    (token : String) (w : World)
    → w.backend.outside.fault w.backend.calls ≡ false
    → find? (live_refresh (w.backend.outside.sha256 token)) w.backend.tables.sessions ≡ none
    → (refresh (record { refresh_token = token }) w).0 ≡ err (unauthorized "invalid refresh token")
unfolding refresh new_token AuthRepo.find_live_session_by_refresh_hash execute
refresh-unknown token w up f = rw (up, f) refl

-- A refresh token that has been exchanged is refused from then on, where no two sessions share a refresh
-- hash and the new token's hash is another.
pub refresh-refresh :
    (token : String) (w : World) (tokens : TokenPair)
    → Ordered other_refresh w.backend.tables.sessions
    → (refresh (record { refresh_token = token }) w).0 ≡ ok tokens
    → bytes_eq (w.backend.outside.sha256 tokens.refresh_token) (w.backend.outside.sha256 token)
      ≡ false
    → w.backend.outside.fault (refresh (record { refresh_token = token }) w).1.backend.calls ≡ false
    → (refresh
        (record { refresh_token = token })
        (refresh (record { refresh_token = token }) w).1).0
      ≡ err (unauthorized "invalid refresh token")
refresh-refresh token w tokens u e n up =
    let (dead, same) = refresh-dead token w tokens u e n in
    refresh-unknown token (refresh (record { refresh_token = token }) w).1 (rw same up)
      (rw same dead)
