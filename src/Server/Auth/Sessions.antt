-- ===== src/Server/Auth/Sessions.antt =====
-- The end of a session (`logout` of crates/server/src/auth.rs, `revoke_session` of
-- crates/storage/src/auth_repo.rs).
use trust_server.Common.{
  suc, ◌≤◌, ◌≡◌, refl, ap, subst, ◌∙◌, String, Bool, true, false, not, ◌&&◌, none, some, List, [],
  ◌∷◌, arith, any, find?, any-modify_all, modify_all, is_none, Bool-cases, Option-cases, inl, inr,
  All, bytes_eq→eq,
}
use trust_server.Common.Sorting.Laws.{Ordered}
use trust_server.Exec.{ok, err}
use trust_server.Storage.Models.{Time, Bytes, Session}
use trust_server.Storage.AuthRepo
use trust_server.Storage.AuthRepo.{
  session_has_id, has_access, has_refresh, live_access, live_refresh, revoked, with_tokens, clashes,
  update_tokens,
}
use trust_server.Storage.Backend.{execute}
use trust_server.Server.Error.{unauthorized}
use trust_server.Server.World.{World}
use trust_server.Server.Headers.{Headers, bearer}
use trust_server.Server.Auth.{logout, authed, authed_device, device_of_token}

-- the UNIQUE constraint on the access hashes of `sessions`
abbrev pub other_access : Session → Session → Bool
other_access x y = not (has_access x.access_token_hash y)

no-access :
    (x : Session) (hash : Bytes) (xs : List Session)
    → has_access hash x ≡ true
    → All (λ y. other_access x y ≡ true) xs
    → any (has_access hash) xs ≡ false
no-access x hash [] e h = refl
no-access x hash (y ∷ ys) e h =
    let same = bytes_eq→eq x.access_token_hash hash e in
    let out : has_access hash y ≡ false =
      subst (λ k. has_access k y ≡ false) same (ground (arith, h.0)) in
    ground (arith, no-access x hash ys e h.1)

pub dead-access :
    (hash : Bytes) (now : Time) (xs : List Session)
    → any (has_access hash) xs ≡ false
    → find? (live_access hash now) xs ≡ none
dead-access hash now [] h = refl
dead-access hash now (x ∷ xs) h = ground (arith, dead-access hash now xs)

-- the session found is dead once it is revoked
revoked-dead :
    (hash : Bytes) (now at later : Time) (s : Session) (xs : List Session)
    → Ordered other_access xs
    → find? (live_access hash now) xs ≡ some s
    → find?
        (live_access hash later)
        (modify_all (λ x. session_has_id s.id x && is_none x.revoked_at) (revoked at) xs)
      ≡ none
revoked-dead hash now at later s [] u e = refl
revoked-dead hash now at later s (x ∷ xs) u e = elim (Bool-cases (has_access hash x)) [
  | inl h ↦
      let alone = no-access x hash xs h u.0 in
      let same : x ≡ s = ground (arith, dead-access hash now xs alone) in
      let q : Session → Bool = λ y. session_has_id s.id y && is_none y.revoked_at in
      let after = any-modify_all (has_access hash) q (revoked at) (λ y. refl) xs in
      let rest = dead-access hash later (modify_all q (revoked at) xs) (after ∙ alone) in
      rw rest (ground (arith, ap (λ (y : Session). y.id) same))
  | inr h ↦ ground (arith, revoked-dead hash now at later s xs u.1)
]

still-dead :
    (hash : Bytes) (now later : Time) (xs : List Session)
    → now ≤ later
    → find? (live_access hash now) xs ≡ none
    → find? (live_access hash later) xs ≡ none
still-dead hash now later [] l e = refl
still-dead hash now later (x ∷ xs) l e = ground (arith, still-dead hash now later xs)

-- a token whose hash no live session has is refused
authed-dead :
    (headers : Headers) (token : String) (w : World)
    → bearer headers ≡ some token
    → w.backend.outside.fault w.backend.calls ≡ false
    → find?
        (live_access (w.backend.outside.sha256 token) (w.backend.outside.clock w.backend.calls))
        w.backend.tables.sessions
      ≡ none
    → (authed headers w).0 ≡ err (unauthorized "invalid or expired token")
unfolding authed authed_device device_of_token AuthRepo.find_live_session_by_access_hash execute
authed-dead headers token w h up e = rw (h, up, e) refl

-- the sessions that a logout leaves
logout-dead :
    (headers : Headers) (token : String) (later : Time) (w : World)
    → bearer headers ≡ some token
    → Ordered other_access w.backend.tables.sessions
    → w.backend.outside.clock w.backend.calls ≤ later
    → (logout headers w).0 ≡ ok 204
    → find?
        (live_access (w.backend.outside.sha256 token) later)
        (logout headers w).1.backend.tables.sessions
      ≡ none
unfolding logout AuthRepo.find_live_session_by_access_hash AuthRepo.revoke_session execute
logout-dead headers token later w h u l e =
    elim (Bool-cases (w.backend.outside.fault w.backend.calls)) [
      | inl down ↦ let bad = rw (h, down) at e in cc
      | inr up ↦ elim (Option-cases (find? (live_access hash now) w.backend.tables.sessions)) [
        | inl none_live ↦
            rw (h, up, none_live) (still-dead hash now later w.backend.tables.sessions l none_live)
        | inr (s, f) ↦ elim (Bool-cases (w.backend.outside.fault (suc w.backend.calls))) [
          | inl down ↦ let bad = rw (h, up, f, down) at e in cc
          | inr up' ↦
              rw (h, up, f, up')
                (revoked-dead hash now (w.backend.outside.clock (suc w.backend.calls)) later s
                  w.backend.tables.sessions u f)
        ]
      ]
    ]
  where
    hash : Bytes
    hash = w.backend.outside.sha256 token

    now : Time
    now = w.backend.outside.clock w.backend.calls

logout-outside :
    (headers : Headers) (w : World) → (logout headers w).1.backend.outside ≡ w.backend.outside
unfolding logout AuthRepo.find_live_session_by_access_hash AuthRepo.revoke_session execute
logout-outside headers w = elim (Option-cases (bearer headers)) [
  | inl h ↦ rw h refl
  | inr (token, h) ↦ elim (Bool-cases (w.backend.outside.fault w.backend.calls)) [
    | inl down ↦ rw (h, down) refl
    | inr up ↦
        elim (Option-cases (
          find?
            (live_access (w.backend.outside.sha256 token) (w.backend.outside.clock w.backend.calls))
            w.backend.tables.sessions)) [
              | inl f ↦ rw (h, up, f) refl
              | inr (s, f) ↦ elim (Bool-cases (w.backend.outside.fault (suc w.backend.calls))) [
                | inl down ↦ rw (h, up, f, down) refl
                | inr up' ↦ rw (h, up, f, up') refl
              ]
            ]
  ]
]

logout-no_token :
    (headers : Headers) (w : World)
    → bearer headers ≡ none
    → (logout headers w).0 ≡ err (unauthorized "missing bearer token")
unfolding logout
logout-no_token headers w h = rw h refl

-- Once a logout has returned, the token of its request opens no session any more, where no two
-- sessions share an access hash and the clock does not run backwards.
pub logout-authed :
    (headers : Headers) (w : World)
    → Ordered other_access w.backend.tables.sessions
    → w.backend.outside.clock w.backend.calls
      ≤ w.backend.outside.clock (logout headers w).1.backend.calls
    → w.backend.outside.fault (logout headers w).1.backend.calls ≡ false
    → (logout headers w).0 ≡ ok 204
    → (authed headers (logout headers w).1).0 ≡ err (unauthorized "invalid or expired token")
logout-authed headers w u l up e = elim (Option-cases (bearer headers)) [
  | inl h ↦ let refused = logout-no_token headers w h in cc
  | inr (token, h) ↦
      authed-dead headers token (logout headers w).1 h (rw (logout-outside headers w) up) (
        rw (logout-outside headers w) (
          logout-dead headers token (w.backend.outside.clock (logout headers w).1.backend.calls) w h
            u l e))
]
