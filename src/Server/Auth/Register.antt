-- ===== src/Server/Auth/Register.antt =====
-- What a registration leaves (`register` of crates/server/src/auth.rs).
use text.Mathlib.TextPositions.{eq_refl}
use trust_server.Common.{
  ℕ, suc, ◌≡◌, refl, String, Bool, true, false, not, ◌&&◌, ◌||◌, none, some, [], ◌∷◌, ◌++◌, arith,
  any, any-find?, find?, find?-append, any-append, Bool-cases, Option-cases, inl, inr, ltb,
}
use trust_server.Common.Text.{is_blank, byte_len}
use trust_server.Exec.{Result-cases, Result, ok, err, map_ok}
use trust_server.Protocol.Rest.{RegisterRequest, AuthSession, TokenPair}
use trust_server.Storage.Models.{Uuid, Bytes, Account, Device}
use trust_server.Storage.AuthRepo
use trust_server.Storage.AuthRepo.{
  account_has_id, account_has_name, device_has_id, session_has_id, has_access, has_refresh,
}
use trust_server.Storage.Backend.{execute}
use trust_server.Server.Error.{AppError}
use trust_server.Server.World.{World}
use trust_server.Server.Auth.Issue.{issue_session-keeps}
use trust_server.Server.Auth.{register, decode_identity, hash_password, issue_session}

abbrev pub account_row : RegisterRequest → String → World → Account
account_row req verifier w = record {
  id = w.backend.outside.random (suc w.backend.calls);
  username = req.username;
  password_verifier = verifier;
  created_at = w.backend.outside.clock (suc (suc w.backend.calls));
}

-- What a registration leaves: an account under its name with the verifier of its password.
pub record IsRegistered (req : RegisterRequest) (s : AuthSession) (verifier : String) (w w' : World)
    : Type 0 where
  pub verifies :
      w.backend.outside.argon2_hash (w.backend.outside.random w.backend.calls) req.password
      ≡ ok verifier
  pub account_id : s.account_id ≡ w.backend.outside.random (suc w.backend.calls)
  pub found :
      find? (account_has_name req.username) w'.backend.tables.accounts
      ≡ some (account_row req verifier w)
  pub outside : w'.backend.outside ≡ w.backend.outside

-- the tests of a registration
abbrev not_valid : RegisterRequest → Bool
not_valid req = is_blank req.username || ltb (byte_len req.password) 8

abbrev name_free : RegisterRequest → World → Bool
name_free req w =
    not (
      any (account_has_id (w.backend.outside.random (suc w.backend.calls)))
        w.backend.tables.accounts)
    && not (any (account_has_name req.username) w.backend.tables.accounts)

abbrev device_taken : World → Bool
device_taken w =
    any (device_has_id (w.backend.outside.random (suc (suc (suc w.backend.calls)))))
      w.backend.tables.devices

-- the registration once the password is hashed
module _ (req : RegisterRequest) (w : World) (verifier : String) (bytes : Bytes) where
  abbrev account : Account
  account = account_row req verifier w

  abbrev device : Device
  device = record {
    id = w.backend.outside.random (suc (suc (suc w.backend.calls)));
    account_id = account.id;
    display_name = req.device.display_name;
    public_identity = bytes;
    created_at = w.backend.outside.clock (suc (suc (suc (suc w.backend.calls))));
    revoked_at = none;
  }

  abbrev stored : World
  stored = record w {
    backend = record w.backend {
      calls = suc (suc (suc (suc (suc w.backend.calls))));
      tables = record w.backend.tables {
        accounts = w.backend.tables.accounts ++ account ∷ [];
        devices = w.backend.tables.devices ++ device ∷ [];
      };
    };
  }

  account_found :
      any (account_has_name req.username) w.backend.tables.accounts ≡ false
      → find? (account_has_name req.username) (w.backend.tables.accounts ++ account ∷ [])
        ≡ some account
  account_found h = ground (
    arith,
    eq_refl req.username,
    find?-append (account_has_name req.username) w.backend.tables.accounts (account ∷ []),
    any-find? (account_has_name req.username) w.backend.tables.accounts,
  )

  account_exists :
      any (account_has_id account.id) (w.backend.tables.accounts ++ account ∷ []) ≡ true
  account_exists =
      ground
        (arith, any-append (account_has_id account.id) w.backend.tables.accounts (account ∷ []))

  abbrev issued : Result AppError TokenPair × World
  issued = issue_session device.id stored

  -- it ends with the issue of a session
  register-issues :
      not_valid req ≡ false
      → w.backend.outside.base64_decode req.device.public_identity ≡ some bytes
      → w.backend.outside.argon2_hash (w.backend.outside.random w.backend.calls) req.password
        ≡ ok verifier
      → name_free req w ≡ true
      → device_taken w ≡ false
      → ((n : ℕ) → w.backend.outside.fault n ≡ false)
      → register req w ≡ (
        map_ok
            (λ tokens.
              (201, record { account_id = account.id; device_id = device.id; tokens = tokens }))
            issued.0,
        issued.1,
      )
  unfolding register decode_identity hash_password AuthRepo.create_account AuthRepo.create_device
      execute
  register-issues c d h n m up = elim (Result-cases issued.0) [
    | inl (x, i) ↦
        rw
          (
            c,
            d,
            h,
            up (suc (suc w.backend.calls)),
            n,
            up (suc (suc (suc (suc w.backend.calls)))),
            m,
            account_exists,
            i,
          )
          refl
    | inr (tokens, i) ↦
        rw
          (
            c,
            d,
            h,
            up (suc (suc w.backend.calls)),
            n,
            up (suc (suc (suc (suc w.backend.calls)))),
            m,
            account_exists,
            i,
          )
          refl
  ]

same_account :
    (r : Result AppError TokenPair) (account device : Uuid) (s : AuthSession)
    → map_ok {E = AppError} {B = ℕ × AuthSession}
        (λ tokens. (201, record { account_id = account; device_id = device; tokens = tokens }))
        r
      ≡ ok (201, s)
    → s.account_id ≡ account
same_account (ok tokens) account device s e = cc
same_account (err x) account device s e = cc

-- what a registration that was accepted has checked
module _ (req : RegisterRequest) (w : World) (s : AuthSession)
    (up : (n : ℕ) → w.backend.outside.fault n ≡ false) (e : (register req w).0 ≡ ok (201, s)) where
  is_valid : not_valid req ≡ false
  unfolding register
  is_valid = elim (Bool-cases (not_valid req)) [ inl c ↦ (let bad = rw c at e in cc) | inr c ↦ c ]

  decoded :
      (bytes : Bytes) × (w.backend.outside.base64_decode req.device.public_identity ≡ some bytes)
  unfolding register decode_identity
  decoded = elim (Option-cases (w.backend.outside.base64_decode req.device.public_identity)) [
    | inl d ↦ let bad = rw (is_valid, d) at e in cc
    | inr found ↦ found
  ]

  hashes :
      (v : String) × (w.backend.outside.argon2_hash
          (w.backend.outside.random w.backend.calls)
          req.password
        ≡ ok v)
  unfolding register decode_identity hash_password
  hashes =
      elim (Result-cases
        (w.backend.outside.argon2_hash (w.backend.outside.random w.backend.calls) req.password)) [
          | inl (x, h) ↦ let bad = rw (is_valid, decoded.1, h) at e in cc
          | inr found ↦ found
        ]

  was_free : name_free req w ≡ true
  unfolding register decode_identity hash_password AuthRepo.create_account execute
  was_free = elim (Bool-cases (name_free req w)) [
    | inl n ↦ n
    | inr n ↦
        let bad = rw (is_valid, decoded.1, hashes.1, up (suc (suc w.backend.calls)), n) at e in cc
  ]

  was_new : device_taken w ≡ false
  unfolding register decode_identity hash_password AuthRepo.create_account AuthRepo.create_device
      execute
  was_new = elim (Bool-cases (device_taken w)) [
    | inr m ↦ m
    | inl m ↦
        let bad =
          rw
            (
              is_valid,
              decoded.1,
              hashes.1,
              up (suc (suc w.backend.calls)),
              was_free,
              up (suc (suc (suc (suc w.backend.calls)))),
              m,
            )
            at e in
        cc
  ]

  pub register-IsRegistered : (v : String) × IsRegistered req s v w (register req w).1
  register-IsRegistered =
      let (bytes, d) = decoded in
      let (v, h) = hashes in
      let ends = register-issues req w v bytes is_valid d h was_free was_new up in
      let (k, ss, kept) = issue_session-keeps (device req w v bytes).id (stored req w v bytes) in
      (
        v,
        rw (ends, kept)
            (record {
              verifies = h;
              account_id = same_account (issued req w v bytes).0 _ _ s (rw ends at e);
              found = account_found req w v bytes (ground (arith, was_free));
              outside = refl;
            }),
      )
