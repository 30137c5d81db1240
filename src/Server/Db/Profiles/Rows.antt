-- ===== src/Server/Db/Profiles/Rows.antt =====
-- What `upsert_profile` of crates/server/src/db.rs makes of the rows of `profiles`.
use trust_server.Common.{
  ◌≡◌, refl, sym, ap, ◌∙◌, String, false, Option, none, some, List, [], ◌∷◌, ◌++◌, arith, any,
  find?, modify_all, any-find?, inl, inr, Bool-cases, Option-cases, ◌==◌, ==_refl,
}
use trust_server.Exec.{Result, ok}
use trust_server.Storage.Models.{Uuid}
use trust_server.Storage.Tables.{Profile, Tables}
use trust_server.Storage.Outside.{SqlError}
use trust_server.Storage.Backend.{Backend, execute}
use trust_server.Server.Db.Conversations.{account_exists}
use trust_server.Server.Db.Directory.{profile_of, no_profile, joined}
use trust_server.Server.Db.Profiles.{upsert_row, upsert_profile, with_details}

-- the columns of a row that was or was not found
abbrev columns : Uuid → Option Profile → Profile
columns account none = no_profile account
columns account (some p) = p

module _ (account : Uuid) (name bio : Option String) (avatar : Option Uuid) where
  find?-changed :
      (p : Profile) (ps : List Profile)
      → find? (profile_of account) ps ≡ some p
      → find?
          (profile_of account)
          (modify_all (profile_of account) (with_details name bio avatar) ps)
        ≡ some (with_details name bio avatar p)
  find?-changed p [] h = cc
  find?-changed p (x ∷ ps) h = ground (arith, find?-changed p ps)

  find?-changed_other :
      (other : Uuid) (ps : List Profile)
      → (other == account) ≡ false
      → find? (profile_of other) (modify_all (profile_of account) (with_details name bio avatar) ps)
        ≡ find? (profile_of other) ps
  find?-changed_other other [] n = refl
  find?-changed_other other (x ∷ ps) n = ground (arith, find?-changed_other other ps)

  find?-added :
      (ps : List Profile)
      → find? (profile_of account) ps ≡ none
      → find? (profile_of account) (ps ++ with_details name bio avatar (no_profile account) ∷ [])
        ≡ some (with_details name bio avatar (no_profile account))
  find?-added [] h = ground (arith, ==_refl account)
  find?-added (x ∷ ps) h = ground (arith, find?-added ps)

  find?-added_other :
      (other : Uuid) (ps : List Profile)
      → (other == account) ≡ false
      → find? (profile_of other) (ps ++ with_details name bio avatar (no_profile account) ∷ [])
        ≡ find? (profile_of other) ps
  find?-added_other other [] n = ground arith
  find?-added_other other (x ∷ ps) n = ground (arith, find?-added_other other ps)

  abbrev pub upserted : Tables → Tables
  upserted t = record t {
    profiles =
        upsert_row account (with_details name bio avatar (no_profile account))
          (with_details name bio avatar) t.profiles;
  }

  pub joined-upserted :
      (t : Tables) → joined account (upserted t) ≡ with_details name bio avatar (joined account t)
  joined-upserted t = elim (Option-cases (find? (profile_of account) t.profiles)) [
    | inl f ↦
        rw (any-find?, f)
          (ap (columns account) (find?-added t.profiles f)
            ∙ ap (λ o. with_details name bio avatar (columns account o)) (sym f))
    | inr (p, f) ↦
        rw (any-find?, f)
          (ap (columns account) (find?-changed p t.profiles f)
            ∙ ap (λ o. with_details name bio avatar (columns account o)) (sym f))
  ]

  pub joined-upserted_other :
      (other : Uuid) (t : Tables)
      → (other == account) ≡ false
      → joined other (upserted t) ≡ joined other t
  joined-upserted_other other t n = elim (Bool-cases (any (profile_of account) t.profiles)) [
    | inl a ↦ rw a (ap (columns other) (find?-changed_other other t.profiles n))
    | inr a ↦ rw a (ap (columns other) (find?-added_other other t.profiles n))
  ]

  -- an upsert that returned
  pub upsert_profile-upserted :
      (b b' : Backend) (u : Unit {0})
      → upsert_profile account name bio avatar b ≡ (ok u, b')
      → b'.tables ≡ upserted b.tables
  unfolding upsert_profile execute
  upsert_profile-upserted b b' u e = elim (Bool-cases (b.outside.fault b.calls)) [
    | inl down ↦ let bad = rw down at e in cc
    | inr up ↦ elim (Bool-cases (account_exists account b.tables)) [
      | inl there ↦
          let done = rw (up, there) at e in
          sym (ap (λ (r : Result SqlError (Unit {0}) × Backend). r.1.tables) done)
      | inr gone ↦ let bad = rw (up, gone) at e in cc
    ]
  ]
