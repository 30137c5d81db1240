-- ===== src/Server/Profile/Updated.antt =====
-- What `update_profile` of crates/server/src/profile.rs makes of the profiles.
use trust_server.Common.{
  ◌≡◌, refl, sym, subst, ap, ◌∙◌, String, false, Option, none, [], ◌∷◌, inl, inr, Bool-cases, ◌==◌,
  some, if◌then◌else◌,
}
use trust_server.Common.Text.{is_blank, is_empty}
use trust_server.Exec.{Result, ok, attempt, ◌>>=◌, ◌>>◌}
use trust_server.Protocol.Payload.{Json, json, str, uuid, optional}
use trust_server.Storage.Models.{Uuid}
use trust_server.Storage.Tables.{Profile, Tables}
use trust_server.Storage.Outside.{Outside, SqlError}
use trust_server.Storage.Backend.{Backend, execute}
use trust_server.Server.Error.{AppError}
use trust_server.Server.World.{World, App, query, outside, after_calls}
use trust_server.Server.Headers.{Headers}
use trust_server.Server.Auth.{authed}
use trust_server.Server.Delivery.{envelope, deliver_to_account}
use trust_server.Server.Returns.{bind-ok, query-ok}
use trust_server.Server.Router.Sessions.{authed-calls}
use trust_server.Server.Keeps.{Keeps, keeps_rules}
use trust_server.Server.Keeps.Queries.{keeps_reads}
use trust_server.Server.Keeps.Events.{envelope-Keeps, deliver_to_account-Keeps}
use trust_server.Server.Keeps.Handlers.{profile_json-Keeps, deliver_to_partners-Keeps}
use trust_server.Server.Db.Directory.{conversations_for, username_of, joined}
use trust_server.Server.Db.Profiles as Profiles
use trust_server.Server.Db.Profiles.{with_details}
use trust_server.Server.Db.Profiles.Rows.{
  upserted, joined-upserted, joined-upserted_other, upsert_profile-upserted,
}
use trust_server.Server.Profile.{
  UpdateProfile, updated_text, updated_avatar, update_profile, profile_json, deliver_to_partners,
}

-- a read of a profile that returned
get_profile-joined :
    (account : Uuid) (b b' : Backend) (p : Profile)
    → Profiles.get_profile account b ≡ (ok p, b')
    → (p ≡ joined account b.tables) × (b'.tables ≡ b.tables) × (b'.outside ≡ b.outside)
unfolding Profiles.get_profile execute
get_profile-joined account b b' p e = elim (Bool-cases (b.outside.fault b.calls)) [
  | inl down ↦ let bad = rw down at e in cc
  | inr up ↦
      let done = rw up at e in
      let after = sym (ap (λ (r : Result SqlError Profile × Backend). r.1) done) in
      (cc, rw after refl, rw after refl)
]

-- the part of `update_profile` after its write
abbrev announce : Uuid → App Json
announce me = do
  username ← query (username_of me)
  p ← query (Profiles.get_profile me)
  env ← envelope "profile.update" (
      json (
        ("userId", uuid me)
        ∷ ("username", str username)
        ∷ ("displayName", optional str p.display_name)
        ∷ ("bio", optional str p.bio)
        ∷ ("avatarBlobId", optional uuid p.avatar_blob_id)
        ∷ []))
  convos ← attempt (query (conversations_for me))
  deliver_to_partners env convos
  deliver_to_account me env none
  profile_json me username

announce-Keeps : {P : Tables → Type 0} (me : Uuid) → Keeps P (announce me)
announce-Keeps me =
    search
      (
        keeps_rules, keeps_reads, envelope-Keeps, deliver_to_partners-Keeps,
        deliver_to_account-Keeps, profile_json-Keeps,
      )
      depth 40

-- the write and what follows it
wrote :
    (me : Uuid) (name bio : Option String) (avatar : Option Uuid) (w w' : World) (j : Json)
    → (query (Profiles.upsert_profile me name bio avatar) >> announce me) w ≡ (ok j, w')
    → w'.backend.tables ≡ upserted me name bio avatar w.backend.tables
wrote me name bio avatar w w' j e =
    let (u, w1, e1, r1) =
      bind-ok (query (Profiles.upsert_profile me name bio avatar)) (λ _. announce me) w j w' e in
    let (write, _) = query-ok (Profiles.upsert_profile me name bio avatar) w w1 u e1 in
    let done = upsert_profile-upserted me name bio avatar w.backend w1.backend u write in
    let kept =
      (announce-Keeps {P = λ t. t ≡ upserted me name bio avatar w.backend.tables} me).at w1 done in
    subst
      (λ (r : Result AppError Json × World).
        r.1.backend.tables ≡ upserted me name bio avatar w.backend.tables)
      r1 kept

-- the tables once the fields of a request are written over a row
abbrev merged : UpdateProfile → Uuid → Outside → Profile → Tables → Tables
merged req me o cur t =
    upserted me (updated_text req.display_name cur.display_name) (updated_text req.bio cur.bio)
      (updated_avatar o req.avatar_blob_id cur.avatar_blob_id) t

-- the part after the session check
update_rest :
    (req : UpdateProfile) (me : Uuid) (w w' : World) (j : Json)
    → (do
      cur ← query (Profiles.get_profile me)
      avatar ← outside (λ o. updated_avatar o req.avatar_blob_id cur.avatar_blob_id)
      query (
          Profiles.upsert_profile me
            (updated_text req.display_name cur.display_name)
            (updated_text req.bio cur.bio)
            avatar)
      announce me)
        w
      ≡ (ok j, w')
    → w'.backend.tables
      ≡ merged req me w.backend.outside (joined me w.backend.tables) w.backend.tables
update_rest req me w w' j e =
    let (cur, w1, e1, r1) = bind-ok (query (Profiles.get_profile me)) _ w j w' e in
    let (read, _) = query-ok (Profiles.get_profile me) w w1 cur e1 in
    let (c, t, o) = get_profile-joined me w.backend w1.backend cur read in
    let done =
      wrote me (updated_text req.display_name cur.display_name) (updated_text req.bio cur.bio)
        (updated_avatar w1.backend.outside req.avatar_blob_id cur.avatar_blob_id) w1 w' j r1 in
    done
    ∙ ap (λ x. merged req me x cur w1.backend.tables) o
    ∙ ap (λ x. merged req me w.backend.outside cur x) t
    ∙ ap (λ x. merged req me w.backend.outside x w.backend.tables) c

-- a field of the request over a column: absent leaves it, and a text is cleaned and written
abbrev pub field_over {ℓ} : {A : Type ℓ} → (String → Option A) → Option String → Option A → Option A
field_over clean none current = current
field_over clean (some s) current = clean s

abbrev pub not_blank : String → Option String
not_blank s = if is_blank s then none else some s

abbrev pub not_empty : Outside → String → Option Uuid
not_empty o s = if is_empty s then none else o.parse_uuid s

updated_text-field_over :
    (field current : Option String)
    → updated_text field current ≡ field_over not_blank field current
unfolding updated_text
updated_text-field_over none current = refl
updated_text-field_over (some s) current = refl

updated_avatar-field_over :
    (o : Outside) (field : Option String) (current : Option Uuid)
    → updated_avatar o field current ≡ field_over (not_empty o) field current
unfolding updated_avatar
updated_avatar-field_over o none current = refl
updated_avatar-field_over o (some s) current = refl

-- An update that returns changes the profile of the caller and no other: a field that the request
-- does not name stays, a blank text, an empty avatar and an id that does not parse clear theirs, any
-- other value is written, and the time the caller was last seen stays.
pub update_profile-joined :
    (headers : Headers) (req : UpdateProfile) (w w' : World) (j : Json)
    → update_profile headers req w ≡ (ok j, w')
    → (me dev : Uuid) × ((authed headers w).0 ≡ ok (me, dev))
      × (let cur = joined me w.backend.tables in
          joined me w'.backend.tables ≡ record cur {
            display_name = field_over not_blank req.display_name cur.display_name;
            bio = field_over not_blank req.bio cur.bio;
            avatar_blob_id =
                field_over (not_empty w.backend.outside) req.avatar_blob_id cur.avatar_blob_id;
          })
      × ((other : Uuid)
          → (other == me) ≡ false
          → joined other w'.backend.tables ≡ joined other w.backend.tables)
unfolding update_profile
update_profile-joined headers req w w' j e =
    let (who, w1, e1, r1) = bind-ok (authed headers) _ w j w' e in
    let me = who.0 in
    let (k, same) = authed-calls headers w in
    let there : w1 ≡ after_calls w k =
      sym (ap (λ (r : Result AppError (Uuid × Uuid) × World). r.1) e1) ∙ same in
    let written =
      update_rest req me w1 w' j r1
      ∙ ap
          (λ (x : World).
            merged req me x.backend.outside (joined me x.backend.tables) x.backend.tables)
          there in
    let cur = joined me w.backend.tables in
    let name = updated_text req.display_name cur.display_name in
    let bio = updated_text req.bio cur.bio in
    let avatar = updated_avatar w.backend.outside req.avatar_blob_id cur.avatar_blob_id in
    (
      me,
      who.1,
      ap (λ (r : Result AppError (Uuid × Uuid) × World). r.0) e1,
      ap (joined me) written
          ∙ joined-upserted me name bio avatar w.backend.tables
          ∙ rw
              (
                updated_text-field_over req.display_name cur.display_name,
                updated_text-field_over req.bio cur.bio,
                updated_avatar-field_over,
              )
              refl,
      λ other n.
          ap (joined other) written
          ∙ joined-upserted_other me name bio avatar other w.backend.tables n,
    )
