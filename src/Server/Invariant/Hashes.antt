-- ===== src/Server/Invariant/Hashes.antt =====
-- The UNIQUE columns of `sessions`: what crates/storage/src/auth_repo.rs keeps of them.
use trust_server.Common.{
  ◌≡◌, refl, ◌∙◌, All-append, Bool, true, false, not, ◌&&◌, List, [], ◌∷◌, ◌++◌, arith, any,
  modify_all, modify_all-absent, All, Bool-cases, inl, inr, bytes_eq,
}
use trust_server.Common.Sorting.Laws.{Ordered}
use trust_server.Storage.Models.{Uuid, Bytes, Session}
use trust_server.Storage.AuthRepo.{session_has_id}

bytes_eq_comm : (xs ys : Bytes) → bytes_eq xs ys ≡ bytes_eq ys xs
unfolding bytes_eq
bytes_eq_comm [] [] = refl
bytes_eq_comm [] (y ∷ ys) = refl
bytes_eq_comm (x ∷ xs) [] = refl
bytes_eq_comm (x ∷ xs) (y ∷ ys) = ground (arith, bytes_eq_comm xs ys)

-- two sessions differ in a column
abbrev pub differ : (Session → Bytes) → Session → Session → Bool
differ key x y = not (bytes_eq (key y) (key x))

abbrev pub other_id : Session → Session → Bool
other_id x y = not (session_has_id x.id y)

-- a row with a new value at the end
pub append-Ordered :
    (R : Session → Session → Bool) (xs : List Session) (row : Session)
    → All (λ x. R x row ≡ true) xs
    → Ordered R xs
    → Ordered R (xs ++ row ∷ [])
append-Ordered R [] row n o = (tt, tt)
append-Ordered R (x ∷ xs) row n o =
    (All-append (λ y. R x y ≡ true) xs (row ∷ []) o.0 (n.0, tt), append-Ordered R xs row n.1 o.1)

module _ (key : Session → Bytes) where
  pub new-differ :
      (hash : Bytes) (row : Session) (xs : List Session)
      → key row ≡ hash
      → any (λ s. bytes_eq (key s) hash) xs ≡ false
      → All (λ x. differ key x row ≡ true) xs
  new-differ hash row [] e h = tt
  new-differ hash row (x ∷ xs) e h =
      (rw (e, bytes_eq_comm hash (key x)) (ground arith), new-differ hash row xs e (ground arith))

pub new-other_id :
    (row : Session) (xs : List Session)
    → any (session_has_id row.id) xs ≡ false
    → All (λ x. other_id x row ≡ true) xs
new-other_id row [] h = tt
new-other_id row (x ∷ xs) h = (ground arith, new-other_id row xs (ground arith))

-- a change that the order does not see
module _ (R : Session → Session → Bool) (p : Session → Bool) (f : Session → Session)
    (left : (x y : Session) → R (f x) y ≡ R x y) (right : (x y : Session) → R x (f y) ≡ R x y) where
  modify_all-All :
      (x : Session) (ys : List Session)
      → All (λ y. R x y ≡ true) ys
      → All (λ y. R x y ≡ true) (modify_all p f ys)
  modify_all-All x [] h = tt
  modify_all-All x (y ∷ ys) h = (ground (arith, right x y), modify_all-All x ys h.1)

  head-All :
      (x : Session) (ys : List Session)
      → All (λ y. R x y ≡ true) ys
      → All (λ y. R (f x) y ≡ true) ys
  head-All x [] h = tt
  head-All x (y ∷ ys) h = (left x y ∙ h.0, head-All x ys h.1)

  pub modify_all-Ordered : (xs : List Session) → Ordered R xs → Ordered R (modify_all p f xs)
  modify_all-Ordered [] h = tt
  modify_all-Ordered (x ∷ xs) h = elim (Bool-cases (p x)) [
    | inl e ↦
        rw e (head-All x (modify_all p f xs) (modify_all-All x xs h.0), modify_all-Ordered xs h.1)
    | inr e ↦ rw e (modify_all-All x xs h.0, modify_all-Ordered xs h.1)
  ]

no_other :
    (id : Uuid) (x : Session) (ys : List Session)
    → session_has_id id x ≡ true
    → All (λ y. other_id x y ≡ true) ys
    → any (session_has_id id) ys ≡ false
no_other id x [] e h = refl
no_other id x (y ∷ ys) e h = ground (arith, no_other id x ys)

-- another session has the value
abbrev pub taken : (Session → Bytes) → Bytes → Uuid → Session → Bool
taken key new id s = not (session_has_id id s) && bytes_eq (key s) new

-- the sessions after a rotation
module _ (key : Session → Bytes) (new : Bytes) (id : Uuid) (f : Session → Session)
    (own : (s : Session) → key (f s) ≡ new) where
  rotated-last :
      (x : Session) (ys : List Session)
      → any (session_has_id id) ys ≡ false
      → any (taken key new id) ys ≡ false
      → All (λ y. differ key (f x) y ≡ true) ys
  rotated-last x [] a h = tt
  rotated-last x (y ∷ ys) a h =
      (rw (own x) (ground arith), rotated-last x ys (ground arith) (ground arith))

  rotated-later :
      (x : Session) (ys : List Session)
      → bytes_eq (key x) new ≡ false
      → All (λ y. differ key x y ≡ true) ys
      → All (λ y. differ key x y ≡ true) (modify_all (session_has_id id) f ys)
  rotated-later x [] n h = tt
  rotated-later x (y ∷ ys) n h = elim (Bool-cases (session_has_id id y)) [
    | inl e ↦ rw (e, own y, bytes_eq_comm new (key x), n) (refl, rotated-later x ys n h.1)
    | inr e ↦ rw e (h.0, rotated-later x ys n h.1)
  ]

  pub rotated-Ordered :
      (xs : List Session)
      → Ordered other_id xs
      → any (taken key new id) xs ≡ false
      → Ordered (differ key) xs
      → Ordered (differ key) (modify_all (session_has_id id) f xs)
  rotated-Ordered [] ids h o = tt
  rotated-Ordered (x ∷ xs) ids h o = elim (Bool-cases (session_has_id id x)) [
    | inl e ↦
        let alone = no_other id x xs e ids.0 in
        rw (e, modify_all-absent (session_has_id id) f xs alone)
          (rotated-last x xs alone (ground arith), o.1)
    | inr e ↦
        rw e (rotated-later x xs (ground arith) o.0, rotated-Ordered xs ids.1 (ground arith) o.1)
  ]
