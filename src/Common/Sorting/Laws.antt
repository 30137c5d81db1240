-- ===== src/Common/Sorting/Laws.antt =====
-- Sorted lists: what sorting keeps, and how it goes with selection and with changes in place.
use Prim.Native.Nat.{ℕ}
use mathlib.Core.Path.{◌≡◌, refl}
use mathlib.Core.Logic.{inl, inr}
use mathlib.Core.List.{List, [], ◌∷◌}
use mathlib.Core.Bool.{Bool, true, false, ◌||◌}
use native.Mathlib.Omega.{arith}
use trust_server.Common.Tests.{if◌then◌else◌, Bool-cases, ltb, leb, ◌==◌}
use trust_server.Common.Lists.{length, any, filter, modify_all, All, Fresh, Distinct}
use trust_server.Common.Sorting.{insert_by, sort_by}

abbrev pub count {ℓ} : {A : Type ℓ} → (A → Bool) → List A → ℕ
count p xs = length (filter p xs)

-- each row is before all that follow
abbrev pub Ordered {ℓ} : {A : Type ℓ} → (A → A → Bool) → List A → Type 0
Ordered le [] = Unit
Ordered le (x ∷ xs) = All (λ y. le x y ≡ true) xs × Ordered le xs

-- a total order, as a test
pub record IsOrder {ℓ} {A : Type ℓ} (le : A → A → Bool) : Type ℓ where
  pub total : (x y : A) → le x y ≡ false → le y x ≡ true
  pub trans : (x y z : A) → le x y ≡ true → le y z ≡ true → le x z ≡ true

module _ {ℓ} {A : Type ℓ} (le : A → A → Bool) where
  count-insert_by :
      (p : A → Bool) (a : A) (xs : List A) → count p (insert_by le a xs) ≡ count p (a ∷ xs)
  count-insert_by p a [] = refl
  count-insert_by p a (x ∷ xs) = ground (arith, count-insert_by p a xs)

  -- sorting keeps every row as often as it is there
  pub count-sort_by : (p : A → Bool) (xs : List A) → count p (sort_by le xs) ≡ count p xs
  count-sort_by p [] = refl
  count-sort_by p (x ∷ xs) = ground (arith, count-insert_by p x (sort_by le xs), count-sort_by p xs)

  All-insert_by :
      (P : A → Type 0) (a : A) (xs : List A) → P a → All P xs → All P (insert_by le a xs)
  All-insert_by P a [] h k = (h, tt)
  All-insert_by P a (x ∷ xs) h k = elim (Bool-cases (le a x)) [
    | inl e ↦ rw e (h, k)
    | inr e ↦ rw e (k.0, All-insert_by P a xs h k.1)
  ]

  pub All-sort_by : (P : A → Type 0) (xs : List A) → All P xs → All P (sort_by le xs)
  All-sort_by P [] h = tt
  All-sort_by P (x ∷ xs) h = All-insert_by P x (sort_by le xs) h.0 (All-sort_by P xs h.1)

  All-trans :
      (o : IsOrder le) (a x : A) (xs : List A)
      → le a x ≡ true
      → All (λ y. le x y ≡ true) xs
      → All (λ y. le a y ≡ true) xs
  All-trans o a x [] e h = tt
  All-trans o a x (y ∷ ys) e h = (o.trans a x y e h.0, All-trans o a x ys e h.1)

  insert_by-Ordered :
      (o : IsOrder le) (a : A) (xs : List A) → Ordered le xs → Ordered le (insert_by le a xs)
  insert_by-Ordered o a [] h = (tt, tt)
  insert_by-Ordered o a (x ∷ xs) h = elim (Bool-cases (le a x)) [
    | inl e ↦ rw e ((e, All-trans o a x xs e h.0), h)
    | inr e ↦
        rw e (
          All-insert_by (λ y. le x y ≡ true) a xs (o.total a x e) h.0,
          insert_by-Ordered o a xs h.1,
        )
  ]

  pub sort_by-Ordered : (o : IsOrder le) (xs : List A) → Ordered le (sort_by le xs)
  sort_by-Ordered o [] = tt
  sort_by-Ordered o (x ∷ xs) = insert_by-Ordered o x (sort_by le xs) (sort_by-Ordered o xs)

  insert_by-first :
      (p : A → Bool) (a : A) (xs : List A)
      → All (λ y. le a y ≡ true) xs
      → insert_by le a (filter p xs) ≡ a ∷ filter p xs
  insert_by-first p a [] h = refl
  insert_by-first p a (x ∷ xs) h = ground (arith, h.0, insert_by-first p a xs h.1)

  filter-insert_by :
      (o : IsOrder le) (p : A → Bool) (a : A) (xs : List A)
      → Ordered le xs
      → filter p (insert_by le a xs) ≡ (if p a then insert_by le a (filter p xs) else filter p xs)
  filter-insert_by o p a [] h = refl
  filter-insert_by o p a (x ∷ xs) h = elim (Bool-cases (le a x)) [
    | inl e ↦ ground (arith, insert_by-first p a xs (All-trans o a x xs e h.0))
    | inr e ↦ ground (arith, filter-insert_by o p a xs h.1)
  ]

  -- to select before sorting is to select after it
  pub sort_by-filter :
      (o : IsOrder le) (p : A → Bool) (xs : List A)
      → sort_by le (filter p xs) ≡ filter p (sort_by le xs)
  sort_by-filter o p [] = refl
  sort_by-filter o p (x ∷ xs) =
      ground (
        arith,
        filter-insert_by o p x (sort_by le xs) (sort_by-Ordered o xs),
        sort_by-filter o p xs,
      )

  -- a change that the order does not see
  module _ (q : A → Bool) (f : A → A) (left : (x y : A) → le (f x) y ≡ le x y)
      (right : (x y : A) → le x (f y) ≡ le x y) where
    insert_by-modify_all :
        (a : A) (xs : List A)
        → modify_all q f (insert_by le a xs)
          ≡ insert_by le (if q a then f a else a) (modify_all q f xs)
    insert_by-modify_all a [] = refl
    insert_by-modify_all a (x ∷ xs) =
        ground (arith, left a x, left a (f x), right a x, insert_by-modify_all a xs)

    pub sort_by-modify_all :
        (xs : List A) → sort_by le (modify_all q f xs) ≡ modify_all q f (sort_by le xs)
    sort_by-modify_all [] = refl
    sort_by-modify_all (x ∷ xs) =
        ground (arith, insert_by-modify_all x (sort_by le xs), sort_by-modify_all xs)

  any-insert_by :
      (p : A → Bool) (a : A) (xs : List A) → any p (insert_by le a xs) ≡ (p a || any p xs)
  any-insert_by p a [] = refl
  any-insert_by p a (x ∷ xs) = ground (arith, any-insert_by p a xs)

  any-sort_by : (p : A → Bool) (xs : List A) → any p (sort_by le xs) ≡ any p xs
  any-sort_by p [] = refl
  any-sort_by p (x ∷ xs) = ground (arith, any-insert_by p x (sort_by le xs), any-sort_by p xs)

  Distinct-insert_by :
      (key : A → ℕ) (a : A) (xs : List A)
      → Fresh key (key a) xs
      → Distinct key xs
      → Distinct key (insert_by le a xs)
  Distinct-insert_by key a [] h d = (refl, tt)
  Distinct-insert_by key a (x ∷ xs) h d = elim (Bool-cases (le a x)) [
    | inl e ↦ rw e (h, d)
    | inr e ↦ rw e (
      ground (arith, any-insert_by (λ y. key y == key x) a xs, d.0),
      Distinct-insert_by key a xs (ground arith) d.1,
    )
  ]

  -- sorting keeps the keys distinct
  pub Distinct-sort_by :
      (key : A → ℕ) (xs : List A) → Distinct key xs → Distinct key (sort_by le xs)
  Distinct-sort_by key [] d = tt
  Distinct-sort_by key (x ∷ xs) d =
      Distinct-insert_by key x (sort_by le xs)
        (ground (arith, any-sort_by (λ y. key y == key x) xs, d.0)) (Distinct-sort_by key xs d.1)

module _ {ℓ} {A : Type ℓ} (key : A → ℕ) where
  any-filter : (q p : A → Bool) (xs : List A) → any q xs ≡ false → any q (filter p xs) ≡ false
  any-filter q p [] h = refl
  any-filter q p (x ∷ xs) h = ground (arith, any-filter q p xs)

  pub Distinct-filter : (p : A → Bool) (xs : List A) → Distinct key xs → Distinct key (filter p xs)
  Distinct-filter p [] d = tt
  Distinct-filter p (x ∷ xs) d = elim (Bool-cases (p x)) [
    | inl e ↦ rw e (any-filter (λ y. key y == key x) p xs d.0, Distinct-filter p xs d.1)
    | inr e ↦ rw e (Distinct-filter p xs d.1)
  ]

  All-strict :
      (a : A) (xs : List A)
      → Fresh key (key a) xs
      → All (λ y. leb (key y) (key a) ≡ true) xs
      → All (λ y. ltb (key y) (key a) ≡ true) xs
  All-strict a [] f h = tt
  All-strict a (x ∷ xs) f h = (ground (arith, h.0), All-strict a xs (ground arith) h.1)

  -- falling keys that are distinct fall strictly
  pub Ordered-strict :
      (xs : List A)
      → Distinct key xs
      → Ordered (λ x y. leb (key y) (key x)) xs
      → Ordered (λ x y. ltb (key y) (key x)) xs
  Ordered-strict [] d h = tt
  Ordered-strict (x ∷ xs) d h = (All-strict x xs d.0 h.0, Ordered-strict xs d.1 h.1)
