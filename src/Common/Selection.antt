-- ===== src/Common/Selection.antt =====
-- Selections composed with each other, with a projection of the rows and with changes in place.
use mathlib.Core.Path.{◌≡◌, refl}
use mathlib.Core.List.{List, [], ◌∷◌, map}
use mathlib.Core.Bool.{Bool, true, false, ◌&&◌}
use native.Mathlib.Omega.{arith}
use trust_server.Common.Tests.{if◌then◌else◌, Bool-cases}
use mathlib.Core.Logic.{inl, inr}
use trust_server.Common.Lists.{filter, modify_all, any, All}
use mathlib.Core.List.{◌++◌}
use trust_server.Common.Sorting.{insert_by, sort_by}
use trust_server.Common.Sorting.Laws.{count}

module _ {ℓ} {A : Type ℓ} where
  pub filter-filter :
      (p q : A → Bool) (xs : List A) → filter p (filter q xs) ≡ filter (λ x. q x && p x) xs
  filter-filter p q [] = refl
  filter-filter p q (x ∷ xs) = ground (arith, filter-filter p q xs)

  pub filter-ext :
      (p q : A → Bool) (xs : List A) → ((x : A) → p x ≡ q x) → filter p xs ≡ filter q xs
  filter-ext p q [] h = refl
  filter-ext p q (x ∷ xs) h = ground (arith, h x, filter-ext p q xs h)

  -- two changes that do the same to the selected rows
  pub modify_all-selected :
      (p q r : A → Bool) (f : A → A) (xs : List A)
      → ((x : A) → p x ≡ true → q x ≡ r x)
      → modify_all q f (filter p xs) ≡ modify_all r f (filter p xs)
  modify_all-selected p q r f [] h = refl
  modify_all-selected p q r f (x ∷ xs) h = ground (arith, h x, modify_all-selected p q r f xs h)

  -- the rows that a selection keeps are none of those that were changed
  pub filter-modify_all_out :
      (p p' q : A → Bool) (f : A → A) (xs : List A)
      → ((x : A) → p (if q x then f x else x) ≡ p' x)
      → ((x : A) → p' x ≡ true → q x ≡ false)
      → filter p (modify_all q f xs) ≡ filter p' xs
  filter-modify_all_out p p' q f [] h out = refl
  filter-modify_all_out p p' q f (x ∷ xs) h out =
      ground (arith, h x, out x, filter-modify_all_out p p' q f xs h out)

module _ {ℓ κ} {A : Type ℓ} {B : Type κ} where
  pub map-filter :
      (g : A → B) (p : B → Bool) (xs : List A)
      → map g (filter (λ x. p (g x)) xs) ≡ filter p (map g xs)
  map-filter g p [] = refl
  map-filter g p (x ∷ xs) = ground (arith, map-filter g p xs)

  pub map-modify_all :
      (g : A → B) (q : B → Bool) (f : A → A) (f' : B → B) (xs : List A)
      → ((x : A) → g (f x) ≡ f' (g x))
      → map g (modify_all (λ x. q (g x)) f xs) ≡ modify_all q f' (map g xs)
  map-modify_all g q f f' [] h = refl
  map-modify_all g q f f' (x ∷ xs) h = ground (arith, h x, map-modify_all g q f f' xs h)

  pub count-map :
      (g : A → B) (p : B → Bool) (xs : List A) → count p (map g xs) ≡ count (λ x. p (g x)) xs
  count-map g p [] = refl
  count-map g p (x ∷ xs) = ground (arith, count-map g p xs)

module _ {ℓ} {A : Type ℓ} where
  -- what holds of each row, which every test that it passes finds
  pub All-members :
      (P : A → Type 0) (xs : List A)
      → ((x : A) → ((q : A → Bool) → q x ≡ true → any q xs ≡ true) → P x)
      → All P xs
  All-members P [] f = tt
  All-members P (x ∷ xs) f = (
    f x (λ q e. ground arith),
    All-members P xs (λ y h. f y (λ q e. let there = h q e in ground arith)),
  )

  insert_by-last :
      (le : A → A → Bool) (x a : A) (xs : List A)
      → le x a ≡ true
      → insert_by le x (xs ++ a ∷ []) ≡ insert_by le x xs ++ a ∷ []
  insert_by-last le x a [] h = ground arith
  insert_by-last le x a (y ∷ ys) h = ground (arith, insert_by-last le x a ys)

  -- a row that comes after all others is sorted last
  pub sort_by-last :
      (le : A → A → Bool) (a : A) (xs : List A)
      → All (λ x. le x a ≡ true) xs
      → sort_by le (xs ++ a ∷ []) ≡ sort_by le xs ++ a ∷ []
  sort_by-last le a [] h = refl
  sort_by-last le a (x ∷ xs) h =
      rw (sort_by-last le a xs h.1) (insert_by-last le x a (sort_by le xs) h.0)

  -- what holds of the rows that pass a test holds of those selected by it
  pub All-selected :
      (P : A → Type 0) (p : A → Bool) (xs : List A)
      → All (λ x. p x ≡ true → P x) xs
      → All P (filter p xs)
  All-selected P p [] h = tt
  All-selected P p (x ∷ xs) h = elim (Bool-cases (p x)) [
    | inl e ↦ rw e (h.0 e, All-selected P p xs h.1)
    | inr e ↦ rw e (All-selected P p xs h.1)
  ]
