-- ===== src/Common/Totals.antt =====
-- Counts and other statements of lists that are made of lists: joins of tables.
use Prim.Native.Nat.{ℕ, ◌+◌}
use mathlib.Core.Path.{◌≡◌, refl}
use mathlib.Core.Logic.{inl, inr}
use mathlib.Core.List.{List, [], ◌∷◌, ◌++◌, map}
use mathlib.Core.Bool.{Bool, true}
use native.Mathlib.Omega.{arith}
use trust_server.Common.Tests.{if◌then◌else◌, Bool-cases}
use trust_server.Common.Lists.{
  length-append, any, filter, filter-append, flat_map, All, All-append, All-map,
}
use trust_server.Common.Sorting.Laws.{count, Ordered}

-- the sum of a number for each row
abbrev pub total {ℓ} : {A : Type ℓ} → (A → ℕ) → List A → ℕ
total f [] = 0
total f (x ∷ xs) = f x + total f xs

module _ {A : Type 0} where
  pub total-ext : (f g : A → ℕ) (xs : List A) → ((x : A) → f x ≡ g x) → total f xs ≡ total g xs
  total-ext f g [] h = refl
  total-ext f g (x ∷ xs) h = rw (h x, total-ext f g xs h) refl

  pub total-filter :
      (f : A → ℕ) (q : A → Bool) (xs : List A)
      → total f (filter q xs) ≡ total (λ x. if q x then f x else 0) xs
  total-filter f q [] = refl
  total-filter f q (x ∷ xs) = ground (arith, total-filter f q xs)

  pub count-append : (p : A → Bool) (xs ys : List A) → count p (xs ++ ys) ≡ count p xs + count p ys
  count-append p xs ys = rw (filter-append p xs ys) (length-append (filter p xs) (filter p ys))

  pub any_mono :
      (p q : A → Bool) (xs : List A)
      → ((x : A) → p x ≡ true → q x ≡ true)
      → any p xs ≡ true
      → any q xs ≡ true
  any_mono p q [] h e = e
  any_mono p q (x ∷ xs) h e = ground (arith, h x, any_mono p q xs h)

  pub All-passed :
      (P : A → Type 0) (p : A → Bool) (xs : List A)
      → ((x : A) → p x ≡ true → P x)
      → All P (filter p xs)
  All-passed P p [] h = tt
  All-passed P p (x ∷ xs) h = elim (Bool-cases (p x)) [
    | inl e ↦ rw e (h x e, All-passed P p xs h)
    | inr e ↦ rw e (All-passed P p xs h)
  ]

  pub Ordered-mono :
      (P : A → Type 0) (le le' : A → A → Bool) (xs : List A)
      → ((x y : A) → P x → le x y ≡ true → le' x y ≡ true)
      → All P xs
      → Ordered le xs
      → Ordered le' xs
  Ordered-mono P le le' [] h a o = tt
  Ordered-mono P le le' (x ∷ xs) h a o = (
    All-map (λ y. le x y ≡ true) (λ y. le' x y ≡ true) xs (λ y e. h x y a.0 e) o.0,
    Ordered-mono P le le' xs h a.1 o.1,
  )

module _ {A B : Type 0} where
  pub count-flat_map :
      (p : B → Bool) (f : A → List B) (xs : List A)
      → count p (flat_map f xs) ≡ total (λ x. count p (f x)) xs
  count-flat_map p f [] = refl
  count-flat_map p f (x ∷ xs) = rw (count-append p (f x), count-flat_map p f xs) refl

  pub All-flat_map :
      (P : B → Type 0) (f : A → List B) (xs : List A)
      → All (λ x. All P (f x)) xs
      → All P (flat_map f xs)
  All-flat_map P f [] h = tt
  All-flat_map P f (x ∷ xs) h = All-append P (f x) (flat_map f xs) h.0 (All-flat_map P f xs h.1)

  pub All-mapped :
      (P : B → Type 0) (f : A → B) (xs : List A) → ((x : A) → P (f x)) → All P (map f xs)
  All-mapped P f [] h = tt
  All-mapped P f (x ∷ xs) h = (h x, All-mapped P f xs h)
