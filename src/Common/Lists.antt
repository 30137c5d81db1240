-- ===== src/Common/Lists.antt =====
-- Lists as the tables of a database: search, selection and update by a Boolean test.
use Prim.Native.Nat.{ℕ, zero, suc, ◌+◌, min}
use mathlib.Core.Path.{◌≡◌, refl, subst}
use mathlib.Core.Logic.{inl, inr}
use mathlib.Core.List.{List, [], ◌∷◌, ◌++◌}
use mathlib.Core.Bool.{Bool, true, false, ◌&&◌, ◌||◌}
use mathlib.Core.Option.{Option, none, some}
use mathlib.Core.List.{Sublist, Sublistᴰ}
use native.Mathlib.Omega.{arith}
use trust_server.Common.Tests.{if◌then◌else◌, or_else, is_some, Bool-cases, ◌==◌, ==_iff}

module _ {ℓ} {A : Type ℓ} where
  abbrev pub length : List A → ℕ
  length [] = 0
  length (x ∷ xs) = suc (length xs)

  abbrev pub any : (A → Bool) → List A → Bool
  any p [] = false
  any p (x ∷ xs) = p x || any p xs

  abbrev pub filter : (A → Bool) → List A → List A
  filter p [] = []
  filter p (x ∷ xs) = let rest = filter p xs in if p x then x ∷ rest else rest

  -- the first row that passes the test
  abbrev pub find? : (A → Bool) → List A → Option A
  find? p [] = none
  find? p (x ∷ xs) = let rest = find? p xs in if p x then some x else rest

  -- every row that passes the test is rewritten
  abbrev pub modify_all : (A → Bool) → (A → A) → List A → List A
  modify_all p f [] = []
  modify_all p f (x ∷ xs) = (if p x then f x else x) ∷ modify_all p f xs

  -- only the first row that passes the test is rewritten
  abbrev pub modify_first : (A → Bool) → (A → A) → List A → List A
  modify_first p f [] = []
  modify_first p f (x ∷ xs) = let rest = modify_first p f xs in if p x then f x ∷ xs else x ∷ rest

  abbrev pub take : ℕ → List A → List A
  take zero xs = []
  take (suc n) [] = []
  take (suc n) (x ∷ xs) = x ∷ take n xs

  abbrev pub drop : ℕ → List A → List A
  drop zero xs = xs
  drop (suc n) [] = []
  drop (suc n) (x ∷ xs) = drop n xs

  abbrev pub get_last? : List A → Option A
  get_last? [] = none
  get_last? (x ∷ []) = some x
  get_last? (x ∷ y ∷ xs) = get_last? (y ∷ xs)

module _ {ℓ κ} {A : Type ℓ} where
  abbrev pub All : (A → Type κ) → List A → Type κ
  All P [] = Unit
  All P (x ∷ xs) = P x × All P xs

  pub All-append : (P : A → Type κ) (xs ys : List A) → All P xs → All P ys → All P (xs ++ ys)
  All-append P [] ys hx hy = hy
  All-append P (x ∷ xs) ys hx hy = (hx.0, All-append P xs ys hx.1 hy)

  pub All-map : (P Q : A → Type κ) (xs : List A) → ((x : A) → P x → Q x) → All P xs → All Q xs
  All-map P Q [] f h = tt
  All-map P Q (x ∷ xs) f h = (f x h.0, All-map P Q xs f h.1)

  pub All-filter : (P : A → Type κ) (p : A → Bool) (xs : List A) → All P xs → All P (filter p xs)
  All-filter P p [] h = tt
  All-filter P p (x ∷ xs) h = elim (Bool-cases (p x)) [
    | inl e ↦ rw e (h.0, All-filter P p xs h.1)
    | inr e ↦ rw e (All-filter P p xs h.1)
  ]

  pub All-take : (P : A → Type κ) (n : ℕ) (xs : List A) → All P xs → All P (take n xs)
  All-take P zero xs h = tt
  All-take P (suc n) [] h = tt
  All-take P (suc n) (x ∷ xs) h = (h.0, All-take P n xs h.1)

  -- what the search finds has the property of all rows
  pub All-find? :
      (P : A → Type κ) (p : A → Bool) (xs : List A) {a : A} → All P xs → find? p xs ≡ some a → P a
  All-find? P p [] h e = cc
  All-find? P p (x ∷ xs) {a} h e = elim (Bool-cases (p x)) [
    | inl t ↦ let q : x ≡ a = ground arith in subst P q h.0
    | inr f ↦ All-find? P p xs h.1 (rw f at e)
  ]

module _ {ℓ} {A : Type ℓ} where
  pub length-append : (xs ys : List A) → length (xs ++ ys) ≡ length xs + length ys
  length-append [] ys = omega arith
  length-append (x ∷ xs) ys = omega (arith, length-append xs ys)

  pub length-take : (n : ℕ) (xs : List A) → length (take n xs) ≡ min n (length xs)
  length-take zero xs = omega arith
  length-take (suc n) [] = omega arith
  length-take (suc n) (x ∷ xs) = omega (arith, length-take n xs)

  pub any-append : (p : A → Bool) (xs ys : List A) → any p (xs ++ ys) ≡ (any p xs || any p ys)
  any-append p [] ys = refl
  any-append p (x ∷ xs) ys = ground (arith, any-append p xs ys)

  -- the search fails exactly when no row passes
  pub any-find? : (p : A → Bool) (xs : List A) → any p xs ≡ is_some (find? p xs)
  any-find? p [] = refl
  any-find? p (x ∷ xs) = ground (arith, any-find? p xs)

  pub find?-append :
      (p : A → Bool) (xs ys : List A) → find? p (xs ++ ys) ≡ or_else (find? p xs) (find? p ys)
  find?-append p [] ys = refl
  find?-append p (x ∷ xs) ys = ground (arith, find?-append p xs ys)

  -- what is found passes the test
  pub find?-passes : (p : A → Bool) (xs : List A) {a : A} → find? p xs ≡ some a → p a ≡ true
  find?-passes p [] e = cc
  find?-passes p (x ∷ xs) {a} e = ground (arith, find?-passes p xs {a = a})

  -- a row that passes another test is there
  pub find?-any :
      (p q : A → Bool) (a : A) (xs : List A) → find? p xs ≡ some a → q a ≡ true → any q xs ≡ true
  find?-any p q a [] e h = cc
  find?-any p q a (x ∷ xs) e h = elim (Bool-cases (p x)) [
    | inl t ↦ let first = rw t at e in let same : x ≡ a = cc in rw (same, h) refl
    | inr f ↦ let rest = rw f at e in rw (find?-any p q a xs rest h) (ground arith)
  ]

  pub find?-absent : (p : A → Bool) (xs : List A) → any p xs ≡ false → find? p xs ≡ none
  find?-absent p xs h = ground (arith, any-find? p xs)

  pub find?-present :
      (p : A → Bool) (xs : List A) → any p xs ≡ true → (a : A) × (find? p xs ≡ some a)
  find?-present p xs h = ground (arith, any-find? p xs)

  pub filter-append :
      (p : A → Bool) (xs ys : List A) → filter p (xs ++ ys) ≡ filter p xs ++ filter p ys
  filter-append p [] ys = refl
  filter-append p (x ∷ xs) ys = ground (arith, filter-append p xs ys)

  pub modify_all-absent :
      (p : A → Bool) (f : A → A) (xs : List A) → any p xs ≡ false → modify_all p f xs ≡ xs
  modify_all-absent p f [] h = refl
  modify_all-absent p f (x ∷ xs) h = ground (arith, modify_all-absent p f xs)

  filter-Sublistᴰ : (p : A → Bool) (xs : List A) → Sublistᴰ (filter p xs) xs
  filter-Sublistᴰ p [] = Sublistᴰ.slnil
  filter-Sublistᴰ p (x ∷ xs) = elim (Bool-cases (p x)) [
    | inl e ↦ rw e (Sublistᴰ.cons-cons refl (filter-Sublistᴰ p xs))
    | inr e ↦ rw e (Sublistᴰ.cons (filter-Sublistᴰ p xs))
  ]

  pub filter-Sublist : (p : A → Bool) (xs : List A) → Sublist (filter p xs) xs
  filter-Sublist p xs = ∣ filter-Sublistᴰ p xs ∣₁

-- the rows of a join
abbrev pub flat_map {ℓ κ} : {A : Type ℓ} {B : Type κ} → (A → List B) → List A → List B
flat_map f [] = []
flat_map f (x ∷ xs) = f x ++ flat_map f xs

-- `==` on byte strings
unfoldable pub bytes_eq : List ℕ → List ℕ → Bool
bytes_eq [] [] = true
bytes_eq [] (y ∷ ys) = false
bytes_eq (x ∷ xs) [] = false
bytes_eq (x ∷ xs) (y ∷ ys) = x == y && bytes_eq xs ys

pub bytes_eq→eq : (xs ys : List ℕ) → bytes_eq xs ys ≡ true → xs ≡ ys
unfolding bytes_eq
bytes_eq→eq [] [] h = refl
bytes_eq→eq [] (y ∷ ys) h = cc
bytes_eq→eq (x ∷ xs) [] h = cc
bytes_eq→eq (x ∷ xs) (y ∷ ys) h = ground (arith, bytes_eq→eq xs ys)

pub bytes_eq_refl : (xs : List ℕ) → bytes_eq xs xs ≡ true
unfolding bytes_eq
bytes_eq_refl [] = refl
bytes_eq_refl (x ∷ xs) = ground (arith, bytes_eq_refl xs)

-- Distinct rows by a numeric key.
abbrev pub Fresh {ℓ} : {A : Type ℓ} → (A → ℕ) → ℕ → List A → Type 0
Fresh key k xs = any (λ x. key x == k) xs ≡ false

abbrev pub Distinct {ℓ} : {A : Type ℓ} → (A → ℕ) → List A → Type 0
Distinct key [] = Unit
Distinct key (x ∷ xs) = Fresh key (key x) xs × Distinct key xs

module _ {ℓ} {A : Type ℓ} (key : A → ℕ) (k : ℕ) where
  modify_all-Fresh :
      (q : A → Bool) (f : A → A) (xs : List A)
      → Fresh key k xs
      → modify_all (λ x. key x == k && q x) f xs ≡ xs
  modify_all-Fresh q f [] h = refl
  modify_all-Fresh q f (x ∷ xs) h = ground (arith, modify_all-Fresh q f xs)

  -- with distinct keys, to change the first row with a key is to change every row with it
  pub modify_first-eq-modify_all :
      (q : A → Bool) (f : A → A) (xs : List A)
      → Distinct key xs
      → modify_first (λ x. key x == k) (λ x. if q x then f x else x) xs
        ≡ modify_all (λ x. key x == k && q x) f xs
  modify_first-eq-modify_all q f [] d = refl
  modify_first-eq-modify_all q f (x ∷ xs) d = elim (Bool-cases (key x == k)) [
    | inl e ↦
        let new : Fresh key k xs = subst (λ j. Fresh key j xs) ((==_iff (key x) k).0 e) d.0 in
        ground (arith, modify_all-Fresh q f xs new)
    | inr e ↦ ground (arith, modify_first-eq-modify_all q f xs d.1)
  ]

-- A change of rows that a test does not see.
module _ {ℓ} {A : Type ℓ} (p q : A → Bool) (f : A → A) (same : (x : A) → p (f x) ≡ p x) where
  pub any-modify_all : (xs : List A) → any p (modify_all q f xs) ≡ any p xs
  any-modify_all [] = refl
  any-modify_all (x ∷ xs) = ground (arith, same x, any-modify_all xs)

  pub find?-modify_all :
      (xs : List A)
      → find? p (modify_all q f xs)
        ≡ elim (find? p xs) [ none ↦ none | some x ↦ some (if q x then f x else x) ]
  find?-modify_all [] = refl
  find?-modify_all (x ∷ xs) = ground (arith, same x, find?-modify_all xs)

  -- rows selected by the test are changed in place
  pub filter-modify_all :
      (xs : List A) → filter p (modify_all q f xs) ≡ modify_all q f (filter p xs)
  filter-modify_all [] = refl
  filter-modify_all (x ∷ xs) = ground (arith, same x, filter-modify_all xs)
