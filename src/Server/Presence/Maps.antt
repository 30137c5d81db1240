-- ===== src/Server/Presence/Maps.antt =====
-- Laws of the presence maps.
use trust_server.Common.{
  ℕ, ◌+◌, ◌≡◌, refl, none, some, [], ◌∷◌, arith, if◌then◌else◌, ◌==◌, any, is_some, Distinct,
}
use trust_server.Storage.Models.{Uuid}
use trust_server.Server.Presence.{Map, lookup, insert, erase}

-- one entry for each key
abbrev pub HasKeys : Map → Type 0
HasKeys m = Distinct (λ e. e.0) m

Fresh-lookup : (k : Uuid) (m : Map) → any (λ e. e.0 == k) m ≡ is_some (lookup k m)
Fresh-lookup k [] = refl
Fresh-lookup k (e ∷ m) = ground (arith, Fresh-lookup k m)

pub lookup-insert :
    (j k : Uuid) (v : ℕ) (m : Map)
    → lookup j (insert k v m) ≡ (if j == k then some v else lookup j m)
lookup-insert j k v [] = refl
lookup-insert j k v (e ∷ m) = ground (arith, lookup-insert j k v m)

pub insert-HasKeys : (k : Uuid) (v : ℕ) (m : Map) → HasKeys m → HasKeys (insert k v m)
insert-HasKeys k v [] h = (refl, tt)
insert-HasKeys k v (e ∷ m) h = ground (
  arith,
  insert-HasKeys k v m h.1,
  Fresh-lookup e.0 m,
  Fresh-lookup k m,
  Fresh-lookup e.0 (insert k v m),
  lookup-insert e.0 k v m,
)

pub lookup-erase :
    (j k : Uuid) (m : Map)
    → HasKeys m
    → lookup j (erase k m) ≡ (if j == k then none else lookup j m)
lookup-erase j k [] h = ground arith
lookup-erase j k (e ∷ m) h = ground (arith, lookup-erase j k m h.1, Fresh-lookup e.0 m)

pub erase-HasKeys : (k : Uuid) (m : Map) → HasKeys m → HasKeys (erase k m)
erase-HasKeys k [] h = tt
erase-HasKeys k (e ∷ m) h = ground (
  arith,
  erase-HasKeys k m h.1,
  Fresh-lookup e.0 m,
  Fresh-lookup e.0 (erase k m),
  lookup-erase e.0 k m h.1,
)

-- how many keys have a value
abbrev pub keys_with : ℕ → Map → ℕ
keys_with a [] = 0
keys_with a ((k, v) ∷ m) = (if v == a then 1 else 0) + keys_with a m

pub keys_with-insert :
    (a k v : ℕ) (m : Map)
    → lookup k m ≡ none
    → keys_with a (insert k v m) ≡ keys_with a m + (if v == a then 1 else 0)
keys_with-insert a k v [] h = ground arith
keys_with-insert a k v (e ∷ m) h = ground (arith, keys_with-insert a k v m)

pub keys_with-erase :
    (a k v : ℕ) (m : Map)
    → lookup k m ≡ some v
    → keys_with a (erase k m) + (if v == a then 1 else 0) ≡ keys_with a m
keys_with-erase a k v [] h = cc
keys_with-erase a k v (e ∷ m) h = ground (arith, keys_with-erase a k v m)
