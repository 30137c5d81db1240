-- ===== src/Protocol/Payload.antt =====
-- The JSON values that handlers build by `json!` (crates/server/src). A UUID, a time and an opaque
-- client blob stand for the JSON that they serialise to.
use trust_server.Common.{ℕ, String, Bool, Option, none, some, List, [], ◌∷◌}
use trust_server.Common.Int.{ℤ}

mutual
  pub data Json : Type 0 where
    null : Json
    bool : Bool → Json
    num : ℕ → Json
    int : ℤ → Json
    str : String → Json
    -- a UUID in its hyphenated form
    uuid : ℕ → Json
    -- an instant in RFC 3339
    time : ℕ → Json
    arr : Items → Json
    obj : Fields → Json

  pub data Items : Type 0 where
    nil : Items
    cons : Json → Items → Items

  pub data Fields : Type 0 where
    end : Fields
    field : String → Json → Fields → Fields

abbrev pub array : List Json → Items
array [] = nil
array (j ∷ js) = cons j (array js)

abbrev pub object : List (String × Json) → Fields
object [] = end
object ((k, j) ∷ fs) = field k j (object fs)

-- `json!({ … })`
abbrev pub json : List (String × Json) → Json
json fs = obj (object fs)

-- an `Option` serialises to its value or to `null`
abbrev pub optional : {A : Type 0} → (A → Json) → Option A → Json
optional f none = null
optional f (some a) = f a
