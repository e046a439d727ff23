-- ===== src/Json.antt =====
-- Parsed JSON, as `json.loads` returns it: an object's keys stand once each.
use xyzzy.Prelude.{Bool, List, String, [], ite, str, ℕ, ◌∷◌}

mutual
  pub data Json : Type 0 where
    null : Json
    bool : Bool → Json
    number : ℕ → Json
    text : String → Json
    array : Items → Json
    object : Fields → Json

  pub data Items : Type 0 where
    nil : Items
    cons : Json → Items → Items

  pub data Fields : Type 0 where
    end : Fields
    field : String → Json → Fields → Fields

-- `list(parsed)`, of an object
unfoldable pub field_names : Fields → List String
field_names end = []
field_names (field k _ fs) = k ∷ field_names fs

-- `parsed.get(key)`: a missing key reads as `None`.
unfoldable pub get : String → Fields → Json
get key end = null
get key (field k v fs) = ite (str key k) v (get key fs)
