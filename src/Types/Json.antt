-- ===== src/Types/Json.antt =====
-- The JSON values of tile/types/tools.py. No code of the program computes with a number in one, so
-- an integer keeps its sign and magnitude, and a float its decimal text.
use piy.Base.{ℕ, Text, Bool, Option, none, some, text_eq, if◌then◌else◌}

mutual
  pub data Json : Type 0 where
    null : Json
    bool : Bool → Json
    int : Bool → ℕ → Json
    float : Text → Json
    str : Text → Json
    arr : Items → Json
    obj : JsonObject → Json

  pub data Items : Type 0 where
    nil : Items
    cons : Json → Items → Items

  -- `dict[str, JsonValue]` in its insertion order.
  pub data JsonObject : Type 0 where
    end : JsonObject
    field : Text → Json → JsonObject → JsonObject

-- data.get(key)
unfoldable pub get : Text → JsonObject → Option Json
get key end = none
get key (field k v o) = if text_eq k key then some v else get key o
