-- ===== src/Server/Json.antt =====
-- What ci-web-server/src/main.rs reads of serde_json's values: members of objects, and strings.
use build_o_tron.Base.{ℕ, String, Bool, Option, none, some, ◌=?◌, if◌then◌else◌}

mutual
  pub data Value : Type 0 where
    null : Value
    boolean : Bool → Value
    number : ℕ → Value
    text : String → Value
    array : Items → Value
    object : Members → Value

  pub data Items : Type 0 where
    nil : Items
    cons : Value → Items → Items

  pub data Members : Type 0 where
    end : Members
    member : String → Value → Members → Members

-- `Value::as_object`, `Value::as_str`
abbrev pub as_object : Value → Option Members
as_object (object m) = some m
as_object null = none
as_object (boolean _) = none
as_object (number _) = none
as_object (text _) = none
as_object (array _) = none

abbrev pub as_str : Value → Option String
as_str (text s) = some s
as_str null = none
as_str (boolean _) = none
as_str (number _) = none
as_str (array _) = none
as_str (object _) = none

-- `Map::get`; a map has a key once.
abbrev pub get : Members → String → Option Value
get end k = none
get (member j v m) k = if j =? k then some v else get m k
