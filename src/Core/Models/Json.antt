-- ===== src/Core/Models/Json.antt =====
-- The enum `serde_json::Value` that filters and rows carry. A number is the text that its `to_string`
-- prints; an object has its fields in the order in which the map iterates.
use graphnight.Base.{String, Bool, Option, none, some, List, [], ◌∷◌}

mutual
  pub data Value : Type 0 where
    null : Value
    bool : Bool → Value
    number : String → Value
    string : String → Value
    array : Values → Value
    object : Fields → Value

  pub data Values : Type 0 where
    nil : Values
    cons : Value → Values → Values

  pub data Fields : Type 0 where
    end : Fields
    field : String → Value → Fields → Fields

abbrev pub values : Values → List Value
values nil = []
values (cons v vs) = v ∷ values vs

abbrev pub of_list : List Value → Values
of_list [] = nil
of_list (v ∷ vs) = cons v (of_list vs)

-- `as_array` and `as_str`.
abbrev pub as_array : Value → Option (List Value)
as_array (array vs) = some (values vs)
as_array null = none
as_array (bool b) = none
as_array (number n) = none
as_array (string s) = none
as_array (object fs) = none

abbrev pub as_str : Value → Option String
as_str (string s) = some s
as_str null = none
as_str (bool b) = none
as_str (number n) = none
as_str (array vs) = none
as_str (object fs) = none
