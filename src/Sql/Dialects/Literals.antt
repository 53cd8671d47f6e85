-- ===== src/Sql/Dialects/Literals.antt =====
-- `format_value` of the four dialects, and `MySqlDialect::escape_literal`. The text of an object is
-- printed by serde_json, a parameter.
use graphnight.Base.{String, true, List, [], ◌∷◌, ◌+s◌, join, replace_char}
use graphnight.Core.Models.{Value, null, bool, number, string, array, object, Values, nil, cons}
use graphnight.Sql.Dialects.{Dialect, postgres, mysql, sqlite, duckdb}

-- The backslash first, then the quote.
unfoldable pub escape_literal : String → String
escape_literal s = replace_char 0x27 "''" (replace_char 0x5c "\\\\" s)

-- The text of a string literal in a dialect.
unfoldable pub text_literal : Dialect → String → String
unfolding escape_literal
text_literal mysql s = "'" +s escape_literal s +s "'"
text_literal postgres s = "'" +s replace_char 0x27 "''" s +s "'"
text_literal sqlite s = "'" +s replace_char 0x27 "''" s +s "'"
text_literal duckdb s = "'" +s replace_char 0x27 "''" s +s "'"

bool_literal : Dialect → Value → String
bool_literal sqlite (bool true) = "1"
bool_literal sqlite _ = "0"
bool_literal d (bool true) = "TRUE"
bool_literal d _ = "FALSE"

array_literal : Dialect → List String → String
array_literal postgres items = "ARRAY[" +s join ", " items +s "]"
array_literal mysql items = "JSON_ARRAY(" +s join ", " items +s ")"
array_literal sqlite items = "JSON_GROUP_ARRAY(" +s join "," items +s ")"
array_literal duckdb items = "[" +s join ", " items +s "]"

module _ (to_string : Value → String) where
  unfoldable mutual
    unfolding text_literal bool_literal array_literal

    pub format_value : Dialect → Value → String
    format_value d null = "NULL"
    format_value d (bool b) = bool_literal d (bool b)
    format_value d (number n) = n
    format_value d (string s) = text_literal d s
    format_value d (array vs) = array_literal d (format_values d vs)
    format_value d (object fs) = text_literal d (to_string (object fs))

    pub format_values : Dialect → Values → List String
    format_values d nil = []
    format_values d (cons v vs) = format_value d v ∷ format_values d vs
