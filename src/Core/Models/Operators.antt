-- ===== src/Core/Models/Operators.antt =====
-- `TimeGranularity`, `JoinType` and `FilterOperator` of models.rs.
use graphnight.Base.{
  String, Bool, true, false, not, ◌||◌, Option, none, some, if◌then◌else◌, Result, ok, err, trim,
  eq_ignore_ascii_case,
}

pub data TimeGranularity : Type 0 where
  second minute hour day week month quarter year : TimeGranularity

unfoldable pub date_trunc_unit : TimeGranularity → String
date_trunc_unit second = "second"
date_trunc_unit minute = "minute"
date_trunc_unit hour = "hour"
date_trunc_unit day = "day"
date_trunc_unit week = "week"
date_trunc_unit month = "month"
date_trunc_unit quarter = "quarter"
date_trunc_unit year = "year"

pub data JoinType : Type 0 where
  inner left right full : JoinType

unfoldable pub sql_keyword : JoinType → String
sql_keyword inner = "INNER JOIN"
sql_keyword left = "LEFT JOIN"
sql_keyword right = "RIGHT JOIN"
sql_keyword full = "FULL JOIN"

pub data FilterOperator : Type 0 where
  eq neq gt gte lt lte like ilike in_list not_in is_null is_not_null : FilterOperator
  between not_between intersects within contains_geometry : FilterOperator

unfoldable pub sql_operator : FilterOperator → Option String
sql_operator eq = some "="
sql_operator neq = some "!="
sql_operator gt = some ">"
sql_operator gte = some ">="
sql_operator lt = some "<"
sql_operator lte = some "<="
sql_operator like = some "LIKE"
sql_operator ilike = some "ILIKE"
sql_operator in_list = some "IN"
sql_operator not_in = some "NOT IN"
sql_operator is_null = some "IS NULL"
sql_operator is_not_null = some "IS NOT NULL"
sql_operator between = some "BETWEEN"
sql_operator not_between = some "NOT BETWEEN"
sql_operator intersects = none
sql_operator within = none
sql_operator contains_geometry = none

unfoldable pub spatial_function : FilterOperator → Option String
spatial_function intersects = some "ST_Intersects"
spatial_function within = some "ST_Within"
spatial_function contains_geometry = some "ST_Contains"
spatial_function _ = none

unfoldable pub is_valueless : FilterOperator → Bool
is_valueless is_null = true
is_valueless is_not_null = true
is_valueless _ = false

unfoldable pub needs_value : FilterOperator → Bool
unfolding is_valueless
needs_value op = not (is_valueless op)

unfoldable pub needs_two_values : FilterOperator → Bool
needs_two_values between = true
needs_two_values not_between = true
needs_two_values _ = false

-- `operator == FilterOperator::In || operator == FilterOperator::NotIn`, as the generator tests.
unfoldable pub is_membership : FilterOperator → Bool
is_membership in_list = true
is_membership not_in = true
is_membership _ = false

-- `FilterOperator::parse_strict`; the error quotes the input.
unfoldable pub parse_strict_operator : String → Result String FilterOperator
parse_strict_operator input =
    let s = trim input in
    let is = λ (w : String). eq_ignore_ascii_case s w in
    if is "eq" || is "=" || is "=="
    then ok eq
    else if is "neq" || is "!=" || is "<>"
    then ok neq
    else if is "gt" || is ">"
    then ok gt
    else if is "gte" || is ">="
    then ok gte
    else if is "lt" || is "<"
    then ok lt
    else if is "lte" || is "<="
    then ok lte
    else if is "like"
    then ok like
    else if is "ilike"
    then ok ilike
    else if is "in"
    then ok in_list
    else if is "not_in" || is "nin"
    then ok not_in
    else if is "is_null" || is "isnull"
    then ok is_null
    else if is "is_not_null" || is "isnotnull"
    then ok is_not_null
    else if is "between"
    then ok between
    else if is "not_between"
    then ok not_between
    else if is "intersects"
    then ok intersects
    else if is "within"
    then ok within
    else if is "contains"
    then ok contains_geometry
    else err input
