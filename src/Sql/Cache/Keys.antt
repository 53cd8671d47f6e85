-- ===== src/Sql/Cache/Keys.antt =====
-- The keys of cache.rs: the FNV-1a hash on 64 bits and the bytes that stand for a query.
use Prim.Native.Nat.{bit_xor}
use graphnight.Base.{
  ℕ, zero, suc, ◌+◌, ◌*◌, ◌/◌, ◌%◌, ◌^◌, code, String, Bool, true, false, Option, none, some, List,
  [], ◌∷◌, ◌++◌, ◌+s◌, if◌then◌else◌, ltb, show,
}
use graphnight.Core.Models.{
  Value, AggregationType, TimeGranularity, FilterOperator, Query, Measure, Dimension, TimeDimension,
  Filter, OrderBy, SourceSpec,
}

-- The bytes of a character and of a text in UTF-8.
char_bytes : ℕ → List ℕ
char_bytes c =
    if ltb c 0x80
    then c ∷ []
    else if ltb c 0x800
    then (0xC0 + c / 64) ∷ (0x80 + c % 64) ∷ []
    else if ltb c 0x10000
    then (0xE0 + c / 4096) ∷ (0x80 + c / 64 % 64) ∷ (0x80 + c % 64) ∷ []
    else (0xF0 + c / 262144) ∷ (0x80 + c / 4096 % 64) ∷ (0x80 + c / 64 % 64) ∷ (0x80 + c % 64) ∷ []

unfoldable pub bytes : String → List ℕ
unfolding char_bytes
bytes String.[] = []
bytes (String.◌∷◌ c s) = char_bytes (code c) ++ bytes s

-- `FxHasher`, which is its 64 bits.
abbrev pub new_hasher : ℕ
new_hasher = 0xcbf29ce484222325

unfoldable pub feed_u8 : ℕ → ℕ → ℕ
feed_u8 hasher i = (bit_xor hasher i * 0x100000001b3) % 2 ^ 64

unfoldable pub feed_bytes : ℕ → List ℕ → ℕ
feed_bytes hasher [] = hasher
feed_bytes hasher (b ∷ bs) = feed_bytes (feed_u8 hasher b) bs

unfoldable pub feed_str : ℕ → String → ℕ
feed_str hasher s = feed_bytes hasher (bytes s)

unfoldable pub feed_parts : ℕ → List String → ℕ
feed_parts hasher [] = hasher
feed_parts hasher (p ∷ ps) = feed_parts (feed_u8 (feed_str hasher p) 0) ps

unfoldable pub hash_key : List String → ℕ
unfolding feed_parts
hash_key parts = feed_parts new_hasher parts

unfoldable pub hash_bytes : List ℕ → ℕ
hash_bytes bs = feed_bytes new_hasher bs

-- The writers return what they append.
write_str : String → List ℕ
write_str s = bytes s ++ (0x1f ∷ [])

write_opt : Option String → List ℕ
write_opt none = 0x1e ∷ []
write_opt (some s) = bytes s ++ (0x1f ∷ [])

write_u8 : ℕ → List ℕ
write_u8 b = b ∷ 0x1f ∷ []

unfoldable pub agg_name : AggregationType → String
agg_name AggregationType.sum = "sum"
agg_name AggregationType.avg = "avg"
agg_name AggregationType.count = "count"
agg_name AggregationType.min = "min"
agg_name AggregationType.max = "max"
agg_name AggregationType.count_distinct = "count_distinct"
agg_name (AggregationType.custom name) = "custom"

unfoldable pub gran_name : TimeGranularity → String
gran_name TimeGranularity.second = "second"
gran_name TimeGranularity.minute = "minute"
gran_name TimeGranularity.hour = "hour"
gran_name TimeGranularity.day = "day"
gran_name TimeGranularity.week = "week"
gran_name TimeGranularity.month = "month"
gran_name TimeGranularity.quarter = "quarter"
gran_name TimeGranularity.year = "year"

unfoldable pub op_name : FilterOperator → String
op_name FilterOperator.eq = "eq"
op_name FilterOperator.neq = "neq"
op_name FilterOperator.gt = "gt"
op_name FilterOperator.gte = "gte"
op_name FilterOperator.lt = "lt"
op_name FilterOperator.lte = "lte"
op_name FilterOperator.like = "like"
op_name FilterOperator.ilike = "ilike"
op_name FilterOperator.in_list = "in"
op_name FilterOperator.not_in = "not_in"
op_name FilterOperator.is_null = "is_null"
op_name FilterOperator.is_not_null = "is_not_null"
op_name FilterOperator.between = "between"
op_name FilterOperator.not_between = "not_between"
op_name FilterOperator.intersects = "intersects"
op_name FilterOperator.within = "within"
op_name FilterOperator.contains_geometry = "contains"

bit : Bool → ℕ
bit true = 1
bit false = 0

bool_text : Bool → String
bool_text true = "true"
bool_text false = "false"

map_option {ℓ κ} : {A : Type ℓ} {B : Type κ} → (A → B) → Option A → Option B
map_option f none = none
map_option f (some a) = some (f a)

and_then {ℓ κ} : {A : Type ℓ} {B : Type κ} → (A → Option B) → Option A → Option B
and_then f none = none
and_then f (some a) = f a

each {ℓ} : {A : Type ℓ} → (A → List ℕ) → List A → List ℕ
each write [] = []
each write (x ∷ xs) = write x ++ each write xs

write_measure : Measure → List ℕ
unfolding write_str write_opt
write_measure m =
    write_str m.formula.expression
    ++ write_opt m.formula.label
    ++ write_opt m.formula.format
    ++ write_str (agg_name m.aggregation)

write_time_dimension : TimeDimension → List ℕ
unfolding write_str write_opt
write_time_dimension td =
    write_str td.dimension ++ write_str (gran_name td.granularity) ++ write_opt td.label

write_filter : (Value → String) → Filter → List ℕ
unfolding write_str write_u8 bit
write_filter to_string f =
    write_str f.field
    ++ write_str (op_name f.operator)
    ++ write_str (to_string f.value)
    ++ write_u8 (bit f.or_condition)

-- `canonical_query_bytes`; the text of a JSON value is an argument.
unfoldable pub canonical_query_bytes : (Value → String) → Query → List ℕ
unfolding write_str write_opt write_u8 write_measure write_time_dimension write_filter bit bool_text
    map_option and_then each
canonical_query_bytes to_string query =
    write_opt query.name
    ++ write_opt (map_option (λ (s : SourceSpec). s.model) query.source_model)
    ++ write_opt (and_then (λ (s : SourceSpec). s.alias) query.source_model)
    ++ write_opt (and_then (λ (s : SourceSpec). s.datasource) query.source_model)
    ++ each write_measure query.measures
    ++ each (λ (d : Dimension). write_str d.name ++ write_opt d.label) query.dimensions
    ++ each write_time_dimension query.time_dimensions
    ++ each (write_filter to_string) query.filters
    ++ each (λ (o : OrderBy). write_str o.field ++ write_u8 (bit o.descending)) query.order
    ++ write_opt (map_option show query.limit)
    ++ write_opt (map_option show query.offset)
    ++ write_opt (map_option bool_text query.whole_periods_only)
    ++ write_opt (map_option bool_text query.distinct_dimension_values)
    ++ write_opt query.stage_ref

-- The text from a character on, cut to that character.
one_from : ℕ → String → String
one_from n String.[] = ""
one_from zero (String.◌∷◌ c s) = String.◌∷◌ c String.[]
one_from (suc n) (String.◌∷◌ c s) = one_from n s

hex_digits : ℕ → ℕ → String → String
unfolding one_from
hex_digits zero n out = out
hex_digits (suc k) n out = hex_digits k (n / 16) (one_from (n % 16) "0123456789abcdef" +s out)

-- `{:016x}` of a 64-bit number.
unfoldable pub hex16 : ℕ → String
unfolding hex_digits
hex16 n = hex_digits 16 n ""
