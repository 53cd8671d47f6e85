-- ===== src/Core/Formula/Functions.antt =====
-- The calls of allow-listed functions: `is_allowed_function`, `looks_like_function_call`,
-- `is_numeric_literal` and `parse_function_call` of formula.rs.
pub mod Safety
use Prim.Native.String
use graphnight.Base.{
  ℕ, String, code, Bool, true, false, not, ◌&&◌, ◌||◌, Option, none, some, List, [], ◌∷◌, Result,
  ok, err, ◌>>=◌, ◌==◌, ◌=ℕ=◌, leb, length, if◌then◌else◌, any, all, trim, contains_char, all_chars,
  split_char, split_once, rsplit_once, eq_ignore_ascii_case, is_ascii_digit,
}
use graphnight.Core.Models.{is_plain_identifier}

pub data FunctionArg : Type 0 where
  column number : String → FunctionArg

pub record FunctionCall : Type 0 where
  pub name : String
  pub args : List FunctionArg

-- The refusals, with the text that they quote.
pub data CallError : Type 0 where
  unclosed trailing_text empty_argument : String → CallError
  not_allowed : String → CallError
  bad_argument : String → String → CallError

allowed_functions : List String
allowed_functions =
    "lower" ∷ "upper" ∷ "length" ∷ "char_length" ∷ "trim" ∷ "btrim" ∷ "ltrim" ∷ "rtrim"
    ∷ "substring" ∷ "substr" ∷ "replace" ∷ "concat" ∷ "left" ∷ "right" ∷ "abs" ∷ "round" ∷ "ceil"
    ∷ "ceiling" ∷ "floor" ∷ "trunc" ∷ "sqrt" ∷ "power" ∷ "pow" ∷ "sign" ∷ "mod" ∷ "greatest"
    ∷ "least" ∷ "date_trunc" ∷ "extract" ∷ "date_part" ∷ "to_char" ∷ "age" ∷ "st_area"
    ∷ "st_perimeter" ∷ "st_length" ∷ "st_npoints" ∷ "st_numgeometries" ∷ "st_numinteriorrings"
    ∷ "st_geometrytype" ∷ "st_srid" ∷ "st_isvalid" ∷ "st_isempty" ∷ "st_ismalformed"
    ∷ "st_dimension" ∷ "st_zmflag" ∷ "st_x" ∷ "st_y" ∷ "st_z" ∷ "st_m" ∷ "st_xmin" ∷ "st_xmax"
    ∷ "st_ymin" ∷ "st_ymax" ∷ "st_mindim" ∷ "st_maxdim" ∷ "st_envelope" ∷ "st_expand" ∷ "st_buffer"
    ∷ "st_simplify" ∷ "st_transform" ∷ "st_astext" ∷ "st_aswkt" ∷ "st_asbinary" ∷ "st_asgml"
    ∷ "st_asgeojson" ∷ "st_geohash" ∷ "st_point" ∷ "st_makepoint" ∷ "st_centroid" ∷ "st_contains"
    ∷ "st_within" ∷ "st_intersects" ∷ "st_disjoint" ∷ "st_touches" ∷ "st_overlaps" ∷ "st_crosses"
    ∷ "st_equals" ∷ "st_dwithin" ∷ "st_distance" ∷ "st_distancesphere" ∷ "st_distancewithin"
    ∷ "st_hausdorffdistance" ∷ "st_lineintersects" ∷ "st_linelocatepoint" ∷ "st_linelength"
    ∷ "st_azimuth" ∷ "st_boundingbox" ∷ "st_remap" ∷ []

unfoldable pub is_allowed_function : String → Bool
unfolding allowed_functions
is_allowed_function name = any (λ f. eq_ignore_ascii_case f name) allowed_functions

call_name : Option (String × String) → Bool
call_name none = false
call_name (some (before, body)) =
    let name = trim before in
    not (name == "")
    && (all is_plain_identifier (split_char b'.' name) && not (contains_char 0x20 name))

pub looks_like_function_call : String → Bool
unfolding call_name
looks_like_function_call expr = call_name (split_once b'(' expr)

-- `strip_prefix(['+', '-']).unwrap_or(s)`.
unsigned : String → String
unsigned String.[] = ""
unsigned (String.◌∷◌ c s) = if code c =ℕ= b'+' || code c =ℕ= b'-' then s else String.◌∷◌ c s

-- The text before the first `e` or `E`, and the text behind it.
split_exponent : String → String × Option String
split_exponent String.[] = ("", none)
split_exponent (String.◌∷◌ c s) =
    let (mantissa, exponent) = split_exponent s in
    if code c =ℕ= b'e' || code c =ℕ= b'E' then ("", some s) else (String.◌∷◌ c mantissa, exponent)

digits_ok : String → Bool
digits_ok s = not (s == "") && all_chars is_ascii_digit s

mantissa_ok : List String → Bool
mantissa_ok [] = false
mantissa_ok (int_part ∷ []) = digits_ok int_part
mantissa_ok (int_part ∷ frac_part ∷ []) =
    digits_ok int_part && (frac_part == "" || digits_ok frac_part)
mantissa_ok (int_part ∷ frac_part ∷ extra ∷ more) = false

exponent_ok : Option String → Bool
exponent_ok none = true
exponent_ok (some e) = digits_ok (unsigned e)

pub is_numeric_literal : String → Bool
unfolding unsigned split_exponent digits_ok mantissa_ok exponent_ok
is_numeric_literal s =
    let (mantissa, exponent) = split_exponent (unsigned s) in
    mantissa_ok (split_char b'.' mantissa) && exponent_ok exponent

-- One round of the loop over the arguments.
parse_arg : String → String → Result CallError FunctionArg
parse_arg expr raw =
    let part = trim raw in
    if part == ""
    then err (empty_argument expr)
    else if is_numeric_literal part
    then ok (number part)
    else if leb (length (split_char b'.' part)) 2 && all is_plain_identifier (split_char b'.' part)
    then ok (column part)
    else err (bad_argument part expr)

parse_args : String → List String → Result CallError (List FunctionArg)
parse_args expr [] = ok []
parse_args expr (raw ∷ raws) = do
  arg ← parse_arg expr raw
  args ← parse_args expr raws
  ok (arg ∷ args)

parse_body : String → String → Option (String × String) → Result CallError (Option FunctionCall)
parse_body expr name none = err (unclosed expr)
parse_body expr name (some (args_src, tail)) =
    if not (trim tail == "")
    then err (trailing_text expr)
    else if not (is_allowed_function name)
    then err (not_allowed name)
    else if trim args_src == ""
    then ok (some (record { name = name; args = [] }))
    else do
      args ← parse_args expr (split_char b',' args_src)
      ok (some (record { name = name; args = args }))

parse_opened : String → Option (String × String) → Result CallError (Option FunctionCall)
parse_opened expr none = ok none
parse_opened expr (some (before, body)) = parse_body expr (trim before) (rsplit_once b')' body)

unfoldable pub parse_function_call : String → Result CallError (Option FunctionCall)
unfolding looks_like_function_call is_numeric_literal parse_arg parse_args parse_body parse_opened
parse_function_call text =
    let expr = trim text in
    if not (looks_like_function_call expr)
    then ok none
    else parse_opened expr (split_once b'(' expr)
