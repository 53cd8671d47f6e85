-- ===== src/Sql/Dialects.antt =====
-- crates/graphnight-sql/src/dialects.rs: the four dialects as the constructors of a type, each method
-- of the trait as a function by clauses. Values and statements are in the children.
pub mod Literals
pub mod Statement
pub mod Quoting
pub mod Limits
use graphnight.Base.{
  ℕ, String, Bool, true, false, ◌||◌, Option, none, some, if◌then◌else◌, ◌+s◌, ◌==◌, show,
  replace_char, eq_lowercase, contains_text,
}

pub data Dialect : Type 0 where
  postgres mysql sqlite duckdb : Dialect

unfoldable pub name : Dialect → String
name postgres = "postgres"
name mysql = "mysql"
name sqlite = "sqlite"
name duckdb = "duckdb"

unfoldable pub get_dialect : String → Dialect
get_dialect text =
    let is = λ (w : String). eq_lowercase text w in
    if is "postgres" || is "postgresql" || is "pg"
    then postgres
    else if is "mysql" || is "mariadb"
    then mysql
    else if is "sqlite" || is "sqlite3"
    then sqlite
    else if is "duckdb"
    then duckdb
    else postgres

-- `ident` between two quotes, its own quotes doubled.
abbrev double_quoted : String → String
double_quoted ident = "\"" +s replace_char 0x22 "\"\"" ident +s "\""

unfoldable pub quote_ident : Dialect → String → String
quote_ident mysql ident = "`" +s replace_char b'`' "``" ident +s "`"
quote_ident postgres ident = double_quoted ident
quote_ident sqlite ident = double_quoted ident
quote_ident duckdb ident = double_quoted ident

-- The index counts from 1.
unfoldable pub placeholder : Dialect → ℕ → String
placeholder postgres index = "$" +s show index
placeholder mysql index = "?"
placeholder sqlite index = "?"
placeholder duckdb index = "?"

abbrev ogc_geometry_ctor : String → Bool → String
ogc_geometry_ctor value_sql from_wkt =
    (if from_wkt then "ST_GeomFromText" else "ST_GeomFromGeoJSON")
    +s "(CAST("
    +s value_sql
    +s " AS VARCHAR))"

unfoldable pub spatial_geometry : Dialect → String → Bool → Option String
spatial_geometry postgres value_sql from_wkt = some (ogc_geometry_ctor value_sql from_wkt)
spatial_geometry duckdb value_sql from_wkt = some (ogc_geometry_ctor value_sql from_wkt)
spatial_geometry mysql value_sql from_wkt = none
spatial_geometry sqlite value_sql from_wkt = none

unfoldable pub geometry_as_geojson : Dialect → String → Option String
geometry_as_geojson postgres column_sql = some ("ST_AsGeoJSON(" +s column_sql +s ")")
geometry_as_geojson duckdb column_sql = some ("ST_AsGeoJSON(" +s column_sql +s ")")
geometry_as_geojson mysql column_sql = none
geometry_as_geojson sqlite column_sql = none

mysql_format : String → String
mysql_format unit =
    if unit == "second"
    then "%Y-%m-%d %H:%i:%s"
    else if unit == "minute"
    then "%Y-%m-%d %H:%i:00"
    else if unit == "hour"
    then "%Y-%m-%d %H:00:00"
    else if unit == "day"
    then "%Y-%m-%d"
    else if unit == "week"
    then "%Y-%u"
    else if unit == "month"
    then "%Y-%m"
    else if unit == "quarter"
    then "QUARTER"
    else if unit == "year"
    then "%Y"
    else "%Y-%m-%d"

pub sqlite_format : String → String
sqlite_format unit =
    if unit == "second"
    then "%Y-%m-%d %H:%M:%S"
    else if unit == "minute"
    then "%Y-%m-%d %H:%M:00"
    else if unit == "hour"
    then "%Y-%m-%d %H:00:00"
    else if unit == "day"
    then "%Y-%m-%d"
    else if unit == "week"
    then "%Y-%W"
    else if unit == "month"
    then "%Y-%m"
    else if unit == "quarter"
    then "((CAST(strftime('%m', {}) AS INTEGER) - 1) / 3) + 1"
    else if unit == "year"
    then "%Y"
    else "%Y-%m-%d"

-- `format.replace("{}", column)`, at the one place where the quarter's format has it.
abbrev quarter_of : String → String
quarter_of column = "((CAST(strftime('%m', " +s column +s ") AS INTEGER) - 1) / 3) + 1"

unfoldable pub date_trunc : Dialect → String → String → String
unfolding mysql_format sqlite_format
date_trunc postgres unit column = "DATE_TRUNC('" +s unit +s "', " +s column +s ")"
date_trunc mysql unit column =
    let format = mysql_format unit in
    if format == "QUARTER"
    then "QUARTER(" +s column +s ")"
    else "DATE_FORMAT(" +s column +s ", '" +s format +s "')"
date_trunc sqlite unit column =
    let format = sqlite_format unit in
    if contains_text "quarter" format
    then quarter_of column
    else "strftime('" +s format +s "', " +s column +s ")"
date_trunc duckdb unit column =
    if unit == "day"
    then "CAST(DATE_TRUNC('day', " +s column +s ") AS DATE)"
    else "DATE_TRUNC('" +s unit +s "', " +s column +s ")"

limit_text : Option ℕ → String
limit_text none = ""
limit_text (some lim) = " LIMIT " +s show lim

offset_text : Option ℕ → String
offset_text none = ""
offset_text (some off) = " OFFSET " +s show off

mysql_limit : Option ℕ → Option ℕ → String
mysql_limit (some lim) (some off) = " LIMIT " +s show off +s " OFFSET " +s show lim
mysql_limit (some lim) none = " LIMIT " +s show lim
mysql_limit none (some off) = " LIMIT " +s show 18446744073709551615 +s " OFFSET " +s show off
mysql_limit none none = ""

unfoldable pub limit_offset : Dialect → String → Option ℕ → Option ℕ → String
unfolding limit_text offset_text mysql_limit
limit_offset mysql sql limit offset = sql +s mysql_limit limit offset
limit_offset postgres sql limit offset = sql +s limit_text limit +s offset_text offset
limit_offset sqlite sql limit offset = sql +s limit_text limit +s offset_text offset
limit_offset duckdb sql limit offset = sql +s limit_text limit +s offset_text offset

unfoldable pub current_timestamp : Dialect → String
current_timestamp postgres = "NOW()"
current_timestamp mysql = "NOW()"
current_timestamp sqlite = "datetime('now')"
current_timestamp duckdb = "CURRENT_TIMESTAMP"

unfoldable pub cast : Dialect → String → String → String
cast postgres expr target_type = expr +s "::" +s target_type
cast duckdb expr target_type = expr +s "::" +s target_type
cast mysql expr target_type = "CAST(" +s expr +s " AS " +s target_type +s ")"
cast sqlite expr target_type = "CAST(" +s expr +s " AS " +s target_type +s ")"

unfoldable pub supports_lateral_join : Dialect → Bool
supports_lateral_join postgres = true
supports_lateral_join duckdb = true
supports_lateral_join mysql = false
supports_lateral_join sqlite = false

unfoldable pub array_agg : Dialect → String → String
array_agg postgres expr = "ARRAY_AGG(" +s expr +s ")"
array_agg mysql expr = "JSON_ARRAYAGG(" +s expr +s ")"
array_agg sqlite expr = "JSON_GROUP_ARRAY(" +s expr +s ")"
array_agg duckdb expr = "LIST(" +s expr +s ")"

unfoldable pub json_extract : Dialect → String → String → String
json_extract postgres column path = column +s " ->> '" +s path +s "'"
json_extract mysql column path = "JSON_UNQUOTE(JSON_EXTRACT(" +s column +s ", '$." +s path +s "'))"
json_extract sqlite column path = "JSON_EXTRACT(" +s column +s ", '$." +s path +s "')"
json_extract duckdb column path = column +s "." +s path
