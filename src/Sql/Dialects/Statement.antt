-- ===== src/Sql/Dialects/Statement.antt =====
-- `render_source` and `generate_sql` of the dialects, whose four bodies are the same text.
use graphnight.Base.{
  ℕ, String, code, Option, none, some, List, [], ◌∷◌, map, if◌then◌else◌, ◌+s◌, ◌==◌, ◌=ℕ=◌, ◌&&◌,
  join, trim,
}
use graphnight.Sql.Plan.{LogicalPlan, SelectItem, OrderByItem, JoinClause}
use graphnight.Sql.Dialects.{Dialect, quote_ident, limit_offset}

-- `trim_end_matches(';')`.
trim_end_matches : ℕ → String → String
trim_end_matches k String.[] = ""
trim_end_matches k (String.◌∷◌ c s) =
    let rest = trim_end_matches k s in if code c =ℕ= k && rest == "" then "" else String.◌∷◌ c rest

unfoldable pub render_source : Dialect → LogicalPlan → String
unfolding trim_end_matches
render_source d plan =
    if plan.source_is_sql
    then "(" +s trim_end_matches 0x3b (trim plan.source_table) +s ")"
    else quote_ident d plan.source_table

select_text : Dialect → SelectItem → String
select_text d item = elim item.alias [
  | some alias ↦ item.expression +s " AS " +s quote_ident d alias
  | none ↦ item.expression
]

joins_text : Dialect → List JoinClause → String
joins_text d [] = ""
joins_text d (j ∷ js) =
    " "
    +s j.join_type
    +s " "
    +s quote_ident d j.table
    +s " "
    +s quote_ident d j.alias
    +s " ON "
    +s j.on
    +s " "
    +s joins_text d js

where_text : Option String → String
where_text none = ""
where_text (some clause) = " WHERE " +s clause +s " "

-- A clause that is left out where its list is empty.
list_text : String → List String → String
list_text keyword [] = ""
list_text keyword (x ∷ xs) = keyword +s join ", " (x ∷ xs) +s " "

order_text : OrderByItem → String
order_text item = item.column +s " " +s (if item.descending then "DESC" else "ASC")

unfoldable pub generate_sql : Dialect → LogicalPlan → String
unfolding render_source select_text joins_text where_text list_text order_text
generate_sql d plan = trim (
    limit_offset d
      ("SELECT "
        +s (if plan.distinct then "DISTINCT " else "")
        +s join ", " (map (select_text d) plan.select_items)
        +s " FROM "
        +s render_source d plan
        +s " "
        +s quote_ident d plan.source_alias
        +s " "
        +s joins_text d plan.joins
        +s where_text plan.where_clause
        +s list_text " GROUP BY " plan.group_by
        +s list_text " ORDER BY " (map order_text plan.order_by))
      plan.limit plan.offset)
