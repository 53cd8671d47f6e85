-- ===== src/Sql/Generator/Fields.antt =====
-- Which model owns a field, and how the field is written: `model_has_plain_field`, `qualify_field`,
-- `field_is_geometry` and `time_dim_expr` of generator.rs.
use graphnight.Base.{
  String, Bool, false, not, ◌&&◌, ◌||◌, Option, none, some, List, [], ◌∷◌, if◌then◌else◌, ◌==◌,
  ◌+s◌, unwrap_or, any, trim, rsplit_once,
}
use graphnight.Core.Models.{Model, Join, Measure, TimeDimension, date_trunc_unit}
use graphnight.Core.Models.Geometry.{is_geometry_column}
use graphnight.Core.Formula.{needs_parse}
use graphnight.Sql.Dialects.{Dialect, quote_ident, date_trunc}
use graphnight.Sql.Generator.{SqlGenerator, model}

is_bare_measure : String → Measure → Bool
is_bare_measure field m = let e = trim m.formula.expression in e == field && not (needs_parse e)

unfoldable pub model_has_plain_field : Model → String → Bool
unfolding is_bare_measure
model_has_plain_field m field =
    not (field == "*")
    && (any (λ d. d.name == field) m.dimensions
        || (any (λ td. td.dimension == field) m.time_dimensions
            || any (is_bare_measure field) m.measures))

abbrev pub join_alias : Join → String
join_alias j = unwrap_or j.alias j.name

module _ (g : SqlGenerator) where
  -- The first join to a registered model that passes a test, with that model.
  pub find_join : (Join → Model → Bool) → List Join → Option (Join × Model)
  find_join p [] = none
  find_join p (j ∷ js) = elim (model g j.model) [
    | none ↦ find_join p js
    | some joined ↦ if p j joined then some (j, joined) else find_join p js
  ]

  abbrev owns : String → Join → Model → Bool
  owns field j joined = model_has_plain_field joined field

  abbrev owns_prefixed : String → String → Join → Model → Bool
  owns_prefixed prefix column j joined =
      (prefix == join_alias j || prefix == j.model) && model_has_plain_field joined column

  -- Where a field is found: under the source's alias, or in a joined model; with the name of the
  -- column there.
  pub data Owner : Type 0 where
    base : String → Owner
    joined : Join → Model → String → Owner
    nobody : Owner

  prefixed_owner : Model → String → Option (String × String) → Owner
  prefixed_owner m base_model_name none = nobody
  prefixed_owner m base_model_name (some (prefix, column)) =
      if prefix == base_model_name
      then base column
      else elim (find_join (owns_prefixed prefix column) m.joins) [
        | some (j, other) ↦ joined j other column
        | none ↦ nobody
      ]

  -- The search that `qualify_field` and `field_is_geometry` both make.
  pub owner_of : Model → String → String → Owner
  unfolding prefixed_owner find_join
  owner_of m base_model_name field =
      if model_has_plain_field m field then base field else elim (find_join (owns field) m.joins) [
        | some (j, other) ↦ joined j other field
        | none ↦ prefixed_owner m base_model_name (rsplit_once 0x2e field)
      ]

  written : Dialect → String → String → Owner → String
  written d field source_alias (base column) = source_alias +s "." +s quote_ident d column
  written d field source_alias (joined j other column) = join_alias j +s "." +s quote_ident d column
  written d field source_alias nobody = source_alias +s "." +s quote_ident d field

  qualified : Dialect → Option Model → String → String → String → String
  qualified d none base_model_name field source_alias = source_alias +s "." +s quote_ident d field
  qualified d (some m) base_model_name field source_alias =
      written d field source_alias (owner_of m base_model_name field)

  unfoldable pub qualify_field : Dialect → String → String → String → String
  unfolding qualified written owner_of
  qualify_field d base_model_name field source_alias =
      if field == "*"
      then "*"
      else qualified d (model g base_model_name) base_model_name field source_alias

  owner_geometry : Model → Owner → Bool
  owner_geometry m (base column) = is_geometry_column m column
  owner_geometry m (joined j other column) = is_geometry_column other column
  owner_geometry m nobody = false

  geometry_in : Option Model → String → String → Bool
  geometry_in none base_model_name field = false
  geometry_in (some m) base_model_name field = owner_geometry m (owner_of m base_model_name field)

  unfoldable pub field_is_geometry : String → String → Bool
  unfolding geometry_in owner_geometry owner_of
  field_is_geometry base_model_name field =
      not (field == "*") && geometry_in (model g base_model_name) base_model_name field

unfoldable pub time_dim_expr : Dialect → TimeDimension → Option String → String
time_dim_expr d td source_alias =
    date_trunc d (date_trunc_unit td.granularity)
      (elim source_alias [ some alias ↦ alias +s "." +s td.dimension | none ↦ td.dimension ])
