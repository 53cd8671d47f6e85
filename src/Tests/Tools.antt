-- ===== src/Tests/Tools.antt =====
-- The theorems about the catalogue of tools of crates/graphnight-runtime at concrete inputs.
use graphnight.Base.{
  ◌≡◌, refl, ◌⊎◌, is_ok, some, [], ◌∷◌, String, true, false, none, length, ℕ, Result, ok, err,
  if◌then◌else◌,
}
use graphnight.Core.Models.{Value, null, object, end}
use graphnight.Sql.Dialects.{postgres}
use graphnight.Sql.Generator.{new_generator}
use graphnight.Runtime.Agent.{ToolError}
use graphnight.Runtime.Tools.Changes.{
  Change, create_model, create_datasource, Backend, Catalogue, change, admin_error,
}
use graphnight.Runtime.Tools.Changes.Allowed.{Settled, change-HasDone}
use graphnight.Runtime.Context.{CallContext, anonymous}
use graphnight.Runtime.Tools.{new_catalog, with_mutations, get, call, specs, unknown_tool, is_null}
use graphnight.Runtime.Tools.Gate.{IsOpen, call-gate}

-- Every tool answers its arguments and counts the calls.
abbrev echo : String → CallContext → Value → ℕ → Result ToolError Value × ℕ
echo name ctx args w = (ok args, 1)

abbrev message : String → String
message name = "Unknown tool"

call-gate_example :
    ((get new_catalog "delete_model" ≡ none)
      × (call message echo new_catalog anonymous "delete_model" null 0
          ≡ (err (unknown_tool message "delete_model"), 0)))
    ⊎ (IsOpen false (get new_catalog "delete_model") "delete_model"
        × (call message echo new_catalog anonymous "delete_model" null 0
            ≡ echo "delete_model" anonymous (if is_null null then object end else null) 0))
call-gate_example = call-gate message echo new_catalog anonymous "delete_model" null 0 refl

shown : (length (specs new_catalog) ≡ 10) × (length (specs (with_mutations true new_catalog)) ≡ 16)
unfolding specs
shown = (refl, refl)

-- A storage that has no models or datasources and answers what it is given.
abbrev empty_backend : Backend ℕ
empty_backend = record {
  list_models = λ b. (ok [], b);
  get_model = λ name b. (ok none, b);
  create_model = λ m b. (ok m, 1);
  update_model = λ name m b. (ok m, 1);
  delete_model = λ name datasource b. (ok true, 1);
  get_datasource = λ name b. (ok none, b);
  create_datasource = λ d b. (ok d, 1);
  update_datasource = λ name d b. (ok d, 1);
  delete_datasource = λ name b. (ok true, 1);
}

abbrev admin : CallContext
admin = record anonymous { is_admin = true }

abbrev new_orders : Change
new_orders = create_model (record {
  name = "orders";
  datasource = "shop";
  description = none;
  measures = (record { formula = "amount"; aggregation = "SUM"; label = none; format = none }) ∷ [];
  dimensions = [];
  time_dimensions = [];
  base_table = some "public.orders";
  sql = none;
})

abbrev catalogue : Catalogue ℕ
catalogue = record { storage = 0; generator = new_generator postgres }

change-HasDone_example :
    ((admin.is_admin ≡ false)
      × (change empty_backend "denied" admin new_orders catalogue
          ≡ (err (admin_error "denied"), catalogue)))
    ⊎ ((admin.is_admin ≡ true)
        × Settled empty_backend "denied" new_orders catalogue
            (change empty_backend "denied" admin new_orders catalogue))
change-HasDone_example = change-HasDone empty_backend "denied" admin new_orders catalogue

-- A plain connection string is stored, whether or not references to secrets are required.
plain_connection_string :
    is_ok
      (change empty_backend "denied" admin
        (create_datasource (record {
          name = "shop";
          driver = "postgres";
          connection_string = "postgresql://root:secret@db/shop";
          description = none;
          pool_size = none;
        }))
        catalogue).0
    ≡ true
unfolding change graphnight.Runtime.Tools.Changes.◌after◌
plain_connection_string = refl
