-- ===== src/Runtime/Governance/Masking.antt =====
-- What the column masks of a policy leave of a row.
use graphnight.Base.{
  ◌≡◌, refl, ap, ◌∙◌, String, Option, none, some, List, [], ◌∷◌, if◌then◌else◌, if_either, ◌==◌,
  eq_iff, arith,
}
use graphnight.Core.Models.{Value, null, bool, number, string, array, object}
use graphnight.Core.Security.{MaskFn}
use graphnight.Runtime.Context.{Row}
use graphnight.Runtime.Governance.{masked_value, mask_column, mask_row}

-- The value of a column, where the row has it.
pub cell : Row → String → Option Value
cell [] key = none
cell ((column, value) ∷ row) key = if column == key then some value else cell row key

masked_cell : MaskFn → Option Value → Option Value
masked_cell mask_fn none = none
masked_cell mask_fn (some (string val)) = some (string (mask_fn val))
masked_cell mask_fn (some value) = some value

masked_cell-some :
    (mask_fn : MaskFn) (value : Value)
    → masked_cell mask_fn (some value) ≡ some (masked_value mask_fn value)
unfolding masked_cell
masked_cell-some mask_fn null = refl
masked_cell-some mask_fn (bool b) = refl
masked_cell-some mask_fn (number n) = refl
masked_cell-some mask_fn (string s) = refl
masked_cell-some mask_fn (array vs) = refl
masked_cell-some mask_fn (object fs) = refl

-- What is shown of a column: its value with the masks of that column applied to it if it is a string, and
-- with no other.
unfoldable pub shown : List (String × MaskFn) → String → Option Value → Option Value
unfolding masked_cell
shown [] key value = value
shown ((column, mask_fn) ∷ masks) key value =
    shown masks key (if column == key then masked_cell mask_fn value else value)

cell-mask_column :
    (column : String) (mask_fn : MaskFn) (row : Row) (key : String)
    → cell (mask_column column mask_fn row) key
      ≡ (if column == key then masked_cell mask_fn (cell row key) else cell row key)
unfolding cell mask_column masked_cell
cell-mask_column column mask_fn [] key =
    if_either (λ v. none ≡ v) (column == key) (masked_cell mask_fn none) none refl refl
cell-mask_column column mask_fn ((name, value) ∷ row) key = ground (
  arith,
  eq_iff name column,
  eq_iff name key,
  eq_iff column key,
  cell-mask_column column mask_fn row key,
  masked_cell-some mask_fn value,
)

-- A column of a masked row that holds a string shows the string with the masks that the policy has for
-- that column applied to it, one after the other, and with no other; a value of any other kind, a number
-- say, is shown as it is, whatever the masks.
pub cell-mask_row :
    (masks : List (String × MaskFn)) (row : Row) (key : String)
    → cell (mask_row masks row) key ≡ shown masks key (cell row key)
unfolding mask_row shown
cell-mask_row [] row key = refl
cell-mask_row ((column, mask_fn) ∷ masks) row key =
    cell-mask_row masks (mask_column column mask_fn row) key
    ∙ ap (shown masks key) (cell-mask_column column mask_fn row key)
