-- ===== src/Storage/Files/Edits.antt =====
-- The changes of one map of yaml.rs as values, what they do and what they are meant to do to what is found
-- under each name.
use graphnight.Base.{
  String, Bool, Option, none, some, List, [], ◌∷◌, Result, ok, err, is_some, if◌then◌else◌, ◌==◌,
}
use graphnight.Storage.Backend.{StorageError}
use graphnight.Storage.Table.{Table}
use graphnight.Storage.Locks.{Run, finished, ◌then◌, settled, Cell}
use graphnight.Storage.Files.{Host, Kind, create, update, delete, save}

-- A change: `create_model`, `update_model`, `delete_model` with its test, `save_memory` and the like.
pub data Edit (V : Type 0) : Type 0 where
  make : V → Edit V
  change : String → V → Edit V
  drop : (Option V → Bool) → String → Edit V
  store : V → Edit V

pub data Reply (V : Type 0) : Type 0 where
  value : V → Reply V
  was_there : Bool → Reply V

-- What is found under each name, as the changes are meant.
abbrev pub Found : Type 0 → Type 0
Found V = String → Option V

module _ {V : Type 0} where
  abbrev pub put : String → V → Found V → Found V
  put k v m = λ n. if k == n then some v else m n

  abbrev pub cut : String → Found V → Found V
  cut k m = λ n. if k == n then none else m n

abbrev pub mapped : {E A B : Type 0} → (A → B) → Result E A → Result E B
mapped f (ok a) = ok (f a)
mapped f (err e) = err e

module _ {V : Type 0} (kind : Kind V) where
  abbrev pub meant_reply : Edit V → Found V → Result StorageError (Reply V)
  meant_reply (make v) m =
      mapped value (if is_some (m (kind.name v)) then err (kind.exists (kind.name v)) else ok v)
  meant_reply (change n v) m = mapped value (if is_some (m n) then ok v else err (kind.not_found n))
  meant_reply (drop test n) m = ok (was_there (test (m n)))
  meant_reply (store v) m = ok (value v)

  abbrev pub meant_state : Edit V → Found V → Found V
  meant_state (make v) m = if is_some (m (kind.name v)) then m else put (kind.name v) v m
  meant_state (change n v) m = if is_some (m n) then put n v m else m
  meant_state (drop test n) m = if test (m n) then cut n m else m
  meant_state (store v) m = put (kind.name v) v m

  abbrev pub meant_all : List (Edit V) → Found V → Found V
  meant_all [] m = m
  meant_all (e ∷ es) m = meant_all es (meant_state e m)

  abbrev pub meant_replies : List (Edit V) → Found V → List (Result StorageError (Reply V))
  meant_replies [] m = []
  meant_replies (e ∷ es) m = meant_reply e m ∷ meant_replies es (meant_state e m)

abbrev pub reply : {S A B : Type 0} → (A → B) → Run S A → Run S B
reply f run = run then λ a s. finished (ok (f a)) s

module _ {D V : Type 0} (host : Host D) (path : String) (kind : Kind V) where
  unfoldable pub edit : Edit V → Cell (Table V) D → Run (Cell (Table V) D) (Reply V)
  edit (make v) c = reply value (create host path kind v c)
  edit (change n v) c = reply value (update host path kind n v c)
  edit (drop test n) c = reply was_there (delete host path kind test n c)
  edit (store v) c = reply value (save host path kind v c)

  unfoldable pub edit_all :
      List (Edit V)
      → Cell (Table V) D
      → Run (Cell (Table V) D) (List (Result StorageError (Reply V)))
  edit_all [] c = finished (ok []) c
  edit_all (e ∷ es) c =
      settled (edit e c) (λ r c. edit_all es c then λ rs c. finished (ok (r ∷ rs)) c)
