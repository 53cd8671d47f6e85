-- ===== src/Sql/Generator/Registry.antt =====
-- The model registry of the generator: what is found after models come and go.
use graphnight.Base.{
  ◌≡◌, refl, String, none, some, List, [], ◌∷◌, if◌then◌else◌, ◌==◌, eq_iff, arith,
}
use graphnight.Core.Models.{Model}
use graphnight.Sql.Generator.{
  SqlGenerator, find_model, insert_model, remove_model, model, register_model, unregister_model,
}

find_model-insert_model :
    (ms : List Model) (m : Model) (key : String)
    → find_model (insert_model ms m) key ≡ (if m.name == key then some m else find_model ms key)
unfolding find_model insert_model
find_model-insert_model [] m key = refl
find_model-insert_model (n ∷ ms) m key = ground (
  arith,
  eq_iff n.name m.name,
  eq_iff n.name key,
  eq_iff m.name key,
  find_model-insert_model ms m key,
)

find_model-remove_model :
    (ms : List Model) (name key : String)
    → find_model (remove_model ms name) key ≡ (if name == key then none else find_model ms key)
unfolding find_model remove_model
find_model-remove_model [] name key = ground arith
find_model-remove_model (n ∷ ms) name key = ground (
  arith,
  eq_iff n.name name,
  eq_iff n.name key,
  eq_iff name key,
  find_model-remove_model ms name key,
)

-- After a model is registered, its name finds it, whatever the name found before, and every other name
-- finds what it found before. After a name is unregistered, it finds nothing, and every other name finds
-- what it found before.
pub model-register_model :
    (g : SqlGenerator) (m : Model) (name key : String)
    → (model (register_model g m) key ≡ (if m.name == key then some m else model g key))
      × (model (unregister_model g name) key ≡ (if name == key then none else model g key))
unfolding model register_model unregister_model
model-register_model g m name key = (
  find_model-insert_model g.model_registry m key,
  find_model-remove_model g.model_registry name key,
)
