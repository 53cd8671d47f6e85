-- ===== src/Runtime/Memory/Storage.antt =====
-- A memory that is stored and read again, in memory.rs.
use graphnight.Base.{◌≡◌, refl, some}
use graphnight.Core.Models.Geometry.{get_meta}
use graphnight.Runtime.Suggest.Scalars.{lower}
use graphnight.Runtime.Memory.{
  MemoryKind, learning, fact, episode, decision, error, MemoryScope, global, tenant, user, kind_of,
  kind_text, parse_kind, scope_text, scope_meta, scope_of, meta_text, importance_of, MemoryRecord,
  Floats, from_storage, to_storage,
}

kind_of-kind_text : (k : MemoryKind) → parse_kind (some (kind_text k)) ≡ k
unfolding parse_kind kind_of kind_text lower
kind_of-kind_text learning = refl
kind_of-kind_text fact = refl
kind_of-kind_text episode = refl
kind_of-kind_text decision = refl
kind_of-kind_text error = refl

module _ {F : Type 0} (floats : Floats F) where
  stored_scope :
      (r : MemoryRecord F) (s : MemoryScope)
      → r.scope ≡ s
      → (from_storage floats (to_storage floats r)).scope ≡ s
  unfolding from_storage to_storage meta_text scope_of scope_meta get_meta scope_text
  stored_scope r global h = rw h refl
  stored_scope r (tenant t) h = rw h refl
  stored_scope r (user u) h = rw h refl

  stored_importance :
      (r : MemoryRecord F)
      → floats.of_json (floats.json r.importance) ≡ some r.importance
      → (from_storage floats (to_storage floats r)).importance ≡ r.importance
  unfolding from_storage to_storage importance_of get_meta
  stored_importance r h = rw h refl

  -- A record that is stored and read again is the same, if its importance is read back from its JSON
  -- number.
  pub from_storage-to_storage :
      (r : MemoryRecord F)
      → floats.of_json (floats.json r.importance) ≡ some r.importance
      → from_storage floats (to_storage floats r) ≡ r
  unfolding from_storage to_storage meta_text get_meta
  from_storage-to_storage r h = λ i. record r {
    kind = kind_of-kind_text r.kind i;
    importance = stored_importance r h i;
    scope = stored_scope r r.scope refl i;
  }
