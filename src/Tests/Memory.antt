-- ===== src/Tests/Memory.antt =====
-- The theorems about the memories of crates/graphnight-runtime at concrete inputs.
use graphnight.Base.{
  ℕ, ◌≡◌, refl, String, ◌+s◌, Bool, true, Option, none, some, List, [], ◌∷◌, All, keep, Result, ok,
  err,
}
use mathlib.Core.List.{Permᴰ}
use Prim.Native.String
use graphnight.Core.Models.{Value, number}
use graphnight.Runtime.Context.{CallContext, anonymous}
use graphnight.Runtime.Memory.{
  Memory, MemoryRecord, MemoryScope, MemoryKind, Floats, visible_to, from_storage, to_storage,
  from_agent_input,
}
use graphnight.Runtime.Memory.Storage.{from_storage-to_storage}
use graphnight.Runtime.Memory.Scores.{ranked}
use graphnight.Runtime.Memory.Ranking.{ranked-visible_to}

-- Numbers by their texts.
read_number : Value → Option String
read_number (number t) = some t
read_number _ = none

abbrev texts : Floats String
texts = record {
  json = λ f. number f;
  of_json = read_number;
  half = "0.5";
  clamp = λ f. f;
  of_nat = λ n. "1";
  add = λ a b. a +s b;
  mul = λ a b. a;
  div = λ a b. a;
  compare = λ a b. some (String.compare a b);
}

abbrev lesson : MemoryRecord String
lesson = record {
  id = "m1";
  text = "revenue is net of refunds";
  linked_entities = "orders" ∷ [];
  kind = MemoryKind.decision;
  importance = "0.8";
  scope = MemoryScope.tenant "acme";
  description = none;
  created_at = 5;
  updated_at = 7;
}

from_storage-to_storage_example : from_storage texts (to_storage texts lesson) ≡ lesson
unfolding read_number
from_storage-to_storage_example = from_storage-to_storage texts lesson refl

abbrev alice : CallContext
alice = record anonymous { user_id = some "alice"; tenant_id = some "acme" }

abbrev written : MemoryRecord String
written = record {
  id = "m2";
  text = "use net revenue";
  linked_entities = [];
  kind = MemoryKind.fact;
  importance = "0.5";
  scope = MemoryScope.user "alice";
  description = none;
  created_at = 9;
  updated_at = 9;
}

ranked-visible_to_example :
    Permᴰ
      (ranked texts 9 (lesson ∷ written ∷ []) alice (some "net"))
      (keep (λ (m : MemoryRecord String). visible_to m.scope alice) (lesson ∷ written ∷ []))
    × All
        (λ (m : MemoryRecord String). visible_to m.scope alice ≡ true)
        (ranked texts 9 (lesson ∷ written ∷ []) alice (some "net"))
    × (visible_to written.scope alice ≡ true)
unfolding from_agent_input graphnight.Base.trim graphnight.Runtime.Memory.parse_kind
    graphnight.Runtime.Memory.scope_of_caller graphnight.Runtime.Memory.kind_of
    graphnight.Runtime.Suggest.Scalars.lower
ranked-visible_to_example =
    ranked-visible_to texts 9 (lesson ∷ written ∷ []) alice (some "net") " use net revenue " []
      (some "Fact") none none "m2" written refl
