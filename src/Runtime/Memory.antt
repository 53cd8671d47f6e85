-- ===== src/Runtime/Memory.antt =====
-- crates/graphnight-runtime/src/memory.rs: the typed memories of an agent over the rows of the storage. A
-- time is a number of milliseconds; the type of floating-point numbers and its operations are a
-- parameter, and so are a new identifier and the time of a call.
pub mod Scores
pub mod Ranking
pub mod Storage
use Prim.Native.Nat.{Ordering}
use graphnight.Base.{
  ℕ, ◌+◌, ◌-◌, ◌/◌, Char, code, String, Bool, true, false, not, Option, none, some, List, [], ◌∷◌,
  map, keep, length, Result, ok, err, ◌+s◌, ◌==◌, if◌then◌else◌, trim, join, unwrap_or,
  contains_text, is_whitespace, prepend,
}
use graphnight.Core.Models.{Value, string, as_str}
use graphnight.Core.Models.Geometry.{get_meta}
use graphnight.Runtime.Errors.{ServiceError, empty_memory}
use graphnight.Runtime.Context.{CallContext}
use graphnight.Runtime.Suggest.Scalars.{lower}

pub data MemoryKind : Type 0 where
  learning fact episode decision error : MemoryKind

unfoldable pub kind_of : String → MemoryKind
kind_of s =
    if s == "fact"
    then fact
    else if s == "episode"
    then episode
    else if s == "decision"
    then decision
    else if s == "error"
    then error
    else learning

unfoldable pub parse_kind : Option String → MemoryKind
parse_kind s = kind_of (lower (unwrap_or s ""))

unfoldable pub kind_text : MemoryKind → String
kind_text learning = "learning"
kind_text fact = "fact"
kind_text episode = "episode"
kind_text decision = "decision"
kind_text error = "error"

pub data MemoryScope : Type 0 where
  global : MemoryScope
  tenant user : String → MemoryScope

unfoldable pub scope_text : MemoryScope → String
scope_text global = "global"
scope_text (tenant t) = "tenant"
scope_text (user u) = "user"

-- `o.as_deref() == Some(s)`.
abbrev pub is_named : Option String → String → Bool
is_named none s = false
is_named (some t) s = t == s

unfoldable pub visible_to : MemoryScope → CallContext → Bool
visible_to global ctx = true
visible_to (tenant t) ctx = is_named ctx.tenant_id t
visible_to (user u) ctx = is_named ctx.user_id u

-- The row of the storage.
pub record Memory : Type 0 where
  pub id : String
  pub learning : String
  pub linked_entities : List String
  pub description : Option String
  pub created_at : ℕ
  pub updated_at : ℕ
  pub meta : List (String × Value)

pub record MemoryRecord (F : Type 0) : Type 0 where
  pub id : String
  pub text : String
  pub linked_entities : List String
  pub kind : MemoryKind
  pub importance : F
  pub scope : MemoryScope
  pub description : Option String
  pub created_at : ℕ
  pub updated_at : ℕ

-- The floating-point numbers: `of_json` is `as_f64` and the cast, `compare` is `partial_cmp`.
pub record Floats (F : Type 0) : Type 0 where
  pub json : F → Value
  pub of_json : Value → Option F
  pub half : F
  pub clamp : F → F
  pub of_nat : ℕ → F
  pub add : F → F → F
  pub mul : F → F → F
  pub div : F → F → F
  pub compare : F → F → Option Ordering

meta_text : String → List (String × Value) → Option String
meta_text key m = elim (get_meta key m) [ none ↦ none | some v ↦ as_str v ]

scope_of : Option String → String → MemoryScope
scope_of none id = global
scope_of (some s) id = if s == "tenant" then tenant id else if s == "user" then user id else global

scope_meta : MemoryScope → List (String × Value)
scope_meta global = []
scope_meta (tenant t) = ("gn_scope_id", string t) ∷ []
scope_meta (user u) = ("gn_scope_id", string u) ∷ []

-- The scope that a call of an agent writes to.
unfoldable pub scope_of_caller : Option String → Option String → MemoryScope
scope_of_caller tenant_id (some u) = user u
scope_of_caller (some t) none = tenant t
scope_of_caller none none = global

module _ {F : Type 0} (floats : Floats F) where
  importance_of : Option Value → F
  importance_of none = floats.half
  importance_of (some v) = unwrap_or (floats.of_json v) floats.half

  unfoldable pub from_storage : Memory → MemoryRecord F
  unfolding meta_text scope_of importance_of parse_kind
  from_storage m = record {
    id = m.id;
    text = m.learning;
    linked_entities = m.linked_entities;
    kind = parse_kind (meta_text "gn_kind" m.meta);
    importance = importance_of (get_meta "gn_importance" m.meta);
    scope = scope_of (meta_text "gn_scope" m.meta) (unwrap_or (meta_text "gn_scope_id" m.meta) "");
    description = m.description;
    created_at = m.created_at;
    updated_at = m.updated_at;
  }

  unfoldable pub to_storage : MemoryRecord F → Memory
  unfolding scope_meta
  to_storage r = record {
    id = r.id;
    learning = r.text;
    linked_entities = r.linked_entities;
    description = r.description;
    created_at = r.created_at;
    updated_at = r.updated_at;
    meta =
        ("gn_kind", string (kind_text r.kind))
        ∷ ("gn_importance", floats.json r.importance)
        ∷ ("gn_scope", string (scope_text r.scope))
        ∷ scope_meta r.scope;
  }

  unfoldable pub from_agent_input :
      String
      → List String
      → Option String
      → Option F
      → Option String
      → CallContext
      → ℕ
      → String
      → Result ServiceError (MemoryRecord F)
  from_agent_input text linked_entities kind importance description ctx now uuid =
      if trim text == ""
      then err empty_memory
      else ok (record {
        id = uuid;
        text = trim text;
        linked_entities = keep (λ e. not (trim e == "")) linked_entities;
        kind = parse_kind kind;
        importance = floats.clamp (unwrap_or importance floats.half);
        scope = scope_of_caller ctx.tenant_id ctx.user_id;
        description = description;
        created_at = now;
        updated_at = now;
      })
