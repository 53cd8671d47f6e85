-- ===== src/Runtime/Tools/Gate.antt =====
-- The gate of the catalogue of tools.rs.
use graphnight.Base.{
  ◌≡◌, ◌⊎◌, refl, String, Bool, true, false, Bool-cases, ◌&&◌, not, inl, inr, Option, none, some,
  List, [], ◌∷◌, All, contains, Result, err, ◌==◌, eq_iff, if◌then◌else◌, arith,
}
use graphnight.Core.Models.{Value, object, end}
use graphnight.Runtime.Agent.{ToolError}
use graphnight.Runtime.Context.{CallContext}
use graphnight.Runtime.Tools.{
  ToolSpec, ToolCatalog, builtin_tools, is_open, find_tool, open_tool, get, unknown_tool,
  dispatched, is_null, dispatch, call_spec, call,
}

some_inj : {A : Type 0} {a b : A} → some a ≡ some b → a ≡ b
some_inj e = cc

find_tool-All :
    (P : ToolSpec → Type 0) (tools : List ToolSpec) (name : String) (s : ToolSpec)
    → All P tools
    → find_tool tools name ≡ some s
    → P s × (s.name ≡ name)
unfolding find_tool
find_tool-All P [] name s h e = cc
find_tool-All P (t ∷ rest) name s (p, h) e = elim (Bool-cases (t.name == name)) [
  | inl x ↦
      let k : some t ≡ some s = rw x at e in
      let same = some_inj k in (rw (← same) p, rw (← same) ((eq_iff t.name name).0 x))
  | inr x ↦ let k : find_tool rest name ≡ some s = rw x at e in find_tool-All P rest name s h k
]

abbrev IsDispatched : ToolSpec → Type 0
IsDispatched s = contains dispatched s.name ≡ true

All-IsDispatched : All IsDispatched builtin_tools
All-IsDispatched = (
  refl,
  (
    refl,
    (
      refl,
      (
        refl,
        (
          refl,
          (
            refl,
            (refl, (refl, (refl, (refl, (refl, (refl, (refl, (refl, (refl, (refl, tt)))))))))),
          ),
        ),
      ),
    ),
  ),
)

-- The tool is open, so that the call reaches it.
abbrev pub IsOpen : Bool → Option ToolSpec → String → Type 0
IsOpen allow o name =
    (s : ToolSpec) × (o ≡ some s)
    × (s.name ≡ name)
    × (is_open allow s ≡ true)
    × (contains dispatched name ≡ true)

open_tool-cases :
    (allow : Bool) (name : String) (o : Option ToolSpec)
    → find_tool builtin_tools name ≡ o
    → (open_tool allow o ≡ none) ⊎ IsOpen allow (open_tool allow o) name
unfolding open_tool
open_tool-cases allow name none e = inl refl
open_tool-cases allow name (some s) e =
    let (p, x) = find_tool-All IsDispatched builtin_tools name s All-IsDispatched e in
    elim (Bool-cases (is_open allow s)) [
      | inl o ↦ rw (open_tool, o) (inr (s, refl, x, o, rw (← x) p))
      | inr o ↦ rw (open_tool, o) (inl refl)
    ]

not_disabled :
    (allow : Bool) (s : ToolSpec) → is_open allow s ≡ true → (s.mutating && not allow) ≡ false
not_disabled allow s e = ground arith

-- A call by a name either finds no open tool, and is answered as one of an unknown tool, with nothing
-- done, or it finds one, and is what that tool does. A tool that changes the models or the datasources
-- is open only where mutations are allowed.
pub call-gate :
    {W : Type 0} (message : String → String)
    (run : String → CallContext → Value → W → Result ToolError Value × W) (catalog : ToolCatalog)
    (ctx : CallContext) (name : String) (args : Value) (w : W)
    → catalog.tools ≡ builtin_tools
    → ((get catalog name ≡ none)
        × (call message run catalog ctx name args w ≡ (err (unknown_tool message name), w)))
      ⊎ (IsOpen catalog.allow_mutations (get catalog name) name
          × (call message run catalog ctx name args w
              ≡ run name ctx (if is_null args then object end else args) w))
unfolding get call call_spec dispatch
call-gate message run catalog ctx name args w b =
    elim (open_tool-cases catalog.allow_mutations name (find_tool builtin_tools name) refl) [
      | inl e ↦ rw (b, e) (inl (refl, refl))
      | inr (s, e, x, o, d) ↦
          rw (b, e)
            (inr ((s, refl, x, o, d), rw (not_disabled catalog.allow_mutations s o, d) refl))
    ]
