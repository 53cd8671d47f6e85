-- ===== src/Runtime/Mcp/Server/Gated.antt =====
-- Which tools a line of mcp.rs can run.
use graphnight.Base.{
  ◌≡◌, refl, ap, ◌∙◌, ◌⊎◌, inl, inr, String, Option, none, some, Result, ok, err, if◌then◌else◌,
  if_either, ◌==◌,
}
use graphnight.Core.Models.{Value, object, end}
use graphnight.Runtime.Agent.{ToolError}
use graphnight.Runtime.Context.{CallContext}
use graphnight.Runtime.Governance.{AuditSink}
use graphnight.Runtime.Tools.{builtin_tools, get, is_null}
use graphnight.Runtime.Tools.Gate.{IsOpen, call-gate}
use graphnight.Runtime.Mcp.{JsonRpcRequest, Parsed, parse_request}
use graphnight.Runtime.Mcp.Server.{
  McpServer, McpHost, handle, handle_line, call_tool, tool_answered, called, identified, written,
  parsed,
}

module _ {W : Type 0} (host : McpHost W) (server : McpServer) (ctx : CallContext) where
  -- The world is as it was, or as a tool that is open has left it.
  abbrev pub IsGated : {A : Type 0} → W × AuditSink → A × (W × AuditSink) → Type 0
  IsGated s out =
      (out.1.0 ≡ s.0)
      ⊎ ((name : String) × (args : Value) × IsOpen server.catalog.allow_mutations
            (get server.catalog name) name
          × (out.1.0 ≡ (host.run name ctx args s).1.0))

  module _ (all_tools : server.catalog.tools ≡ builtin_tools) where
    tool_answered-world :
        (id : Value) (name : String) (r : Result ToolError Value × (W × AuditSink))
        → (tool_answered host ctx id name r).1.0 ≡ r.1.0
    unfolding tool_answered
    tool_answered-world id name (ok v, s) = refl
    tool_answered-world id name (err e, (w, sink)) = refl

    call_tool-IsGated :
        (id : Value) (name : String) (args : Value) (s : W × AuditSink)
        → IsGated s (call_tool host server ctx id name args s)
    unfolding call_tool
    call_tool-IsGated id name args s =
        elim (call-gate host.unknown host.run server.catalog ctx name args s all_tools) [
          | inl (missing, e) ↦ inl (tool_answered-world id name _ ∙ ap (λ r. r.1.0) e)
          | inr (open_there, e) ↦ inr (
            name,
            (if is_null args then object end else args),
            open_there,
            tool_answered-world id name _ ∙ ap (λ r. r.1.0) e,
          )
        ]

    called-IsGated :
        (id : Value) (name : String) (params : Value) (s : W × AuditSink)
        → IsGated s (called host server ctx id name params s)
    unfolding called
    called-IsGated id name params s =
        if_either (IsGated s) (name == "") _ _ (inl refl) (call_tool-IsGated id name _ s)

    handle-IsGated :
        (request : JsonRpcRequest) (s : W × AuditSink)
        → IsGated s (handle host server ctx request s)
    unfolding handle
    handle-IsGated request s =
        if_either (IsGated s) (request.method == "initialize") _ _ (inl refl) (
          if_either (IsGated s) (request.method == "ping") _ _ (inl refl) (
            if_either (IsGated s) (request.method == "tools/list") _ _ (inl refl) (
              if_either (IsGated s) (request.method == "tools/call") _ _ (called-IsGated _ _ _ s) (
                if_either (IsGated s) (request.method == "notifications/initialized") _ _ (inl refl)
                  (if_either (IsGated s) (request.method == "initialized") _ _ (inl refl)
                    (inl refl))))))

    identified-IsGated :
        (request : JsonRpcRequest) (id : Option Value) (s : W × AuditSink)
        → IsGated s (identified host server ctx request id s)
    unfolding identified written
    identified-IsGated request none s = inl refl
    identified-IsGated request (some id) s = handle-IsGated request s

    parsed-IsGated : (p : Parsed) (s : W × AuditSink) → IsGated s (parsed host server ctx p s)
    unfolding parsed
    parsed-IsGated (err e) s = inl refl
    parsed-IsGated (ok none) s = inl refl
    parsed-IsGated (ok (some request)) s = identified-IsGated request request.id s

-- A line leaves the world as it was, but for the audit log, or as one tool has left it that is open to the
-- caller: a tool that changes models or datasources is run only where the server allows mutations.
pub handle_line-IsGated :
    {W : Type 0} (host : McpHost W) (server : McpServer) (ctx : CallContext) (line : String)
    (s : W × AuditSink)
    → server.catalog.tools ≡ builtin_tools
    → IsGated host server ctx s (handle_line host server ctx line s)
unfolding handle_line
handle_line-IsGated host server ctx line s all_tools =
    parsed-IsGated host server ctx all_tools (parse_request host.parse line) s
