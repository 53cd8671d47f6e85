-- ===== src/Runtime/Mcp/Server.antt =====
-- The server of crates/graphnight-runtime/src/mcp.rs, which answers lines of JSON-RPC with the tools of the
-- catalogue. Writing JSON and what a tool does are interfaces.
pub mod Replies
pub mod Gated
use graphnight.Base.{
  ℕ, String, Bool, true, false, Option, none, some, List, [], ◌∷◌, map, Result, ok, err, ◌+s◌, ◌==◌,
  if◌then◌else◌, trim, show, unwrap_or, strip_prefix, or_option, suc,
}
use graphnight.Core.Models.{
  Value, Fields, null, bool, number, string, array, object, end, field, of_list, as_str,
}
use graphnight.Runtime.Agent.{ToolError}
use graphnight.Runtime.Context.{CallContext, Environment}
use graphnight.Runtime.Governance.{AuditSink, audit}
use graphnight.Runtime.Tools.{ToolSpec, ToolCatalog, specs, call, is_null}
use graphnight.Runtime.Tools
use graphnight.Runtime.Mcp.{
  JsonRpcRequest, JsonRpcError, JsonRpcResponse, rpc_error, with_data, ok_response, error_response,
  null_id, response_json, invalid_params, method_not_found, index, field_of, parse_request, Parsed,
}

pub record McpServer : Type 0 where
  pub catalog : ToolCatalog
  pub server_name : String
  pub server_version : String

abbrev pub new_server : ToolCatalog → String → McpServer
new_server catalog version = record {
  catalog = catalog;
  server_name = "graphnight";
  server_version = version;
}

abbrev pub with_mutations : Bool → McpServer → McpServer
with_mutations allow server = record server { catalog = Tools.with_mutations allow server.catalog }

abbrev pub with_identity : String → String → McpServer → McpServer
with_identity name version server = record server { server_name = name; server_version = version }

-- What the server is built on: JSON, the debug form of a text, the schema of a tool's input, the message
-- of an unknown tool, the service, and the tools, which may change the world and the audit log.
pub record McpHost (W : Type 0) : Type 0 where
  pub parse : String → Result String Value
  pub print : Value → String
  pub pretty : Value → Option String
  pub debug : String → String
  pub input_schema : String → Value
  pub unknown : String → String
  pub service : Environment
  pub run : String → CallContext → Value → W × AuditSink → Result ToolError Value × (W × AuditSink)

-- `ToolError::to_json` and its text.
abbrev hint_fields : Option String → Fields → Fields
hint_fields none fs = fs
hint_fields (some h) fs = field "hint" (string h) fs

abbrev pub tool_error_json : ToolError → Value
tool_error_json e =
    object
      (field "code" (string e.code) (hint_fields e.hint (field "message" (string e.message) end)))

abbrev hinted_text : String → Option String → String
hinted_text text none = text
hinted_text text (some h) = text +s " (" +s h +s ")"

abbrev pub tool_error_text : ToolError → String
tool_error_text e = hinted_text (e.message +s " [" +s e.code +s "]") e.hint

abbrev pub instructions : String
instructions =
    "Query the semantic layer through tools. Call search_models or list_models to find a model, get_model to read its real fields, validate_query before run_query, and run_query for rows. All queries are subject to the caller's access policy."

-- The result of a tool, as text and as it is.
abbrev pub content : String → Value → Bool → Value
content text structured is_error = object (
    field "content"
      (array
        (of_list (object (field "text" (string text) (field "type" (string "text") end)) ∷ [])))
      (field "isError" (bool is_error) (field "structuredContent" structured end)))

module _ {W : Type 0} (host : McpHost W) where
  descriptor : ToolSpec → Value
  descriptor s = object (
      field "description" (string s.description)
        (field "inputSchema" (host.input_schema s.name) (field "name" (string s.name) end)))

  mcp_descriptors : ToolCatalog → Value
  unfolding descriptor
  mcp_descriptors catalog = array (of_list (map descriptor (specs catalog)))

  initialized : McpServer → Value
  initialized server = object (
      field "capabilities"
        (object (field "tools" (object (field "listChanged" (bool false) end)) end))
        (field "instructions" (string instructions) (
          field "protocolVersion" (string "2024-11-05") (
            field "serverInfo"
              (object (
                field "name" (string server.server_name)
                  (field "version" (string server.server_version) end)))
              end))))

  tool_answered :
      CallContext
      → Value
      → String
      → Result ToolError Value × (W × AuditSink)
      → JsonRpcResponse × (W × AuditSink)
  tool_answered ctx id name (ok v, s) =
      (ok_response id (content (unwrap_or (host.pretty v) (host.print v)) v false), s)
  tool_answered ctx id name (err e, (w, sink)) = (
    ok_response id (
        content (unwrap_or (host.pretty (tool_error_json e)) (tool_error_text e))
          (tool_error_json e) true),
    (w, audit host.service ctx name 0 0 false (some e.code) sink),
  )

  unfoldable pub call_tool :
      McpServer
      → CallContext
      → Value
      → String
      → Value
      → W × AuditSink
      → JsonRpcResponse × (W × AuditSink)
  unfolding tool_answered
  call_tool server ctx id name arguments s =
      tool_answered ctx id name (call host.unknown host.run server.catalog ctx name arguments s)

  called :
      McpServer
      → CallContext
      → Value
      → String
      → Value
      → W × AuditSink
      → JsonRpcResponse × (W × AuditSink)
  called server ctx id name params s =
      if name == ""
      then (error_response id (rpc_error invalid_params "tools/call requires `name`"), s)
      else call_tool server ctx id name (unwrap_or (field_of "arguments" params) (object end)) s

  unsupported : String → JsonRpcError
  unsupported method =
      with_data
        (object (
          field "supported"
            (array (
              of_list (
                string "initialize"
                ∷ string "ping"
                ∷ string "tools/list"
                ∷ string "tools/call"
                ∷ [])))
            end))
        (rpc_error method_not_found ("unknown method " +s host.debug method))

  unfoldable pub handle :
      McpServer → CallContext → JsonRpcRequest → W × AuditSink → JsonRpcResponse × (W × AuditSink)
  unfolding called initialized mcp_descriptors unsupported
  handle server ctx request s =
      let id = unwrap_or request.id null in
      if request.method == "initialize"
      then (ok_response id (initialized server), s)
      else if request.method == "ping"
      then (ok_response id (object end), s)
      else if request.method == "tools/list"
      then (ok_response id (object (field "tools" (mcp_descriptors server.catalog) end)), s)
      else if request.method == "tools/call"
      then called server ctx id (unwrap_or (as_str (index "name" request.params)) "") request.params
          s
      else if request.method == "notifications/initialized"
      then (ok_response id (object end), s)
      else if request.method == "initialized"
      then (ok_response id (object end), s)
      else (error_response id (unsupported request.method), s)

  written : JsonRpcResponse × (W × AuditSink) → Option String × (W × AuditSink)
  written (response, s) = (some (host.print (response_json response)), s)

  -- A request without an id is a notification, which is not even handled.
  identified :
      McpServer
      → CallContext
      → JsonRpcRequest
      → Option Value
      → W × AuditSink
      → Option String × (W × AuditSink)
  unfolding written
  identified server ctx request none s = (none, s)
  identified server ctx request (some id) s = written (handle server ctx request s)

  parsed : McpServer → CallContext → Parsed → W × AuditSink → Option String × (W × AuditSink)
  unfolding identified
  parsed server ctx (ok (some request)) s = identified server ctx request request.id s
  parsed server ctx (ok none) s = (none, s)
  parsed server ctx (err e) s = (some (host.print (response_json (null_id e))), s)

  unfoldable pub handle_line :
      McpServer → CallContext → String → W × AuditSink → Option String × (W × AuditSink)
  unfolding parsed
  handle_line server ctx line s = parsed server ctx (parse_request host.parse line) s
