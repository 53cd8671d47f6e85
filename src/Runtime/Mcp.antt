-- ===== src/Runtime/Mcp.antt =====
-- crates/graphnight-runtime/src/mcp.rs: the messages of JSON-RPC, with the context and the token of a
-- transport. Reading JSON is a parameter.
-- An object has its fields in alphabetical order, as the map that `json!` makes.
pub mod Server
use graphnight.Base.{
  ℕ, String, Bool, true, false, Option, none, some, List, [], ◌∷◌, map, Result, ok, err, ◌+s◌, ◌==◌,
  if◌then◌else◌, trim, show, unwrap_or, strip_prefix, or_option, suc,
}
use graphnight.Core.Models.{
  Value, Fields, null, bool, number, string, array, object, end, field, of_list, as_str,
}
use graphnight.Runtime.Agent.{ToolError}
use graphnight.Runtime.Context.{CallContext, Environment}
use graphnight.Runtime.Governance.{AuditSink, audit}
use graphnight.Runtime.Tools.{ToolSpec, ToolCatalog, specs, call, is_null}
use graphnight.Runtime.Tools

-- `value.get(key)`, and `value[key]`.
unfoldable pub field_in : String → Fields → Option Value
field_in key end = none
field_in key (field name v fs) = let rest = field_in key fs in if name == key then some v else rest

unfoldable pub field_of : String → Value → Option Value
field_of key (object fs) = field_in key fs
field_of key _ = none

abbrev pub index : String → Value → Value
index key v = unwrap_or (field_of key v) null

pub record JsonRpcRequest : Type 0 where
  pub jsonrpc : String
  pub id : Option Value
  pub method : String
  pub params : Value

-- `code` is the code without its sign: every code is negative.
pub record JsonRpcError : Type 0 where
  pub code : ℕ
  pub message : String
  -- `data`
  pub details : Option Value

pub record JsonRpcResponse : Type 0 where
  pub jsonrpc : String
  pub id : Value
  pub result : Option Value
  pub error : Option JsonRpcError

abbrev pub rpc_error : ℕ → String → JsonRpcError
rpc_error code message = record { code = code; message = message; details = none }

abbrev pub with_data : Value → JsonRpcError → JsonRpcError
with_data v e = record e { details = some v }

abbrev pub error_json : JsonRpcError → Value
error_json e = object (
    field "code" (number ("-" +s show e.code))
      (field "data" (unwrap_or e.details null) (field "message" (string e.message) end)))

abbrev pub ok_response : Value → Value → JsonRpcResponse
ok_response id result = record { jsonrpc = "2.0"; id = id; result = some result; error = none }

abbrev pub error_response : Value → JsonRpcError → JsonRpcResponse
error_response id e = record { jsonrpc = "2.0"; id = id; result = none; error = some e }

abbrev pub null_id : JsonRpcError → JsonRpcResponse
null_id e = error_response null e

abbrev error_fields : Option JsonRpcError → Fields → Fields
error_fields none fs = fs
error_fields (some e) fs = field "error" (error_json e) fs

abbrev result_fields : Option Value → Fields
result_fields none = end
result_fields (some v) = field "result" v end

unfoldable pub response_json : JsonRpcResponse → Value
response_json r = object (
    error_fields r.error
      (field "id" r.id (field "jsonrpc" (string r.jsonrpc) (result_fields r.result))))

abbrev pub parse_error : ℕ
parse_error = 32700

abbrev pub invalid_request : ℕ
invalid_request = 32600

abbrev pub method_not_found : ℕ
method_not_found = 32601

abbrev pub invalid_params : ℕ
invalid_params = 32602

-- `value == text` and `!v.is_null()`.
is_text : String → Value → Bool
is_text t (string s) = s == t
is_text t _ = false

abbrev not_null : Option Value → Option Value
not_null none = none
not_null (some v) = if is_null v then none else some v

abbrev Parsed : Type 0
Parsed = Result JsonRpcError (Option JsonRpcRequest)

of_method : Value → Option String → Parsed
of_method v none = err (rpc_error invalid_request "request is missing `method`")
of_method v (some method) = ok (
    some (record {
      jsonrpc = "2.0";
      id = not_null (field_of "id" v);
      method = method;
      params = unwrap_or (field_of "params" v) null;
    }))

of_object : Value → Parsed
unfolding of_method is_text
of_object v =
    if is_text "2.0" (index "jsonrpc" v)
    then of_method v (as_str (index "method" v))
    else err (rpc_error invalid_request "jsonrpc must be exactly \"2.0\"")

of_value : Result String Value → Parsed
unfolding of_object
of_value (err e) = err (rpc_error parse_error ("invalid JSON: " +s e))
of_value (ok (object fs)) = of_object (object fs)
of_value (ok _) = err (rpc_error invalid_request "request must be a JSON object")

unfoldable pub parse_request : (String → Result String Value) → String → Parsed
unfolding of_value
parse_request parse line = of_value (parse (trim line))

-- `resolve_context` and `bearer_token`.
unfoldable pub resolve_context : Option String → Option String → Bool → Bool → CallContext
resolve_context user_id tenant_id is_admin auth_required = record {
  user_id = user_id;
  tenant_id = tenant_id;
  is_admin = is_admin;
  auth_required = auth_required;
  policy = none;
  principal_label = some "mcp:stdio";
}

not_blank : Option String → Option String
not_blank none = none
not_blank (some token) = if trim token == "" then none else some (trim token)

unfoldable pub bearer_token : Option String → Option String
unfolding not_blank
bearer_token none = none
bearer_token (some header) =
    let value = trim header in
    not_blank (or_option (strip_prefix value "Bearer ") (strip_prefix value "bearer "))
