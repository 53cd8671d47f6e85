-- ===== src/Tests/Mcp.antt =====
-- The theorems about the server of mcp.rs at concrete inputs.
use graphnight.Base.{
  ◌≡◌, refl, String, true, false, Option, none, some, List, [], Result, ok, err, trim,
}
use graphnight.Core.Models.{Value, null, number, string, object, end, field}
use graphnight.Runtime.Context.{Environment, anonymous}
use graphnight.Runtime.Tools.{new_catalog}
use graphnight.Runtime.Mcp.{parse_request, bearer_token}
use graphnight.Runtime.Mcp.Server.{McpServer, McpHost, new_server, handle_line}
use graphnight.Runtime.Mcp.Server.Replies.{IsReplied, handle_line-IsReplied}
use graphnight.Runtime.Mcp.Server.Gated.{IsGated, handle_line-IsGated}

-- Every line is the request to delete a model.
abbrev delete_request : Value
delete_request = object (
    field "id" (number "7") (
      field "jsonrpc" (string "2.0") (
        field "method" (string "tools/call")
          (field "params" (object (field "name" (string "delete_model") end)) end))))

abbrev service : Environment
service = record {
  get_model = λ name. ok none;
  get_datasource = λ name. ok none;
  generate_sql = λ query. err "no model";
  dialect_name_for_model = λ name. "sqlite";
  execute_sqlx = λ timeout datasource sql. none;
  elapsed_ms = 0;
  write_audit = λ entries entry. true;
  now = 0;
}

-- The world says whether a tool has run.
abbrev host : McpHost String
host = record {
  parse = λ line. ok delete_request;
  print = λ v. "{}";
  pretty = λ v. none;
  debug = λ text. text;
  input_schema = λ name. null;
  unknown = λ name. "Unknown tool";
  service = service;
  run = λ name ctx args s. (ok null, ("run", s.1));
}

abbrev server : McpServer
server = new_server new_catalog "0.1.0"

handle_line-IsReplied_example :
    IsReplied host server anonymous
      ("idle", some [])
      (handle_line host server anonymous "{}" ("idle", some []))
      (host.parse (trim "{}"))
handle_line-IsReplied_example = handle_line-IsReplied host server anonymous "{}" ("idle", some [])

handle_line-IsGated_example :
    IsGated host server anonymous
      ("idle", some [])
      (handle_line host server anonymous "{}" ("idle", some []))
handle_line-IsGated_example = handle_line-IsGated host server anonymous "{}" ("idle", some []) refl

-- A server that does not allow mutations deletes nothing and logs the attempt.
not_deleted : (handle_line host server anonymous "{}" ("idle", some [])).1.0 ≡ "idle"
unfolding handle_line parse_request graphnight.Runtime.Mcp.field_of graphnight.Runtime.Mcp.field_in
    graphnight.Runtime.Tools.is_null graphnight.Runtime.Mcp.Server.handle
    graphnight.Runtime.Mcp.Server.call_tool graphnight.Runtime.Tools.call
    graphnight.Runtime.Tools.get graphnight.Runtime.Tools.find_tool
not_deleted = refl

tokens :
    (bearer_token (some "Bearer  abc ") ≡ some "abc")
    × (bearer_token (some "bearer abc") ≡ some "abc")
    × (bearer_token (some "Basic abc") ≡ none)
    × (bearer_token (some "Bearer   ") ≡ none)
unfolding bearer_token graphnight.Base.strip_prefix trim
tokens = (refl, refl, refl, refl)
