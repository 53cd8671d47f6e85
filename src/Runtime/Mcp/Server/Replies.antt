-- ===== src/Runtime/Mcp/Server/Replies.antt =====
-- What mcp.rs replies to a line.
use graphnight.Base.{
  ◌≡◌, refl, ap, ◌∙◌, inl, inr, String, Bool-cases, not, Option, none, some, Result, ok, err,
  is_some, unwrap_or, if_either, if◌then◌else◌, ℕ, eq_iff, ◌==◌, trim,
}
use graphnight.Core.Models.{Value, null, bool, number, string, array, object, as_str}
use graphnight.Runtime.Context.{CallContext}
use graphnight.Runtime.Governance.{AuditSink}
use graphnight.Runtime.Tools.{is_null}
use graphnight.Runtime.Mcp.{
  JsonRpcRequest, JsonRpcResponse, error_response, rpc_error, response_json, invalid_request,
  not_null, is_text, index, of_method, of_object, of_value, parse_request, field_of,
}
use graphnight.Runtime.Mcp.Server.{
  McpServer, McpHost, handle, handle_line, call_tool, tool_answered, called, identified, written,
  parsed,
}

-- The value is a request: its version is 2.0 and its method is a text.
abbrev pub IsRequest : Value → String → Type 0
IsRequest v method =
    (field_of "jsonrpc" v ≡ some (string "2.0")) × (field_of "method" v ≡ some (string method))

-- What a value asks for that is a request with an id.
abbrev pub request_of : Value → Value → String → JsonRpcRequest
request_of v id method = record {
  jsonrpc = "2.0";
  id = some id;
  method = method;
  params = unwrap_or (field_of "params" v) null;
}

-- A response with the id and with one of a result and an error.
abbrev pub IsAnswer : Value → JsonRpcResponse → Type 0
IsAnswer id r = (r.jsonrpc ≡ "2.0") × (r.id ≡ id) × (is_some r.result ≡ not (is_some r.error))

abbrev AnswersTo : {S : Type 0} → Value → JsonRpcResponse × S → Type 0
AnswersTo id r = IsAnswer id r.0

module _ {W : Type 0} (host : McpHost W) (server : McpServer) (ctx : CallContext) where
  tool_answered-IsAnswer :
      (id : Value) (name : String) (r : _) → IsAnswer id (tool_answered host ctx id name r).0
  unfolding tool_answered
  tool_answered-IsAnswer id name (ok v, s) = (refl, refl, refl)
  tool_answered-IsAnswer id name (err e, (w, sink)) = (refl, refl, refl)

  called-IsAnswer :
      (id : Value) (name : String) (params : Value) (s : W × AuditSink)
      → IsAnswer id (called host server ctx id name params s).0
  unfolding called call_tool
  called-IsAnswer id name params s =
      if_either (AnswersTo id) (name == "") _ _ (refl, refl, refl)
        (tool_answered-IsAnswer id name _)

  handle-IsAnswer :
      (request : JsonRpcRequest) (s : W × AuditSink)
      → IsAnswer (unwrap_or request.id null) (handle host server ctx request s).0
  unfolding handle
  handle-IsAnswer request s =
      let id = unwrap_or request.id null in
      if_either (AnswersTo id) (request.method == "initialize") _ _ (refl, refl, refl)
        (if_either (AnswersTo id) (request.method == "ping") _ _ (refl, refl, refl)
          (if_either (AnswersTo id) (request.method == "tools/list") _ _ (refl, refl, refl)
            (if_either (AnswersTo id) (request.method == "tools/call") _ _
              (called-IsAnswer id _ request.params s)
              (if_either (AnswersTo id) (request.method == "notifications/initialized") _ _
                (refl, refl, refl)
                (if_either (AnswersTo id) (request.method == "initialized") _ _ (refl, refl, refl)
                  (refl, refl, refl))))))

  -- The reply is the error of a code, with a null id, and nothing is done.
  abbrev pub IsRefused : ℕ → W × AuditSink → Option String × (W × AuditSink) → Type 0
  IsRefused code s (reply, s') =
      (message : String) × (reply
        ≡ some (
            host.print (
              response_json
                (error_response null (record { code = code; message = message; details = none })))))
      × (s' ≡ s)

  -- What becomes of a request with an id, or without one: no reply, or the text of an answer.
  abbrev pub IsIdentified :
      Value → String → Option Value → W × AuditSink → Option String × (W × AuditSink) → Type 0
  IsIdentified v method none s (reply, s') = (reply ≡ none) × (s' ≡ s)
  IsIdentified v method (some null) s (reply, s') = (reply ≡ none) × (s' ≡ s)
  IsIdentified v method (some id) s (reply, s') =
      (r : JsonRpcResponse) × ((r, s') ≡ handle host server ctx (request_of v id method) s)
      × (reply ≡ some (host.print (response_json r)))
      × IsAnswer id r

  -- What becomes of a line, by what it reads as.
  pub data IsReplied (s : W × AuditSink) (out : Option String × (W × AuditSink))
      : Result String Value → Type 0 where
    not_json : {e : String} → IsRefused 32700 s out → IsReplied s out (err e)
    no_request :
        {v : Value}
        → ((method : String) → ¬ IsRequest v method)
        → IsRefused 32600 s out
        → IsReplied s out (ok v)
    request :
        {v : Value} {method : String}
        → IsRequest v method
        → IsIdentified v method (field_of "id" v) s out
        → IsReplied s out (ok v)

  handled-IsIdentified :
      (v id : Value) (method : String) (s : W × AuditSink)
      → (r : JsonRpcResponse) × ((r, (handle host server ctx (request_of v id method) s).1)
          ≡ handle host server ctx (request_of v id method) s)
        × ((written host (handle host server ctx (request_of v id method) s)).0
            ≡ some (host.print (response_json r)))
        × IsAnswer id r
  unfolding written
  handled-IsIdentified v id method s =
      let q = request_of v id method in
      ((handle host server ctx q s).0, refl, refl, handle-IsAnswer q s)

  identified-IsIdentified :
      (v : Value) (method : String) (o : Option Value) (s : W × AuditSink)
      → IsIdentified v method o s (
          identified host server ctx
            (record {
              jsonrpc = "2.0";
              id = not_null o;
              method = method;
              params = unwrap_or (field_of "params" v) null;
            })
            (not_null o)
            s)
  unfolding identified written is_null
  identified-IsIdentified v method none s = (refl, refl)
  identified-IsIdentified v method (some null) s = (refl, refl)
  identified-IsIdentified v method (some (bool b)) s = handled-IsIdentified v (bool b) method s
  identified-IsIdentified v method (some (number n)) s = handled-IsIdentified v (number n) method s
  identified-IsIdentified v method (some (string t)) s = handled-IsIdentified v (string t) method s
  identified-IsIdentified v method (some (array vs)) s = handled-IsIdentified v (array vs) method s
  identified-IsIdentified v method (some (object fs)) s =
      handled-IsIdentified v (object fs) method s

  -- A value whose method is no text is no request.
  no_method :
      (v : Value) (s : W × AuditSink)
      → ((method : String) → ¬ (field_of "method" v ≡ some (string method)))
      → IsReplied s (parsed host server ctx (of_method v none) s) (ok v)
  unfolding parsed of_method
  no_method v s h = no_request (λ method (j, m). h method m) (_, refl, refl)

  of_method-IsReplied :
      (v : Value) (s : W × AuditSink)
      → field_of "jsonrpc" v ≡ some (string "2.0")
      → (o : Option Value) → field_of "method" v ≡ o
      → IsReplied s (parsed host server ctx (of_method v (as_str (unwrap_or o null))) s) (ok v)
  unfolding parsed of_method
  of_method-IsReplied v s j none e = no_method v s (λ m k. cc)
  of_method-IsReplied v s j (some null) e = no_method v s (λ m k. cc)
  of_method-IsReplied v s j (some (bool b)) e = no_method v s (λ m k. cc)
  of_method-IsReplied v s j (some (number n)) e = no_method v s (λ m k. cc)
  of_method-IsReplied v s j (some (array vs)) e = no_method v s (λ m k. cc)
  of_method-IsReplied v s j (some (object fs)) e = no_method v s (λ m k. cc)
  of_method-IsReplied v s j (some (string method)) e =
      request (j, e) (identified-IsIdentified v method (field_of "id" v) s)

  -- A value whose version is not 2.0 is no request.
  no_version :
      (v : Value) (message : String) (s : W × AuditSink)
      → ¬ (field_of "jsonrpc" v ≡ some (string "2.0"))
      → IsReplied s (parsed host server ctx (err (rpc_error invalid_request message)) s) (ok v)
  unfolding parsed
  no_version v message s h = no_request (λ method (j, m). h j) (_, refl, refl)

  of_object-IsReplied :
      (v : Value) (s : W × AuditSink) (o : Option Value)
      → field_of "jsonrpc" v ≡ o
      → IsReplied s
          (parsed host server ctx
            (if is_text "2.0" (unwrap_or o null)
              then of_method v (as_str (index "method" v))
              else err (rpc_error invalid_request "jsonrpc must be exactly \"2.0\""))
            s)
          (ok v)
  unfolding is_text
  of_object-IsReplied v s none e = no_version v _ s (λ k. cc)
  of_object-IsReplied v s (some null) e = no_version v _ s (λ k. cc)
  of_object-IsReplied v s (some (bool b)) e = no_version v _ s (λ k. cc)
  of_object-IsReplied v s (some (number n)) e = no_version v _ s (λ k. cc)
  of_object-IsReplied v s (some (array vs)) e = no_version v _ s (λ k. cc)
  of_object-IsReplied v s (some (object fs)) e = no_version v _ s (λ k. cc)
  of_object-IsReplied v s (some (string t)) e = elim (Bool-cases (t == "2.0")) [
    | inl y ↦
        rw y (of_method-IsReplied v s (e ∙ ap (λ u. some (string u)) ((eq_iff t "2.0").0 y)) _ refl)
    | inr n ↦ rw n (no_version v _ s (λ k. cc))
  ]

  of_value-IsReplied :
      (v : Result String Value) (s : W × AuditSink)
      → IsReplied s (parsed host server ctx (of_value v) s) v
  unfolding of_value of_object parsed field_of
  of_value-IsReplied (err e) s = not_json (_, refl, refl)
  of_value-IsReplied (ok (object fs)) s = of_object-IsReplied (object fs) s _ refl
  of_value-IsReplied (ok null) s = no_version null _ s (λ k. cc)
  of_value-IsReplied (ok (bool b)) s = no_version (bool b) _ s (λ k. cc)
  of_value-IsReplied (ok (number n)) s = no_version (number n) _ s (λ k. cc)
  of_value-IsReplied (ok (string t)) s = no_version (string t) _ s (λ k. cc)
  of_value-IsReplied (ok (array vs)) s = no_version (array vs) _ s (λ k. cc)

-- A line that is no JSON is answered with the error -32700, and JSON that is no request, because its
-- version is not the text 2.0 or its method is no text, with the error -32600, both with a null id and
-- without doing anything. A request without an id, or with a null id, is a notification, which does nothing
-- and has no reply. Any other request is handled with its method, its id and its params, which are null when
-- they are missing, and the reply is the answer, which has its id and either a result or an error.
pub handle_line-IsReplied :
    {W : Type 0} (host : McpHost W) (server : McpServer) (ctx : CallContext) (line : String)
    (s : W × AuditSink)
    → IsReplied host server ctx s (handle_line host server ctx line s) (host.parse (trim line))
unfolding handle_line parse_request
handle_line-IsReplied host server ctx line s =
    of_value-IsReplied host server ctx (host.parse (trim line)) s
