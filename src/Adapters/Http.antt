-- ===== src/Adapters/Http.antt =====
-- src/constrail/adapters/http.py: the adapter for HTTP requests.
-- The client is a parameter, a function of the request that it is handed. A body of bytes is not modelled,
-- since the values of a call are those of JSON.
pub mod Laws
use constrails.Prelude.{
  ℕ, ◌≤◌, ◌<◌, pos, String, Bool, true, false, not, ◌&&◌, Option, none, some, List, [], ◌∷◌, ◌++◌,
  ◌≡◌, ◌↔◌, ◌⊎◌, inl, inr, refl, sym, ap, subst, ◌∙◌, arith, if◌then◌else◌, leb, ltb, lookup,
  concat, contains, or_default, is_some, show, ◌==◌, Option-cases, Bool-cases,
}
use constrails.Models.{
  Value, null, bool, int, float, str, obj, Fields, field, end, Float, ToolCall, ToolResult,
  ToolResultStatus, success, error,
}
use constrails.Capability.{is_true}

-- What `client.request` is called with.
pub record HttpRequest : Type 0 where
  pub method : String
  pub url : Value
  pub headers : Option Value
  pub params : Option Value
  pub json : Option Value
  pub content : Option String
  pub timeout : Option Value

pub record HttpResponse : Type 0 where
  pub status_code : ℕ
  pub headers : List (String × String)
  pub url : String
  pub elapsed : Float
  pub text : String
  pub json : Option Value

-- How the request ended: with a response, with an error of the request, or with another exception.
pub data Reply : Type 0 where
  answered : HttpResponse → Reply
  request_error : String → Reply
  exception : String → Reply

-- What the language says of values.
pub record Words : Type 0 where
  pub text_of : Value → String
  pub type_of : Value → String
  pub upper : String → String
  pub no_dict : Value → String

-- A request, or the text of an exception that is raised before it is sent.
pub data Prepared : Type 0 where
  request : HttpRequest → Prepared
  adapter_error : String → Prepared
  unexpected : String → Prepared

abbrev failure : String → ToolResult
failure message = record {
  success = false;
  error = some message;
  payload = some (obj end);
  metadata = [];
  status = error;
}

unfoldable pub has_field : String → Fields → Bool
has_field name end = false
has_field name (field key v more) = if key == name then true else has_field name more

unfoldable pub add_field : String → Value → Fields → Fields
add_field name value end = field name value end
add_field name value (field key v more) = field key v (add_field name value more)

-- `headers.setdefault("Content-Type", "text/plain")`; it is `none` on what is no dictionary.
unfoldable pub with_content_type : Option Value → Option Value
with_content_type none = some (obj (field "Content-Type" (str "text/plain") end))
with_content_type (some (obj fields)) = some (
    obj (
      if has_field "Content-Type" fields
      then fields
      else add_field "Content-Type" (str "text/plain") fields))
with_content_type (some _) = none

abbrev is_number : Value → Bool
is_number (bool b) = true
is_number (int n) = true
is_number (float x) = true
is_number _ = false

abbrev timeout_of : Option Value → Option Value
timeout_of none = none
timeout_of (some v) = if is_number v then some v else none

abbrev entries : List (String × String) → Fields
entries [] = end
entries ((name, value) ∷ more) = field name (str value) (entries more)

module _ (words : Words) where
  -- The text of a parameter, with what is used where it is missing.
  abbrev method_text : Option Value → String
  method_text none = "GET"
  method_text (some (str s)) = s
  method_text (some v) = words.text_of v

  -- The branches on the body, where the call has no "json".
  unfoldable pub with_body : Option Value → HttpRequest → Prepared
  with_body none r = request r
  with_body (some (obj fields)) r = request (record r { json = some (obj fields) })
  with_body (some (str text)) r = elim (with_content_type r.headers) [
    | some headers ↦ request (record r { headers = some headers; content = some text })
    | none ↦ unexpected (words.no_dict (elim r.headers [ some v ↦ v | none ↦ null ]))
  ]
  with_body (some v) r = adapter_error (concat ("Unsupported body type: " ∷ words.type_of v ∷ []))

  -- The request before its body.
  abbrev pub base : ToolCall → Value → HttpRequest
  base call url = record {
    method = words.upper (method_text (lookup "method" call.parameters));
    url = url;
    headers = lookup "headers" call.parameters;
    params = lookup "params" call.parameters;
    json = lookup "json" call.parameters;
    content = none;
    timeout = timeout_of (lookup "timeout" call.parameters);
  }

  unfoldable pub prepare : ToolCall → Prepared
  prepare call =
      let get : String → Option Value = λ name. lookup name call.parameters in
      elim (lookup "url" call.parameters) [
        | none ↦ adapter_error "Missing required parameter 'url'"
        | some url ↦
            if not (is_true url)
            then adapter_error "Missing required parameter 'url'"
            else with_body (if is_some (get "json") then none else get "body") (base call url)
      ]

  -- The data of a response; its JSON is read where its type says so.
  unfoldable pub result_data : HttpResponse → Value
  result_data r =
      let is_json = contains (or_default (lookup "content-type" r.headers) "") "application/json" in
      let rest : Fields =
        if is_json then elim r.json [ some v ↦ field "json" v end | none ↦ end ] else end in
      obj (
        field "status_code" (int (pos r.status_code)) (
          field "headers" (obj (entries r.headers)) (
            field "url" (str r.url)
              (field "elapsed" (float r.elapsed) (field "text" (str r.text) rest)))))

  abbrev pub is_success : HttpResponse → Bool
  is_success r = leb 200 r.status_code && ltb r.status_code 300

  unfoldable pub execute : (HttpRequest → Reply) → ToolCall → ToolResult
  unfolding result_data
  execute client call = elim (prepare call) [
    | adapter_error e ↦ failure e
    | unexpected e ↦ failure (concat ("Unexpected error: " ∷ e ∷ []))
    | request r ↦ elim (client r) [
      | request_error e ↦ failure (concat ("HTTP request failed: " ∷ e ∷ []))
      | exception e ↦ failure (concat ("Unexpected error: " ∷ e ∷ []))
      | answered response ↦ record {
        success = is_success response;
        error =
            if is_success response
            then none
            else some (concat ("HTTP " ∷ show response.status_code ∷ []));
        payload = some (result_data response);
        metadata = [];
        status = if is_success response then success else error;
      }
    ]
  ]
