-- ===== src/Adapters/Filesystem/Effects.antt =====
-- What a call of the filesystem adapter can do to the files.
use constrails.Prelude.{
  String, true, false, not, Option, none, some, [], ◌∷◌, ◌≡◌, refl, sym, subst, ap, ◌∙◌, arith,
  if◌then◌else◌, lookup, member, ◌==◌, Bool-cases, Option-cases, inl, inr, insert, concat, eq_refl,
  is_some,
}
use constrails.Models.{Value, null, str, Uuid, ActionRequest, ToolCall, allow, RiskLevel}
use constrails.Capability.{is_true}
use constrails.Broker
use constrails.Broker.{
  Outcome, raised, Trace, Adapters, ExecutionContext, register_adapter, execute_direct,
}
use constrails.Kernel.{Env, normalize_call, set_default, execute_tool, tool_broker}
use constrails.Adapters.Filesystem.{
  Parts, Fallible, value, exception, Files, Messages, relative_to, parent, file_tools, write,
  write_value, write_content, delete, dispatch, execute, world_after, operation_of, is_text,
}

module _ {World : Type 0} (files : Files World) (base : Parts) where
  -- For a path below the base path: nothing, the directories above it, those and a write, or a removal.
  pub data Confined (w w' : World) : Type 0 where
    untouched : w' ≡ w → Confined w w'
    made :
        (path : Parts)
        → relative_to path base ≡ true
        → w' ≡ (files.make_dirs w (parent path)).1
        → Confined w w'
    wrote :
        (path : Parts) (text : String)
        → relative_to path base ≡ true
        → w' ≡ (files.write_text (files.make_dirs w (parent path)).1 path text).1
        → Confined w w'
    unlinked :
        (path : Parts) → relative_to path base ≡ true → w' ≡ (files.unlink w path).1 → Confined w w'
    removed :
        (path : Parts) → relative_to path base ≡ true → w' ≡ (files.rmtree w path).1 → Confined w w'

  module _ (messages : Messages) (w : World) (path : Parts)
      (inside : relative_to path base ≡ true) where
    abbrev below : World
    below = (files.make_dirs w (parent path)).1

    write_value-Confined :
        (w' : World)
        → below ≡ w'
        → (content : Value) → Confined w (write_value files messages path content w').1
    unfolding write_value
    write_value-Confined w' e (str text) =
        wrote path text inside (ap (λ x. (files.write_text x path text).1) (sym e))
    write_value-Confined w' e _ = made path inside (sym e)

    write-Confined : (content : Value) → Confined w (write files messages path content w).1
    unfolding write
    write-Confined content = elim (Option-cases (files.make_dirs w (parent path)).0) [
      | inl fine ↦
          subst (Confined w) (ground (arith, fine)) (write_value-Confined below refl content)
      | inr (text, e) ↦ made path inside (ground (arith, e))
    ]

    delete-Confined : Confined w (delete files messages path w).1
    unfolding delete
    delete-Confined = elim (Bool-cases (files.exists w path)) [
      | inr missing ↦ untouched (ground (arith, missing))
      | inl there ↦ elim (Bool-cases (files.is_file w path)) [
        | inl file ↦ unlinked path inside (ground (arith, there, file))
        | inr other ↦ elim (Bool-cases (files.is_dir w path)) [
          | inl dir ↦ removed path inside (ground (arith, there, other, dir))
          | inr neither ↦ untouched (ground (arith, there, other, neither))
        ]
      ]
    ]

    content-Confined :
        (content : Option Value) → Confined w (write_content files messages content path w).1
    unfolding write_content
    content-Confined none = untouched refl
    content-Confined (some null) = untouched refl
    content-Confined (some content) = write-Confined content

    dispatch-Confined :
        (operation : Value) (content : Option Value)
        → Confined w (dispatch files messages operation content path w).1
    unfolding dispatch
    dispatch-Confined operation content = elim (Bool-cases (is_text "read" operation)) [
      | inl reads ↦ untouched (ground (arith, reads))
      | inr not_read ↦ elim (Bool-cases (is_text "write" operation)) [
        | inl writes ↦
            subst (Confined w) (ground (arith, not_read, writes)) (content-Confined content)
        | inr not_write ↦ elim (Bool-cases (is_text "list" operation)) [
          | inl lists ↦ untouched (ground (arith, not_read, not_write, lists))
          | inr not_list ↦ elim (Bool-cases (is_text "delete" operation)) [
            | inl deletes ↦
                subst (Confined w) (ground (arith, not_read, not_write, not_list, deletes))
                  (unfold delete in delete-Confined)
            | inr none_of ↦ untouched (ground (arith, not_read, not_write, not_list, none_of))
          ]
        ]
      ]
    ]

-- `execute` on the path as it is resolved.
abbrev on_target :
    {World : Type 0}
    → Files World
    → Messages
    → Parts
    → ToolCall
    → World
    → String
    → Fallible Parts
    → Outcome × World
on_target files messages base call w path r = elim r [
  | exception e ↦ (raised e, w)
  | value target ↦
      if not (relative_to target base)
      then (raised (concat ("Path '" ∷ path ∷ "' attempts to escape sandbox" ∷ [])), w)
      else dispatch files messages (operation_of (lookup "operation" call.parameters))
          (lookup "content" call.parameters) target w
]

target-Confined :
    {World : Type 0} (files : Files World) (messages : Messages) (base : Parts) (call : ToolCall)
    (w : World) (path : String) (r : Fallible Parts)
    → Confined files base w (on_target files messages base call w path r).1
target-Confined files messages base call w path (exception e) = untouched refl
target-Confined files messages base call w path (value target) =
    elim (Bool-cases (relative_to target base)) [
      | inr outside ↦ untouched (ground (arith, outside))
      | inl inside ↦ rw inside (dispatch-Confined files base messages w target inside _ _)
    ]

-- `execute` on the value of the path.
abbrev on_value :
    {World : Type 0} → Files World → Messages → Parts → ToolCall → World → Value → Outcome × World
on_value files messages base call w (str path) =
    on_target files messages base call w path (files.resolve w base path)
on_value files messages base call w v = (raised (messages.no_path v), w)

value-Confined :
    {World : Type 0} (files : Files World) (messages : Messages) (base : Parts) (call : ToolCall)
    (w : World) (v : Value)
    → Confined files base w (on_value files messages base call w v).1
value-Confined files messages base call w (str path) =
    target-Confined files messages base call w path (files.resolve w base path)
value-Confined files messages base call w _ = untouched refl

-- A call of the adapter leaves the world as it is, or changes it for a path that is the base path or below
-- it: by making the directories above that path, by a write at it once they are made, or by removing it.
pub execute-Confined :
    {World : Type 0} (files : Files World) (messages : Messages) (base : Parts) (call : ToolCall)
    (w : World)
    → Confined files base w (execute files messages base call w).1
unfolding execute
execute-Confined files messages base call w = elim (Option-cases (lookup "path" call.parameters)) [
  | inl missing ↦ untouched (ground (arith, missing))
  | inr (v, e) ↦ elim (Bool-cases (is_true v)) [
    | inr empty ↦ untouched (ground (arith, e, empty))
    | inl given ↦
        subst (Confined files base w) (ground (arith, e, given))
          (value-Confined files messages base call w v)
  ]
]

normalize_call-kept :
    (call : ToolCall) (v : Value)
    → call.tool ≡ "read_file"
    → lookup "operation" call.parameters ≡ some v
    → normalize_call call ≡ call
unfolding normalize_call set_default
normalize_call-kept call v tool e = ground (arith, e, tool, eq_refl "read_file")

file_tool-read : (tool : String) → tool ≡ "read_file" → member tool file_tools ≡ true
unfolding member ◌==◌
file_tool-read tool e = rw e refl

read_file-adapter : (env : Env) → is_some (lookup "read_file" (tool_broker env)) ≡ true
unfolding lookup tool_broker register_adapter insert ◌==◌
read_file-adapter env = refl

execute_direct-trace :
    (adapters : Adapters) (call : ToolCall) (context : ExecutionContext) (trace : Trace)
    → is_some (lookup call.tool adapters) ≡ true
    → (execute_direct adapters call context trace).1 ≡ call ∷ trace
unfolding execute_direct
execute_direct-trace adapters call context trace h = ground (arith, h)

execute_tool-reads :
    (env : Env) (request : ActionRequest) (id : Uuid) (level : RiskLevel) (trace : Trace)
    → (normalize_call request.call).tool ≡ "read_file"
    → (execute_tool env request allow id level trace).1 ≡ normalize_call request.call ∷ trace
unfolding execute_tool Broker.execute
execute_tool-reads env request id level trace tool =
    execute_direct-trace (tool_broker env) (normalize_call request.call) _ trace
      (rw tool (read_file-adapter env))

module _ {World : Type 0} (files : Files World) (messages : Messages) (base : Parts) where
  world_after-read_file :
      (start : World) (call : ToolCall) (trace : Trace)
      → call.tool ≡ "read_file"
      → world_after files messages base start (call ∷ trace)
        ≡ (execute files messages base call (world_after files messages base start trace)).1
  unfolding world_after
  world_after-read_file start call trace tool = ground (arith, file_tool-read call.tool tool)

  execute-deletes :
      (call : ToolCall) (path : String) (target : Parts) (w : World)
      → lookup "operation" call.parameters ≡ some (str "delete")
      → lookup "path" call.parameters ≡ some (str path)
      → (path == "") ≡ false
      → files.resolve w base path ≡ value target
      → relative_to target base ≡ true
      → files.exists w target ≡ true
      → files.is_file w target ≡ true
      → (execute files messages base call w).1 ≡ (files.unlink w target).1
  unfolding execute dispatch delete ◌==◌
  execute-deletes call path target w operation at named resolved inside there file =
      ground (arith, operation, at, named, resolved, inside, there, file)

-- A call of read_file keeps the operation that the agent wrote into its parameters. With the operation
-- "delete" and the path of a file below the base path, an allowed execution of it removes that file.
pub execute_tool-read_file_deletes :
    {World : Type 0} (files : Files World) (messages : Messages) (base : Parts) (start : World)
    (env : Env) (request : ActionRequest) (id : Uuid) (level : RiskLevel) (trace : Trace)
    (path : String) (target : Parts)
    → request.call.tool ≡ "read_file"
    → lookup "operation" request.call.parameters ≡ some (str "delete")
    → lookup "path" request.call.parameters ≡ some (str path)
    → (path == "") ≡ false
    → let w = world_after files messages base start trace in
      files.resolve w base path ≡ value target
      → relative_to target base ≡ true
      → files.exists w target ≡ true
      → files.is_file w target ≡ true
      → world_after files messages base start (execute_tool env request allow id level trace).1
        ≡ (files.unlink w target).1
execute_tool-read_file_deletes files messages base start env request id level trace path target tool
      operation at named resolved inside there file =
    let kept = normalize_call-kept request.call (str "delete") tool operation in
    let trace' =
      execute_tool-reads env request id level trace (ap (λ (c : ToolCall). c.tool) kept ∙ tool)
      ∙ ap (λ c. c ∷ trace) kept in
    ap (world_after files messages base start) trace'
    ∙ world_after-read_file files messages base start request.call trace tool
    ∙ execute-deletes files messages base request.call path target
        (world_after files messages base start trace) operation at named resolved inside there file
