-- ===== src/Adapters/Exec.antt =====
-- src/constrail/adapters/exec.py: the adapter for shell commands.
-- The executor is a parameter, a function of the four arguments that it is given.
use constrails.Prelude.{
  zero, suc, ℤ, pos, negsuc, show, String, Bool, true, false, not, ◌&&◌, Option, none, some, [],
  ◌∷◌, ◌≡◌, ◌↔◌, ◌⊎◌, refl, arith, if◌then◌else◌, lookup, concat, Option-cases, Bool-cases, inl,
  inr,
}
use constrails.Models.{
  Value, null, bool, int, str, obj, field, end, ToolCall, ToolResult, success, error, blocked,
  timeout,
}
use constrails.Capability.{is_true}

pub record SandboxExecutionResult : Type 0 where
  pub sandbox_id : String
  pub exit_code : Option ℤ
  pub stdout : String
  pub stderr : String
  pub timeout : Bool
  pub executor : String

-- How `sandbox_executor.execute` ended: a result, or an exception with its text.
pub data Execution : Type 0 where
  ran : SandboxExecutionResult → Execution
  failed : String → Execution

-- The executor, by what it makes of a command, a directory, an environment and a time limit.
abbrev pub SandboxExecutor : Type 0
SandboxExecutor = Value → Option Value → Option Value → Option Value → Execution

abbrev or_none : Option ℤ → Value
or_none none = null
or_none (some n) = int n

unfoldable pub to_dict : SandboxExecutionResult → Value
to_dict r = obj (
    field "sandbox_id" (str r.sandbox_id) (
      field "exit_code" (or_none r.exit_code) (
        field "stdout" (str r.stdout) (
          field "stderr" (str r.stderr)
            (field "timeout" (bool r.timeout) (field "executor" (str r.executor) end))))))

abbrev exited_with_zero : Option ℤ → Bool
exited_with_zero none = false
exited_with_zero (some (pos zero)) = true
exited_with_zero (some _) = false

-- `result.exit_code == 0 and not result.timeout`
abbrev pub succeeded : SandboxExecutionResult → Bool
succeeded r = exited_with_zero r.exit_code && not r.timeout

abbrev failure : String → ToolResult
failure message = record {
  success = false;
  error = some message;
  payload = some (obj end);
  metadata = [];
  status = error;
}

-- `str(result.exit_code)`
abbrev code_text : Option ℤ → String
code_text none = "None"
code_text (some (pos n)) = show n
code_text (some (negsuc n)) = concat ("-" ∷ show (suc n) ∷ [])

unfoldable pub result_of : SandboxExecutionResult → ToolResult
unfolding to_dict
result_of r = record {
  success = succeeded r;
  error =
      if succeeded r
      then none
      else if r.timeout
      then some (concat ("Command timed out in sandbox " ∷ r.sandbox_id ∷ []))
      else some (
          concat (
            "Command failed with exit code "
            ∷ code_text r.exit_code
            ∷ " in sandbox "
            ∷ r.sandbox_id
            ∷ []));
  payload = some (to_dict r);
  metadata = ("sandbox_id", str r.sandbox_id) ∷ ("sandbox_executor", str r.executor) ∷ [];
  status = if succeeded r then success else if r.timeout then timeout else error;
}

unfoldable pub execute : Option SandboxExecutor → Bool → ToolCall → ToolResult
execute sandbox_executor allow_unsandboxed call =
    let get : String → Option Value = λ name. lookup name call.parameters in
    elim (lookup "command" call.parameters) [
      | none ↦ failure "Missing required parameter 'command'"
      | some command ↦
          if not (is_true command)
          then failure "Missing required parameter 'command'"
          else elim sandbox_executor [
            | some run ↦ elim (run command (get "cwd") (get "env") (get "timeout")) [
              | ran r ↦ result_of r
              | failed e ↦ failure (concat ("Unexpected error: " ∷ e ∷ []))
            ]
            | none ↦
                if not allow_unsandboxed
                then record {
                  success = false;
                  error =
                      some
                        "Unsandboxed exec is disabled; configure a sandbox executor or explicitly opt into unsandboxed execution";
                  payload = some (obj (field "sandbox_required" (bool true) end));
                  metadata = [];
                  status = blocked;
                }
                else failure "Unsandboxed execution path is not enabled in this build"
          ]
    ]

-- The call ran in an executor, which reported exit code 0 and no timeout.
pub record Clean (sandbox_executor : Option SandboxExecutor) (call : ToolCall) : Type 0 where
  pub run : SandboxExecutor
  pub command : Value
  pub result : SandboxExecutionResult
  pub configured : sandbox_executor ≡ some run
  pub given : lookup "command" call.parameters ≡ some command
  pub named : is_true command ≡ true
  pub ended :
      run command
        (lookup "cwd" call.parameters)
        (lookup "env" call.parameters)
        (lookup "timeout" call.parameters)
      ≡ ran result
  pub exit_code : result.exit_code ≡ some (pos 0)
  pub in_time : result.timeout ≡ false

zero_exit : (code : Option ℤ) → exited_with_zero code ≡ true → code ≡ some (pos 0)
zero_exit none h = ground arith
zero_exit (some (pos zero)) h = refl
zero_exit (some (pos (suc n))) h = ground arith
zero_exit (some (negsuc n)) h = ground arith

Execution-cases :
    (e : Execution)
    → ((r : SandboxExecutionResult) × (e ≡ ran r)) ⊎ ((text : String) × (e ≡ failed text))
Execution-cases (ran r) = inl (r, refl)
Execution-cases (failed text) = inr (text, refl)

execute-Clean :
    (sandbox_executor : Option SandboxExecutor) (allow_unsandboxed : Bool) (call : ToolCall)
    → (execute sandbox_executor allow_unsandboxed call).success ≡ true
    → Clean sandbox_executor call
unfolding execute result_of
execute-Clean none allow_unsandboxed call h =
    elim (Option-cases (lookup "command" call.parameters)) [
      | inl missing ↦ absurd (ground (arith, h, missing))
      | inr (c, e) ↦ absurd (ground (arith, h, e))
    ]
execute-Clean (some run) allow_unsandboxed call h =
    elim (Option-cases (lookup "command" call.parameters)) [
      | inl missing ↦ absurd (ground (arith, h, missing))
      | inr (c, e) ↦ elim (Bool-cases (is_true c)) [
        | inr empty ↦ absurd (ground (arith, h, e, empty))
        | inl named ↦
            elim (Execution-cases (
              run c (lookup "cwd" call.parameters) (lookup "env" call.parameters)
                (lookup "timeout" call.parameters))) [
                  | inr (text, f) ↦ absurd (ground (arith, h, e, named, f))
                  | inl (r, f) ↦ record {
                    run = run;
                    command = c;
                    result = r;
                    configured = refl;
                    given = e;
                    named = named;
                    ended = f;
                    exit_code = zero_exit r.exit_code (ground (arith, h, e, named, f));
                    in_time = ground (arith, h, e, named, f);
                  }
                ]
      ]
    ]

Clean-execute :
    (sandbox_executor : Option SandboxExecutor) (allow_unsandboxed : Bool) (call : ToolCall)
    → Clean sandbox_executor call
    → (execute sandbox_executor allow_unsandboxed call).success ≡ true
unfolding execute result_of
Clean-execute sandbox_executor allow_unsandboxed call c =
    ground (arith, c.configured, c.given, c.named, c.ended, c.exit_code, c.in_time)

-- The adapter reports success exactly if there is an executor, the call has a command, and the executor
-- ran it with the directory, the environment and the time limit of the call to the exit code 0, in time.
pub execute-success_iff :
    (sandbox_executor : Option SandboxExecutor) (allow_unsandboxed : Bool) (call : ToolCall)
    → ((execute sandbox_executor allow_unsandboxed call).success ≡ true)
      ↔ Clean sandbox_executor call
execute-success_iff sandbox_executor allow_unsandboxed call = (
  execute-Clean sandbox_executor allow_unsandboxed call,
  Clean-execute sandbox_executor allow_unsandboxed call,
)
