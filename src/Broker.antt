-- ===== src/Broker.antt =====
-- src/constrail/tool_broker/broker.py: the modes of execution.
-- The outside world is reached through the adapters. What an adapter does is the parameter `outcome`, a
-- function of the calls that were handed to adapters so far; a list of these calls is the trace.
pub mod Laws
use constrails.Prelude.{
  ℕ, String, Bool, true, false, not, ◌&&◌, ◌||◌, Option, none, some, List, [], ◌∷◌, ◌++◌, map, ◌==◌,
  if◌then◌else◌, lookup, insert, concat, member,
}
use constrails.Models.{
  Value, null, bool, str, obj, field, end, Dict, AgentIdentity, ToolCall, ToolResult,
  ToolResultStatus, success, error, blocked, timeout, Decision, allow, deny, approval_required,
  sandbox, quarantine, Uuid,
}
use constrails.Config.{Settings}
use constrails.Sandbox.{Host, enforce_sandbox_posture}

-- How `adapter.execute` ended: a result, or an exception with its text.
pub data Outcome : Type 0 where
  returned : ToolResult → Outcome
  raised : String → Outcome

-- The calls that adapters were given, the last first.
abbrev pub Trace : Type 0
Trace = List ToolCall

-- An adapter, by what it does with a call after some calls.
abbrev pub Adapter : Type 0
Adapter = Trace → ToolCall → Outcome

abbrev pub Adapters : Type 0
Adapters = List (String × Adapter)

-- `request_id` is the text that the kernel made of its identifier.
pub record ExecutionContext : Type 0 where
  pub agent : AgentIdentity
  pub decision : Decision
  pub risk_level : String
  pub request_id : String

unfoldable pub failure : String → Option Value → Dict → ToolResult
failure message payload metadata = record {
  success = false;
  error = some message;
  payload = payload;
  metadata = metadata;
  status = success;
}

abbrev decision_data : String → Dict
decision_data d = ("decision", str d) ∷ []

abbrev or_null : Option Value → Value
or_null none = null
or_null (some v) = v

unfoldable pub register_adapter : String → Adapter → Adapters → Adapters
register_adapter tool_name adapter adapters = insert tool_name adapter adapters

-- `{**metadata, "execution_mode": …, …}`
unfoldable pub with_context : ExecutionContext → ToolResult → ToolResult
with_context context result = record result {
  metadata = insert "sandbox_id" (or_null (lookup "sandbox_id" result.metadata)) (
      insert "agent_id" (str context.agent.agent_id) (
        insert "request_id" (str context.request_id)
          (insert "execution_mode" (str "direct") result.metadata)));
}

unfoldable pub execute_direct : Adapters → ToolCall → ExecutionContext → Trace → ToolResult × Trace
unfolding with_context
execute_direct adapters call context trace = elim (lookup call.tool adapters) [
  | none ↦ (
    failure (concat ("Tool '" ∷ call.tool ∷ "' not supported" ∷ [])) none
        (decision_data "no_adapter"),
    trace,
  )
  | some adapter ↦ (
    elim (adapter trace call) [
      | returned result ↦ with_context context result
      | raised e ↦
          failure (concat ("Tool execution failed: " ∷ e ∷ [])) none
            (decision_data "execution_error")
    ],
    call ∷ trace,
  )
]

abbrev pub set_mode : ToolResult → ToolResult
set_mode result = record result {
  metadata = insert "execution_mode" (str "sandbox") result.metadata;
}

unfoldable pub execute_sandbox :
    Settings → Host → Adapters → ToolCall → ExecutionContext → Trace → ToolResult × Trace
execute_sandbox settings host adapters call context trace =
    elim (enforce_sandbox_posture settings host
      (concat ("sandboxed tool '" ∷ call.tool ∷ "'" ∷ []))) [
        | some message ↦ (
          failure message
              (some (
                obj (
                  field "sandbox_strict_mode" (bool true)
                    (field "sandbox_required" (bool true) end))))
              (("decision", str "sandbox_blocked")
                ∷ ("request_id", str context.request_id)
                ∷ ("agent_id", str context.agent.agent_id)
                ∷ []),
          trace,
        )
        | none ↦
            let (result, trace') = execute_direct adapters call context trace in
            (set_mode result, trace')
      ]

unfoldable pub execute :
    Settings → Host → Adapters → ToolCall → ExecutionContext → Trace → ToolResult × Trace
execute settings host adapters call context trace = elim context.decision [
  | deny ↦ (failure "Tool execution denied by policy" none (decision_data "deny"), trace)
  | quarantine ↦ (failure "Agent quarantined" none (decision_data "quarantine"), trace)
  | approval_required ↦
      (failure "Approval required but not granted" none (decision_data "approval_required"), trace)
  | sandbox ↦ execute_sandbox settings host adapters call context trace
  | allow ↦ execute_direct adapters call context trace
]
