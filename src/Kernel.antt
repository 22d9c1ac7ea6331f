-- ===== src/Kernel.antt =====
-- src/constrail/kernel_v2.py: the life of a request.
-- What a request meets outside the program stands in an `Env` (settings, files, adapters, receivers,
-- formatting) and in a `Reading` (new identifiers, the clock, the reply of the policy server).
-- A result `none` is an exception that leaves the method.
pub mod Process
pub mod Replay
pub mod Decisions
pub mod Execution
pub mod Trail
pub mod Gates
pub mod Refused
use constrails.Prelude.{
  ℕ, String, Bool, true, false, not, ◌&&◌, ◌||◌, Option, none, some, List, [], ◌∷◌, ◌++◌, ◌==◌,
  if◌then◌else◌, lookup, insert, member, concat, show,
}
use constrails.Models.{
  Uuid, Time, Value, str, Dict, AgentIdentity, ToolCall, ActionRequest, ActionResponse, RiskLevel,
  low, medium, high, critical, Decision, allow, deny, approval_required, sandbox, quarantine,
  ToolResult, RiskAssessment, PolicyEvaluation,
}
use constrails.Config.{Settings}
use constrails.Policy.{OpaReply}
use constrails.Capability.{Manifests}
use constrails.Audit.{AuditPayload, AuditRecord, AuditEntry, log_audit}
use constrails.Risk.{Floats, Profile}
use constrails.RateLimits.{QuotaEvent, QuotaResult, record_and_check}
use constrails.Approval.{ApprovalDb, Net}
use constrails.Sandbox.{Host}
use constrails.Broker
use constrails.Broker.{Adapter, Adapters, ExecutionContext, Trace, register_adapter}

-- A row of the table of sandbox executions.
pub record SandboxExecution : Type 0 where
  pub sandbox_id : String
  pub request_id : Uuid
  pub approval_id : Option Uuid
  pub agent_id : String
  pub tool : String
  pub parameters : Dict
  pub executor : Option Value
  pub completed : Bool
  pub result : Option ToolResult
  pub error : Option String
  pub created_at : Time
  pub duration_ms : ℕ

pub record State : Type 0 where
  pub audit : List AuditRecord
  pub approvals : ApprovalDb
  pub quota : List QuotaEvent
  pub sandboxes : List SandboxExecution
  pub trace : Trace

pub record Env : Type 0 where
  pub settings : Settings
  pub host : Host
  pub manifests : Manifests
  pub profiles : List (String × Profile)
  pub floats : Floats
  pub digest : AuditPayload → String
  pub net : Net
  pub filesystem : Adapter
  pub http : Adapter
  pub exec : Adapter
  pub text_of : Value → String
  pub uuid_text : Uuid → String
  pub hostname : String → Option (Option String)

pub record Reading : Type 0 where
  pub request_id : Uuid
  pub now : Time
  pub duration_ms : ℕ
  pub approval_id : Uuid
  pub outbox_id : Uuid
  pub opa : OpaReply
  pub audit_up : Bool

unfoldable pub determine_final_decision : Settings → String → Decision → RiskLevel → Decision
determine_final_decision settings tool policy_decision risk_level =
    let gated = member tool ("http_request" ∷ "write_file" ∷ "delete_file" ∷ []) in
    let is_exec = tool == "exec" in
    if elim policy_decision [ allow ↦ elim risk_level [ critical ↦ true | _ ↦ false ] | _ ↦ false ]
    then approval_required
    else if elim policy_decision [ sandbox ↦ settings.sandbox_type == "none" | _ ↦ false ]
    then approval_required
    else if gated
    then approval_required
    else if is_exec
    then approval_required
    else policy_decision

-- The broker that `_execute_tool` builds when it is first needed.
unfoldable pub tool_broker : Env → Adapters
tool_broker env = register_adapter "exec" env.exec (
    register_adapter "http_request" env.http (
      register_adapter "list_directory" env.filesystem (
        register_adapter "delete_file" env.filesystem (
          register_adapter "write_file" env.filesystem
            (register_adapter "read_file" env.filesystem [])))))

unfoldable pub set_default : String → Value → Dict → Dict
set_default k v m = elim (lookup k m) [ none ↦ m ++ (k, v) ∷ [] | some w ↦ m ]

unfoldable pub normalize_call : ToolCall → ToolCall
normalize_call call =
    let with_operation : String → ToolCall =
      λ o. record call { parameters = set_default "operation" (str o) call.parameters } in
    if call.tool == "read_file"
    then with_operation "read"
    else if call.tool == "write_file"
    then with_operation "write"
    else if call.tool == "delete_file"
    then with_operation "delete"
    else if call.tool == "list_directory"
    then with_operation "list"
    else call

abbrev pub level_text : RiskLevel → String
level_text low = "low"
level_text medium = "medium"
level_text high = "high"
level_text critical = "critical"

-- `_execute_tool`: the result, and the calls that adapters were given.
unfoldable pub execute_tool :
    Env → ActionRequest → Decision → Uuid → RiskLevel → Trace → ToolResult × Trace
execute_tool env request decision request_id level trace =
    Broker.execute env.settings env.host (tool_broker env) (normalize_call request.call)
      (record {
        agent = request.agent;
        decision = decision;
        risk_level = level_text level;
        request_id = env.uuid_text request_id;
      })
      trace

-- `metadata.get("sandbox_id")`; what the adapters put there is a text.
unfoldable pub sandbox_id_of : ToolResult → Option String
sandbox_id_of result = elim (lookup "sandbox_id" result.metadata) [
  | some v ↦ elim v [ str s ↦ some s | _ ↦ none ]
  | none ↦ none
]

-- `_rate_limit_exceeded`: what the service answered, if it was asked, and the events.
unfoldable pub rate_limit :
    Settings → Time → ActionRequest → List QuotaEvent → Option QuotaResult × List QuotaEvent
rate_limit settings now request events =
    if not settings.anomaly_detection_enabled
    then (none, events)
    else (let (result, events') =
          record_and_check settings now request.agent.agent_id request.agent.tenant_id
            request.call.tool "action" events in
        (some result, events'))

abbrev pub exceeded : Option QuotaResult → Bool
exceeded none = false
exceeded (some q) = q.blocked

unfoldable pub quota_error_message : Option QuotaResult → String
quota_error_message none = "Rate limit exceeded"
quota_error_message (some q) = concat (
    "Rate limit exceeded ("
    ∷ q.threshold_scope
    ∷ " threshold "
    ∷ show q.effective_threshold
    ∷ ", agent_count="
    ∷ show q.agent_count
    ∷ ", tool_count="
    ∷ show q.tool_count
    ∷ ")"
    ∷ [])

-- The decision that replaces the kernel's when the quota is used up.
unfoldable pub limited_decision : Settings → Decision
limited_decision settings =
    let mode = settings.rate_limit_enforcement_mode in
    if mode == "approval_required"
    then approval_required
    else if mode == "sandbox"
    then sandbox
    else quarantine

-- What a step of the life of a request gives: a response or an exception, and the state.
abbrev pub Reply : Type 0
Reply = Option ActionResponse × State

-- What `process` knows of a request before it decides.
pub record Assessed : Type 0 where
  pub risk : RiskAssessment
  pub policy : PolicyEvaluation

abbrev pub entry_of :
    Reading
    → Assessed
    → Decision
    → Option ToolResult
    → Option String
    → Option String
    → Option Uuid
    → AuditEntry
entry_of rd a decision result error sandbox_id approval_id = record {
  request_id = rd.request_id;
  risk = a.risk;
  policy = a.policy;
  final_decision = decision;
  execution_result = result;
  error = error;
  sandbox_id = sandbox_id;
  duration_ms = rd.duration_ms;
  approval_id = approval_id;
  approver_id = none;
  replayed_from_approval_id = none;
}

-- Write the audit row of an entry.
unfoldable pub audit : Env → Reading → ActionRequest → AuditEntry → State → State
audit env rd request entry st = record st {
  audit = log_audit env.digest rd.audit_up rd.now request entry st.audit;
}

abbrev pub respond :
    Reading
    → Decision
    → Option ToolResult
    → Option String
    → Option Uuid
    → Option Uuid
    → Option String
    → ActionResponse
respond rd decision result error approval_id approval_url sandbox_id = record {
  request_id = rd.request_id;
  decision = decision;
  result = result;
  error = error;
  approval_id = approval_id;
  approval_url = approval_url;
  sandbox_id = sandbox_id;
}
