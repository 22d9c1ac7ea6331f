-- ===== src/Audit.antt =====
-- The audit trail: `_log_audit` and `_compute_audit_chain_hash` of src/constrail/kernel_v2.py, the table
-- of src/constrail/database.py, and src/constrail/audit_verify.py and audit_checkpoint.py.
-- The hash of a payload, SHA-256 of its sorted JSON, is the parameter `digest`.
pub mod Verify
pub mod Laws
pub mod Evidence
use constrails.Prelude.{
  ℕ, String, Bool, true, false, not, Option, none, some, List, [], ◌∷◌, ◌++◌, if◌then◌else◌, leb,
  opt_eq, ◌+◌, length, last, sort_by,
}
use constrails.Models.{
  Uuid, Time, Float, Dict, AuthContext, ActionRequest, RiskLevel, Decision, RiskAssessment,
  PolicyEvaluation, ToolResult,
}

-- The dictionary that is hashed.
pub record AuditPayload : Type 0 where
  pub prev_hash : Option String
  pub request_id : Uuid
  pub agent_id : String
  pub tool : String
  pub parameters : Dict
  pub risk_score : Float
  pub risk_level : RiskLevel
  pub policy_decision : Decision
  pub final_decision : Decision
  pub approval_id : Option Uuid
  pub replayed_from_approval_id : Option Uuid
  pub sandbox_id : Option String
  pub error : Option String
  pub auth_type : Option String
  pub auth_subject : Option String
  pub auth_token_id : Option String
  pub auth_key_id : Option String

pub record AuditRecord : Type 0 where
  pub request_id : Uuid
  pub agent_id : String
  pub tool : String
  pub parameters : Dict
  pub risk_score : Float
  pub risk_level : RiskLevel
  pub policy_decision : Decision
  pub final_decision : Decision
  pub approver_id : Option String
  pub approval_id : Option Uuid
  pub replayed_from_approval_id : Option Uuid
  pub auth_type : Option String
  pub auth_subject : Option String
  pub auth_token_id : Option String
  pub auth_key_id : Option String
  pub chain_prev_hash : Option String
  pub chain_hash : Option String
  pub sandbox_id : Option String
  pub execution_result : Option ToolResult
  pub error : Option String
  pub start_time : Time
  pub duration_ms : ℕ

-- The arguments of `_log_audit` behind the request.
pub record AuditEntry : Type 0 where
  pub request_id : Uuid
  pub risk : RiskAssessment
  pub policy : PolicyEvaluation
  pub final_decision : Decision
  pub execution_result : Option ToolResult
  pub error : Option String
  pub sandbox_id : Option String
  pub duration_ms : ℕ
  pub approval_id : Option Uuid
  pub approver_id : Option String
  pub replayed_from_approval_id : Option Uuid

-- `auth_context.get(…)`, on the empty dictionary where the context has no entry "auth".
abbrev no_auth : AuthContext
no_auth = record {
  auth_type = none;
  auth_subject = none;
  auth_token_id = none;
  auth_key_id = none;
  role = none;
}

abbrev auth_of : Option AuthContext → AuthContext
auth_of none = no_auth
auth_of (some a) = a

unfoldable pub by_start : AuditRecord → AuditRecord → Bool
by_start a b = leb a.start_time b.start_time

unfoldable pub hash_of : Option AuditRecord → Option String
hash_of none = none
hash_of (some r) = r.chain_hash

module _ (digest : AuditPayload → String) where
  -- `_compute_audit_chain_hash` of the kernel
  unfoldable pub compute_audit_chain_hash : Option String → ActionRequest → AuditEntry → String
  compute_audit_chain_hash prev request entry =
      let auth = auth_of request.context.auth in
      digest (record {
        prev_hash = prev;
        request_id = entry.request_id;
        agent_id = request.agent.agent_id;
        tool = request.call.tool;
        parameters = request.call.parameters;
        risk_score = entry.risk.score;
        risk_level = entry.risk.level;
        policy_decision = entry.policy.decision;
        final_decision = entry.final_decision;
        approval_id = entry.approval_id;
        replayed_from_approval_id = entry.replayed_from_approval_id;
        sandbox_id = entry.sandbox_id;
        error = entry.error;
        auth_type = auth.auth_type;
        auth_subject = auth.auth_subject;
        auth_token_id = auth.auth_token_id;
        auth_key_id = auth.auth_key_id;
      })

  unfoldable pub audit_record : Option String → Time → ActionRequest → AuditEntry → AuditRecord
  unfolding compute_audit_chain_hash
  audit_record prev now request entry =
      let auth = auth_of request.context.auth in
      record {
        request_id = entry.request_id;
        agent_id = request.agent.agent_id;
        tool = request.call.tool;
        parameters = request.call.parameters;
        risk_score = entry.risk.score;
        risk_level = entry.risk.level;
        policy_decision = entry.policy.decision;
        final_decision = entry.final_decision;
        approver_id = entry.approver_id;
        approval_id = entry.approval_id;
        replayed_from_approval_id = entry.replayed_from_approval_id;
        auth_type = auth.auth_type;
        auth_subject = auth.auth_subject;
        auth_token_id = auth.auth_token_id;
        auth_key_id = auth.auth_key_id;
        chain_prev_hash = prev;
        chain_hash = some (compute_audit_chain_hash prev request entry);
        sandbox_id = entry.sandbox_id;
        execution_result = entry.execution_result;
        error = entry.error;
        start_time = now;
        duration_ms = entry.duration_ms;
      }

  -- `_log_audit`: a failure of the database is reported and the row dropped.
  unfoldable pub log_audit :
      Bool → Time → ActionRequest → AuditEntry → List AuditRecord → List AuditRecord
  log_audit db_up now request entry rows =
      let prev = hash_of (last (sort_by by_start rows)) in
      if db_up then rows ++ audit_record prev now request entry ∷ [] else rows

  -- `AuditVerifier._compute_hash`
  unfoldable pub payload_of : Option String → AuditRecord → AuditPayload
  payload_of prev row = record {
    prev_hash = prev;
    request_id = row.request_id;
    agent_id = row.agent_id;
    tool = row.tool;
    parameters = row.parameters;
    risk_score = row.risk_score;
    risk_level = row.risk_level;
    policy_decision = row.policy_decision;
    final_decision = row.final_decision;
    approval_id = row.approval_id;
    replayed_from_approval_id = row.replayed_from_approval_id;
    sandbox_id = row.sandbox_id;
    error = row.error;
    auth_type = row.auth_type;
    auth_subject = row.auth_subject;
    auth_token_id = row.auth_token_id;
    auth_key_id = row.auth_key_id;
  }

  unfoldable pub compute_hash : AuditRecord → Option String → String
  compute_hash row prev = digest (payload_of prev row)
