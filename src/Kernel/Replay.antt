-- ===== src/Kernel/Replay.antt =====
-- src/constrail/kernel_v2.py: `replay_approved`, and src/constrail/sandbox_records.py.
-- The new request's own identifiers and time, which nothing reads, are those of the `Reading`.
pub mod Laws
pub mod Repeats
use constrails.Prelude.{
  ℕ, String, Bool, true, false, not, ◌&&◌, Option, none, some, List, [], ◌∷◌, ◌++◌, ◌==◌,
  if◌then◌else◌, leb, lookup,
}
use constrails.Models.{
  Uuid, Time, bool, str, ActionRequest, ActionResponse, Decision, allow, sandbox, ToolResult,
}
use constrails.Policy.{evaluate}
use constrails.Risk.{assess}
use constrails.Approval.{ApprovalRequest, ApprovalDb, get_request}
use constrails.Audit.{AuditEntry}
use constrails.Kernel.{
  SandboxExecution, State, Env, Reading, execute_tool, sandbox_id_of, audit, respond,
}
use constrails.Kernel.Process.{assessed}

-- Why a replay is refused. `not_found` is the exception of a query for a row that is not there.
pub data Refusal : Type 0 where
  not_found not_approved expired : Refusal

pub data ReplayReply : Type 0 where
  refused : Refusal → ReplayReply
  answered : ActionResponse → ReplayReply

-- `db.merge(row)`: the row of the same sandbox is replaced.
unfoldable pub merge : SandboxExecution → List SandboxExecution → List SandboxExecution
merge row [] = row ∷ []
merge row (old ∷ rows) =
    if old.sandbox_id == row.sandbox_id then row ∷ rows else old ∷ merge row rows

-- `SandboxExecutionService.get_execution`
unfoldable pub get_execution : String → List SandboxExecution → Option SandboxExecution
get_execution sandbox_id [] = none
get_execution sandbox_id (row ∷ rows) =
    if row.sandbox_id == sandbox_id then some row else get_execution sandbox_id rows

abbrev pub is_expired : Time → Option Time → Bool
is_expired now none = false
is_expired now (some t) = leb t now

abbrev pub is_true : Option Bool → Bool
is_true none = false
is_true (some b) = b

module _ (env : Env) (rd : Reading) where
  unfoldable pub replay_request : ApprovalRequest → ActionRequest
  replay_request approval = record {
    agent = record {
      agent_id = approval.agent_id;
      tenant_id = none;
      namespace = none;
      session_id = none;
      capability_hash = none;
      trust_level = 0x3FE999999999999A;
    };
    call = record {
      tool = approval.tool;
      parameters = approval.parameters;
      call_id = rd.request_id;
    };
    context = record {
      auth = none;
      entries =
          ("approval_replay", bool true)
          ∷ ("approval_id", str (env.uuid_text approval.approval_id))
          ∷ [];
    };
    request_id = rd.request_id;
    timestamp = rd.now;
  }

  abbrev pub forced_decision : ApprovalRequest → Decision
  forced_decision approval = if approval.tool == "exec" then sandbox else allow

  unfoldable pub record_execution :
      Uuid → ActionRequest → ToolResult → Option String → State → State
  record_execution approval_id request result error st = elim (sandbox_id_of result) [
    | none ↦ st
    | some id ↦ if id == "" then st else record st {
      sandboxes =
          merge
            (record {
              sandbox_id = id;
              request_id = rd.request_id;
              approval_id = some approval_id;
              agent_id = request.agent.agent_id;
              tool = request.call.tool;
              parameters = request.call.parameters;
              executor = lookup "sandbox_executor" result.metadata;
              completed = result.success;
              result = some result;
              error = error;
              created_at = rd.now;
              duration_ms = rd.duration_ms;
            })
            st.sandboxes;
    }
  ]

  -- The part behind the checks.
  unfoldable pub run_approved : Uuid → ApprovalRequest → State → ReplayReply × State
  run_approved approval_id approval st =
      let request = replay_request approval in
      let a = assessed env rd request st in
      let decision = forced_decision approval in
      let (result, trace') =
        execute_tool env request decision rd.request_id a.risk.level st.trace in
      let sandbox_id = sandbox_id_of result in
      let error = if result.success then none else result.error in
      let entry : AuditEntry = record {
        request_id = rd.request_id;
        risk = a.risk;
        policy = a.policy;
        final_decision = decision;
        execution_result = some result;
        error = error;
        sandbox_id = sandbox_id;
        duration_ms = rd.duration_ms;
        approval_id = some approval_id;
        approver_id = approval.approver_id;
        replayed_from_approval_id = some approval_id;
      } in
      (
        answered (respond rd allow (some result) error (some approval_id) none sandbox_id),
        audit env rd request entry
            (record_execution approval_id request result error (record st { trace = trace' })),
      )

  unfoldable pub replay_approved : Uuid → State → ReplayReply × State
  replay_approved approval_id st = elim (get_request approval_id st.approvals) [
    | none ↦ (refused not_found, st)
    | some approval ↦
        if not (is_true approval.approved)
        then (refused not_approved, st)
        else if is_expired rd.now approval.expires_at
        then (refused expired, st)
        else run_approved approval_id approval st
  ]
