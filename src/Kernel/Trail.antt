-- ===== src/Kernel/Trail.antt =====
-- What `process` writes to the audit trail.
use constrails.Prelude.{
  String, Bool, true, false, ◌&&◌, List, [], ◌∷◌, ◌++◌, Option, none, some, ◌≡◌, inl, inr, refl,
  arith, last, sort_by, if◌then◌else◌, Bool-cases,
}
use constrails.Models.{
  Uuid, Decision, allow, deny, approval_required, sandbox, quarantine, low, ActionRequest,
  ActionResponse, ToolResult,
}
use constrails.Audit.{by_start, hash_of, AuditRecord, audit_record, log_audit}
use constrails.Approval.{ApprovalRequest, Sendable, get_request}
use constrails.Approval.Outbox.{new_request, create_request}
use constrails.Approval.Create.{create_request-some}
use constrails.Kernel.{
  State, Env, Reading, Reply, Assessed, audit, entry_of, respond, execute_tool, sandbox_id_of,
  determine_final_decision, rate_limit, exceeded, quota_error_message, limited_decision,
}
use constrails.Kernel.Execution.{permitted}
use constrails.Kernel.Process.{
  ask_approval, limit_branch, run_branch, decision_branch, assessed, decide_branch, after_check,
  process,
}

module _ (env : Env) (rd : Reading) (request : ActionRequest) where
  abbrev pub fresh : Assessed → ApprovalRequest
  fresh a =
      new_request env.settings env.net rd.now rd.approval_id rd.request_id request.agent.agent_id
        request.call.tool request.call.parameters a.risk.score a.risk.level a.policy

  -- One row was added, and it is about the request and says what the response says.
  pub record Logged (rows : List AuditRecord) (reply : Reply) : Type 0 where
    pub response : ActionResponse
    pub row : AuditRecord
    pub answered : reply.0 ≡ some response
    pub added : reply.1.audit ≡ rows ++ row ∷ []
    pub request_id : row.request_id ≡ response.request_id
    pub decision : row.final_decision ≡ response.decision
    pub agent : row.agent_id ≡ request.agent.agent_id
    pub tool : row.tool ≡ request.call.tool
    pub approval : row.approval_id ≡ response.approval_id
    pub sandbox_id : row.sandbox_id ≡ response.sandbox_id

  module _ (up : rd.audit_up ≡ true) (sendable : Sendable env.settings env.net) where
    logged :
        (a : Assessed) (d : Decision) (result shown : Option ToolResult)
        (error error' : Option String) (id url : Option Uuid) (sandbox_id : Option String)
        (st : State)
        → Logged st.audit (
          some (respond rd d shown error id url sandbox_id),
          audit env rd request (entry_of rd a d result error' sandbox_id id) st,
        )
    unfolding audit log_audit audit_record
    logged a d result shown error error' id url sandbox_id st = record {
      response = respond rd d shown error id url sandbox_id;
      row =
          audit_record env.digest (hash_of (last (sort_by by_start st.audit))) rd.now request
            (entry_of rd a d result error' sandbox_id id);
      answered = refl;
      added = rw up;
      request_id = refl;
      decision = refl;
      agent = refl;
      tool = refl;
      approval = refl;
      sandbox_id = refl;
    }

    asked :
        (a : Assessed) (message : String) (st : State) (row : ApprovalRequest)
        → (create_request env.settings env.net rd.now rd.outbox_id (fresh a) st.approvals).0
          ≡ some (some row)
        → Logged st.audit (ask_approval env rd request a message st)
    unfolding ask_approval
    asked a message st row e =
        let db' =
          (create_request env.settings env.net rd.now rd.outbox_id (fresh a) st.approvals).1 in
        let id = some row.approval_id in
        rw (e, ask_approval)
          (logged a approval_required none none (some message) (some message) id id none
            (record st { approvals = db' }))

    ask_approval-Logged :
        (a : Assessed) (message : String) (st : State)
        → get_request rd.approval_id st.approvals ≡ none
        → Logged st.audit (ask_approval env rd request a message st)
    ask_approval-Logged a message st free =
        let (row, e) =
          create_request-some env.settings env.net rd.now rd.outbox_id (fresh a) st.approvals
            sendable (unfold new_request in free) in
        asked a message st row e

    run_branch-Logged :
        (a : Assessed) (d : Decision) (st : State)
        → Logged st.audit (run_branch env rd request a d st)
    unfolding run_branch
    run_branch-Logged a d st =
        let (result, trace') = execute_tool env request d rd.request_id a.risk.level st.trace in
        let sandbox_id = sandbox_id_of result in
        let error = if result.success then none else result.error in
        logged a d (some result) (some result) error error none none sandbox_id
          (record st { trace = trace' })

    limit_branch-Logged :
        (a : Assessed) (message : String) (d : Decision) (st : State)
        → get_request rd.approval_id st.approvals ≡ none
        → Logged st.audit (limit_branch env rd request a message d st)
    unfolding limit_branch
    limit_branch-Logged a message approval_required st free = ask_approval-Logged a message st free
    limit_branch-Logged a message sandbox st free =
        let (result, trace') =
          execute_tool env request sandbox rd.request_id a.risk.level st.trace in
        let sandbox_id = sandbox_id_of result in
        let error = if result.success then none else some message in
        logged a sandbox (some result) (some result) error error none none sandbox_id
          (record st { trace = trace' })
    limit_branch-Logged a message _ st free =
        logged a quarantine none none (some message) (some message) none none none st

    approval-Logged :
        (a : Assessed) (st : State)
        → get_request rd.approval_id st.approvals ≡ none
        → Logged st.audit (decision_branch env rd request a approval_required st)
    unfolding decision_branch
    approval-Logged a st free =
        elim (Bool-cases (
          env.settings.approval_auto_approve_low_risk
          && elim a.risk.level [ low ↦ true | _ ↦ false ])) [
            | inl auto ↦ rw auto (run_branch-Logged a allow st)
            | inr manual ↦ rw manual (ask_approval-Logged a "Approval required" st free)
          ]

    decision_branch-Logged :
        (a : Assessed) (d : Decision) (st : State)
        → get_request rd.approval_id st.approvals ≡ none
        → Logged st.audit (decision_branch env rd request a d st)
    decision_branch-Logged a deny st free =
        unfold decision_branch in logged a deny none none none none none none none st
    decision_branch-Logged a quarantine st free =
        unfold decision_branch in
        logged a quarantine none none (some "Rate limit exceeded") none none none none st
    decision_branch-Logged a approval_required st free = approval-Logged a st free
    decision_branch-Logged a allow st free = unfold decision_branch in run_branch-Logged a allow st
    decision_branch-Logged a sandbox st free =
        unfold decision_branch in run_branch-Logged a sandbox st

    decide_branch-Logged :
        (a : Assessed) (st : State)
        → get_request rd.approval_id st.approvals ≡ none
        → Logged st.audit (decide_branch env rd request a st)
    unfolding decide_branch
    decide_branch-Logged a st free =
        let (quota, events) = rate_limit env.settings rd.now request st.quota in
        let st' = record st { quota = events } in
        elim (Bool-cases (exceeded (rate_limit env.settings rd.now request st.quota).0)) [
          | inl over ↦ rw over (
              limit_branch-Logged a (quota_error_message quota) (limited_decision env.settings) st'
                free)
          | inr under ↦ rw under (
              decision_branch-Logged a
                (determine_final_decision env.settings request.call.tool a.policy.decision
                  a.risk.level)
                st' free)
        ]

    after_check-Logged :
        (check : Option Bool) (st : State)
        → check ≡ some true
        → get_request rd.approval_id st.approvals ≡ none
        → Logged st.audit (after_check env rd request check st)
    unfolding after_check
    after_check-Logged none st e free = absurd (ground arith)
    after_check-Logged (some false) st e free = absurd (ground arith)
    after_check-Logged (some true) st e free =
        decide_branch-Logged (assessed env rd request st) st free

    -- A request that the manifests permit is answered and audited: one row is added, which has the
    -- response's request, decision, approval and sandbox, and the request's agent and tool. This is
    -- under the conditions that the database takes the row, that the new approval identifier is not in
    -- use, and that the address of the webhook, if there is one, is one that `Request` takes.
    pub process-Logged :
        (st : State)
        → permitted env rd request ≡ some true
        → get_request rd.approval_id st.approvals ≡ none
        → Logged st.audit (process env rd request st)
    unfolding process
    process-Logged st e free = after_check-Logged (permitted env rd request) st e free
