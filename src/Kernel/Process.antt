-- ===== src/Kernel/Process.antt =====
-- src/constrail/kernel_v2.py: `process`.
use constrails.Prelude.{String, Bool, true, false, ◌&&◌, Option, none, some, if◌then◌else◌}
use constrails.Models.{
  ActionRequest, low, Decision, allow, deny, approval_required, sandbox, quarantine,
}
use constrails.Capability.Manager.{is_tool_allowed}
use constrails.Policy.{evaluate}
use constrails.Risk.{assess}
use constrails.Approval.Outbox.{new_request, create_request}
use constrails.Kernel.{
  State, Env, Reading, Reply, Assessed, entry_of, audit, respond, determine_final_decision,
  execute_tool, sandbox_id_of, rate_limit, exceeded, quota_error_message, limited_decision,
}

module _ (env : Env) (rd : Reading) (request : ActionRequest) where
  -- Ask for an approval, audit it under the message, and answer with it.
  unfoldable pub ask_approval : Assessed → String → State → Reply
  ask_approval a message st =
      let fresh =
        new_request env.settings env.net rd.now rd.approval_id rd.request_id request.agent.agent_id
          request.call.tool request.call.parameters a.risk.score a.risk.level a.policy in
      let (row, approvals') =
        create_request env.settings env.net rd.now rd.outbox_id fresh st.approvals in
      let st' = record st { approvals = approvals' } in
      elim row [
        | none ↦ (none, st')
        | some none ↦ (none, st')
        | some (some approval) ↦
            let id = some approval.approval_id in
            (
              some (respond rd approval_required none (some message) id id none),
              audit env rd request (entry_of rd a approval_required none (some message) none id)
                  st',
            )
      ]

  -- The branch of a used up quota, by its decision.
  unfoldable pub limit_branch : Assessed → String → Decision → State → Reply
  limit_branch a message approval_required st = ask_approval a message st
  limit_branch a message sandbox st =
      let (result, trace') = execute_tool env request sandbox rd.request_id a.risk.level st.trace in
      let sandbox_id = sandbox_id_of result in
      let error = if result.success then none else some message in
      (
        some (respond rd sandbox (some result) error none none sandbox_id),
        audit env rd request (entry_of rd a sandbox (some result) error sandbox_id none)
            (record st { trace = trace' }),
      )
  limit_branch a message _ st = (
    some (respond rd quarantine none (some message) none none none),
    audit env rd request (entry_of rd a quarantine none (some message) none none) st,
  )

  -- Run the tool under a decision to allow or to sandbox, audit, and answer.
  unfoldable pub run_branch : Assessed → Decision → State → Reply
  run_branch a decision st =
      let (result, trace') =
        execute_tool env request decision rd.request_id a.risk.level st.trace in
      let sandbox_id = sandbox_id_of result in
      let error = if result.success then none else result.error in
      (
        some (respond rd decision (some result) error none none sandbox_id),
        audit env rd request (entry_of rd a decision (some result) error sandbox_id none)
            (record st { trace = trace' }),
      )

  -- The branches of the final decision.
  unfoldable pub decision_branch : Assessed → Decision → State → Reply
  decision_branch a deny st = (
    some (respond rd deny none none none none none),
    audit env rd request (entry_of rd a deny none none none none) st,
  )
  decision_branch a quarantine st = (
    some (respond rd quarantine none (some "Rate limit exceeded") none none none),
    audit env rd request (entry_of rd a quarantine none none none none) st,
  )
  decision_branch a approval_required st =
      if env.settings.approval_auto_approve_low_risk && elim a.risk.level [ low ↦ true | _ ↦ false ]
      then run_branch a allow st
      else ask_approval a "Approval required" st
  decision_branch a decision st = run_branch a decision st

  unfoldable pub assessed : State → Assessed
  assessed st =
      let risk = assess env.floats env.settings env.profiles st.audit request in
      record { risk = risk; policy = evaluate env.text_of env.settings rd.opa request risk }

  -- From the assessment on.
  unfoldable pub decide_branch : Assessed → State → Reply
  decide_branch a st =
      let decision =
        determine_final_decision env.settings request.call.tool a.policy.decision a.risk.level in
      let (quota, events) = rate_limit env.settings rd.now request st.quota in
      let st' = record st { quota = events } in
      if exceeded quota
      then limit_branch a (quota_error_message quota) (limited_decision env.settings) st'
      else decision_branch a decision st'

  -- From the answer of the capability manager on.
  unfoldable pub after_check : Option Bool → State → Reply
  after_check none st = (none, st)
  after_check (some true) st = decide_branch (assessed st) st
  after_check (some false) st = (
    some (respond rd deny none (some "Tool not allowed in capability manifest") none none none),
    st,
  )

  unfoldable pub process : State → Reply
  process st =
      after_check
        (is_tool_allowed env.hostname env.manifests request.agent request.call.tool
          request.call.parameters)
        st
