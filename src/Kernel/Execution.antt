-- ===== src/Kernel/Execution.antt =====
-- What `process` executes.
use constrails.Prelude.{
  String, Bool, true, false, ◌&&◌, ◌∷◌, Option, none, some, ◌≡◌, ◌⊎◌, inl, inr, refl, arith,
  Bool-cases,
}
use constrails.Models.{
  Decision, allow, deny, approval_required, sandbox, quarantine, RiskLevel, low, ActionRequest,
  ActionResponse,
}
use constrails.Capability.Manager.{is_tool_allowed}
use constrails.Broker.{Trace}
use constrails.Broker.Laws.{execute_trace_cases}
use constrails.Kernel.{
  State, Env, Reading, Reply, Assessed, audit, determine_final_decision, execute_tool,
  normalize_call, rate_limit, exceeded, quota_error_message, limited_decision,
}
use constrails.Kernel.Process.{
  ask_approval, limit_branch, run_branch, decision_branch, assessed, decide_branch, after_check,
  process,
}

module _ (env : Env) (rd : Reading) (request : ActionRequest) where
  abbrev pub permitted : Option Bool
  permitted =
      is_tool_allowed env.hostname env.manifests request.agent request.call.tool
        request.call.parameters

  -- The one call was handed to an adapter, and the answer is to allow or to sandbox.
  abbrev Ran : Trace → Reply → Type 0
  Ran trace reply =
      (reply.1.trace ≡ normalize_call request.call ∷ trace)
      × (r : ActionResponse) × (reply.0 ≡ some r)
      × ((r.decision ≡ allow) ⊎ (r.decision ≡ sandbox))

  pub ask_approval-trace :
      (a : Assessed) (message : String) (st : State)
      → (ask_approval env rd request a message st).1.trace ≡ st.trace
  unfolding ask_approval audit
  ask_approval-trace a message st = ground arith

  execute_tool-trace :
      (d : Decision) (level : RiskLevel) (trace : Trace)
      → ((execute_tool env request d rd.request_id level trace).1 ≡ trace)
        ⊎ ((execute_tool env request d rd.request_id level trace).1
            ≡ normalize_call request.call ∷ trace)
  unfolding execute_tool
  execute_tool-trace d level trace = execute_trace_cases _ _ _ _ _ _

  run_branch-trace :
      (a : Assessed) (d : Decision) (st : State)
      → (d ≡ allow) ⊎ (d ≡ sandbox)
      → ((run_branch env rd request a d st).1.trace ≡ st.trace)
        ⊎ Ran st.trace (run_branch env rd request a d st)
  unfolding run_branch audit
  run_branch-trace a d st h = elim (execute_tool-trace d a.risk.level st.trace) [
    | inl same ↦ inl same
    | inr ran ↦ inr (ran, _, refl, h)
  ]

  limit_branch-trace :
      (a : Assessed) (message : String) (d : Decision) (st : State)
      → ((limit_branch env rd request a message d st).1.trace ≡ st.trace)
        ⊎ Ran st.trace (limit_branch env rd request a message d st)
  unfolding limit_branch audit
  limit_branch-trace a message approval_required st = inl (ask_approval-trace a message st)
  limit_branch-trace a message sandbox st =
      elim (execute_tool-trace sandbox a.risk.level st.trace) [
        | inl same ↦ inl same
        | inr ran ↦ inr (ran, _, refl, inr refl)
      ]
  limit_branch-trace a message _ st = inl refl

  approval-trace :
      (a : Assessed) (st : State)
      → ((decision_branch env rd request a approval_required st).1.trace ≡ st.trace)
        ⊎ Ran st.trace (decision_branch env rd request a approval_required st)
  unfolding decision_branch
  approval-trace a st =
      elim (Bool-cases (
        env.settings.approval_auto_approve_low_risk
        && elim a.risk.level [ low ↦ true | _ ↦ false ])) [
          | inl auto ↦ rw auto (run_branch-trace a allow st (inl refl))
          | inr manual ↦ rw manual (inl (ask_approval-trace a "Approval required" st))
        ]

  decision_branch-trace :
      (a : Assessed) (d : Decision) (st : State)
      → ((decision_branch env rd request a d st).1.trace ≡ st.trace)
        ⊎ Ran st.trace (decision_branch env rd request a d st)
  decision_branch-trace a deny st = unfold decision_branch audit in inl refl
  decision_branch-trace a quarantine st = unfold decision_branch audit in inl refl
  decision_branch-trace a approval_required st = approval-trace a st
  decision_branch-trace a allow st =
      unfold decision_branch in run_branch-trace a allow st (inl refl)
  decision_branch-trace a sandbox st =
      unfold decision_branch in run_branch-trace a sandbox st (inr refl)

  decide_branch-trace :
      (a : Assessed) (st : State)
      → ((decide_branch env rd request a st).1.trace ≡ st.trace)
        ⊎ Ran st.trace (decide_branch env rd request a st)
  unfolding decide_branch
  decide_branch-trace a st =
      let (quota, events) = rate_limit env.settings rd.now request st.quota in
      let st' = record st { quota = events } in
      elim (Bool-cases (exceeded (rate_limit env.settings rd.now request st.quota).0)) [
        | inl over ↦
            rw over
              (limit_branch-trace a (quota_error_message quota) (limited_decision env.settings) st')
        | inr under ↦ rw under (
            decision_branch-trace a
              (determine_final_decision env.settings request.call.tool a.policy.decision
                a.risk.level)
              st')
      ]

  abbrev PermittedRun : Option Bool → Trace → Reply → Type 0
  PermittedRun check trace reply =
      (reply.1.trace ≡ trace)
      ⊎ (check ≡ some true)
        × (reply.1.trace ≡ normalize_call request.call ∷ trace)
        × (r : ActionResponse) × (reply.0 ≡ some r)
        × ((r.decision ≡ allow) ⊎ (r.decision ≡ sandbox))

  after_check-trace :
      (check : Option Bool) (st : State)
      → PermittedRun check st.trace (after_check env rd request check st)
  unfolding after_check
  after_check-trace none st = inl refl
  after_check-trace (some false) st = inl refl
  after_check-trace (some true) st = elim (decide_branch-trace (assessed env rd request st) st) [
    | inl same ↦ inl same
    | inr (ran, r, e, d) ↦ inr (refl, ran, r, e, d)
  ]

  -- A request hands at most one call to an adapter: its own call, normalised. It does so only if the
  -- manifests permit the call, and then the response's decision is to allow or to sandbox.
  pub process-trace :
      (st : State)
      → ((process env rd request st).1.trace ≡ st.trace)
        ⊎ (permitted ≡ some true)
          × ((process env rd request st).1.trace ≡ normalize_call request.call ∷ st.trace)
          × (r : ActionResponse) × ((process env rd request st).0 ≡ some r)
          × ((r.decision ≡ allow) ⊎ (r.decision ≡ sandbox))
  unfolding process
  process-trace st = after_check-trace permitted st
