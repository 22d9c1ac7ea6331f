-- ===== src/Kernel/Gates.antt =====
-- The tools that go to an approver: when they run unattended, and when not.
use constrails.Prelude.{
  String, Bool, true, false, ◌∷◌, Option, none, some, ◌≡◌, ◌≢◌, ◌⊎◌, inl, inr, refl, arith, member,
  lookup, insert, eq_iff, Bool-cases,
}
use constrails.Models.{Decision, allow, approval_required, sandbox, low, ActionRequest, ToolCall}
use constrails.Broker.{register_adapter}
use constrails.Broker.Laws.{execute_trace}
use constrails.Kernel.{
  State, Env, Reading, Assessed, audit, execute_tool, normalize_call, rate_limit, exceeded,
  limited_decision, quota_error_message, tool_broker,
}
use constrails.Kernel.Decisions.{is_gated, determine-gated}
use constrails.Kernel.Execution.{permitted, ask_approval-trace}
use constrails.Kernel.Process.{
  limit_branch, run_branch, decision_branch, assessed, decide_branch, after_check, process,
}

gated_cases :
    (tool : String)
    → is_gated tool ≡ true
    → (tool ≡ "http_request") ⊎ (tool ≡ "write_file") ⊎ (tool ≡ "delete_file") ⊎ (tool ≡ "exec")
unfolding member
gated_cases tool h =
    let a = eq_iff tool "http_request" in
    let b = eq_iff tool "write_file" in
    let c = eq_iff tool "delete_file" in let d = eq_iff tool "exec" in ground (arith, a, b, c, d)

registered :
    (env : Env) (tool : String) → is_gated tool ≡ true → lookup tool (tool_broker env) ≢ none
unfolding tool_broker register_adapter insert lookup
registered env tool h = elim (gated_cases tool h) [
  | inl e ↦ rw e (cc)
  | inr (inl e) ↦ rw e (cc)
  | inr (inr (inl e)) ↦ rw e (cc)
  | inr (inr (inr e)) ↦ rw e (cc)
]

pub tool-normalize_call : (call : ToolCall) → (normalize_call call).tool ≡ call.tool
unfolding normalize_call
tool-normalize_call call = ground arith

module _ (env : Env) (rd : Reading) (request : ActionRequest) where
  runs_allowed :
      (a : Assessed) (st : State)
      → is_gated request.call.tool ≡ true
      → (run_branch env rd request a allow st).1.trace ≡ normalize_call request.call ∷ st.trace
  unfolding run_branch audit execute_tool
  runs_allowed a st g =
      (execute_trace env.settings env.host (tool_broker env) (normalize_call request.call) _
          st.trace).0
        (rw (tool-normalize_call request.call) (registered env request.call.tool g), inl refl)

  limit_waits :
      (a : Assessed) (message : String) (d : Decision) (st : State)
      → d ≢ sandbox
      → (limit_branch env rd request a message d st).1.trace ≡ st.trace
  unfolding limit_branch audit
  limit_waits a message approval_required st n = ask_approval-trace env rd request a message st
  limit_waits a message sandbox st n = absurd (n refl)
  limit_waits a message _ st n = refl

  approval_waits :
      (a : Assessed) (st : State)
      → env.settings.approval_auto_approve_low_risk ≡ false
      → (decision_branch env rd request a approval_required st).1.trace ≡ st.trace
  unfolding decision_branch
  approval_waits a st off = simp off (ask_approval-trace env rd request a "Approval required" st)

  decide_waits :
      (a : Assessed) (st : State)
      → is_gated request.call.tool ≡ true
      → env.settings.approval_auto_approve_low_risk ≡ false
      → limited_decision env.settings ≢ sandbox
      → (decide_branch env rd request a st).1.trace ≡ st.trace
  unfolding decide_branch
  decide_waits a st g off n =
      let (quota, events) = rate_limit env.settings rd.now request st.quota in
      let st' = record st { quota = events } in
      elim (Bool-cases (exceeded (rate_limit env.settings rd.now request st.quota).0)) [
        | inl over ↦
            rw over
              (limit_waits a (quota_error_message quota) (limited_decision env.settings) st' n)
        | inr under ↦
            rw
              (
                under,
                determine-gated env.settings request.call.tool a.policy.decision a.risk.level g,
              )
              (approval_waits a st' off)
      ]

  after_check-waits :
      (check : Option Bool) (st : State)
      → is_gated request.call.tool ≡ true
      → env.settings.approval_auto_approve_low_risk ≡ false
      → limited_decision env.settings ≢ sandbox
      → (after_check env rd request check st).1.trace ≡ st.trace
  unfolding after_check
  after_check-waits none st g off n = refl
  after_check-waits (some false) st g off n = refl
  after_check-waits (some true) st g off n = decide_waits (assessed env rd request st) st g off n

  -- While low risks are not approved automatically, and a used up quota does not lead to the sandbox,
  -- no request for http_request, write_file, delete_file or exec reaches an adapter, whatever the
  -- policy, the risk and the manifests say.
  pub process-gated_waits :
      (st : State)
      → is_gated request.call.tool ≡ true
      → env.settings.approval_auto_approve_low_risk ≡ false
      → limited_decision env.settings ≢ sandbox
      → (process env rd request st).1.trace ≡ st.trace
  unfolding process
  process-gated_waits st g off n = after_check-waits (permitted env rd request) st g off n

  auto_runs :
      (a : Assessed) (st : State)
      → is_gated request.call.tool ≡ true
      → env.settings.approval_auto_approve_low_risk ≡ true
      → a.risk.level ≡ low
      → (decision_branch env rd request a approval_required st).1.trace
        ≡ normalize_call request.call ∷ st.trace
  unfolding decision_branch
  auto_runs a st g auto is_low = simp (auto, is_low) (runs_allowed a st g)

  -- Where low risks are approved automatically, a request of low risk for http_request, write_file,
  -- delete_file or exec that the manifests permit, within the quota, is handed to an adapter
  -- whatever the policy decided, a denial included.
  pub process_ignores_policy :
      (st : State)
      → permitted env rd request ≡ some true
      → is_gated request.call.tool ≡ true
      → env.settings.approval_auto_approve_low_risk ≡ true
      → (assessed env rd request st).risk.level ≡ low
      → exceeded (rate_limit env.settings rd.now request st.quota).0 ≡ false
      → (process env rd request st).1.trace ≡ normalize_call request.call ∷ st.trace
  unfolding process after_check decide_branch
  process_ignores_policy st ok g auto is_low within =
      let a = assessed env rd request st in
      let (quota, events) = rate_limit env.settings rd.now request st.quota in
      rw
        (
          ok,
          within,
          determine-gated env.settings request.call.tool a.policy.decision a.risk.level g,
        )
        (auto_runs a (record st { quota = events }) g auto is_low)
