-- ===== src/Kernel/Replay/Repeats.antt =====
-- How often an approval can be used.
use constrails.Prelude.{
  ◌+◌, true, false, none, some, List, [], ◌∷◌, length, lookup, ◌≡◌, ◌≢◌, inl, refl, sym, subst, ap,
  ◌∙◌, arith, eq_iff,
}
use constrails.Models.{Uuid, allow}
use constrails.Approval.{ApprovalRequest, get_request}
use constrails.Broker.Laws.{execute_trace}
use constrails.Kernel.{State, Env, Reading, execute_tool, tool_broker, normalize_call, audit}
use constrails.Kernel.Gates.{tool-normalize_call}
use constrails.Kernel.Replay.{
  is_expired, replay_request, record_execution, forced_decision, run_approved, replay_approved,
}
use constrails.Kernel.Replay.Laws.{replay-granted, record_execution-trace}

module _ (env : Env) (approval_id : Uuid) (approval : ApprovalRequest) where
  -- Replays of one approval, the last one first.
  unfoldable pub replays : List Reading → State → State
  replays [] st = st
  replays (rd ∷ rds) st = (replay_approved env rd approval_id (replays rds st)).1

  -- None of the replays comes too late.
  unfoldable pub InTime : List Reading → Type 0
  InTime [] = Unit
  InTime (rd ∷ rds) = (is_expired rd.now approval.expires_at ≡ false) × InTime rds

  run_approved-approvals :
      (rd : Reading) (st : State)
      → (run_approved env rd approval_id approval st).1.approvals ≡ st.approvals
  unfolding run_approved record_execution audit
  run_approved-approvals rd st = ground arith

  module _ (known : lookup approval.tool (tool_broker env) ≢ none)
      (plain : approval.tool ≢ "exec") where
    allowed : (rd : Reading) → forced_decision env rd approval ≡ allow
    allowed rd = ground (arith, eq_iff approval.tool "exec", plain)

    run_approved-runs :
        (rd : Reading) (st : State)
        → (run_approved env rd approval_id approval st).1.trace
          ≡ normalize_call (replay_request env rd approval).call ∷ st.trace
    unfolding run_approved audit execute_tool replay_request
    run_approved-runs rd st =
        record_execution-trace env rd approval_id _ _ _ _
        ∙ (execute_trace env.settings env.host (tool_broker env)
              (normalize_call (replay_request env rd approval).call) _ st.trace).0
            (rw (tool-normalize_call (replay_request env rd approval).call) known, inl (allowed rd))

    module _ (st : State) (found : get_request approval_id st.approvals ≡ some approval)
        (granted : approval.approved ≡ some true) where
      replayed :
          (rds : List Reading)
          → InTime rds
          → ((replays rds st).approvals ≡ st.approvals)
            × (length (replays rds st).trace ≡ length rds + length st.trace)
      unfolding replays InTime
      replayed [] h = (refl, omega arith)
      replayed (rd ∷ rds) h =
          let (same, n) = replayed rds h.1 in
          let before = replays rds st in
          let run = replay-granted env rd approval_id approval before (record {
            found = subst (λ db. get_request approval_id db ≡ some approval) (sym same) found;
            granted = granted;
            fresh = h.0;
          }) in
          (
            ap (λ r. r.1.approvals) run ∙ run_approved-approvals rd before ∙ same,
            omega (arith, n, ap length (ap (λ r. r.1.trace) run ∙ run_approved-runs rd before)),
          )

-- An approval is not used up: granted for a tool with an adapter, other than exec, it makes each replay that is
-- not too late hand one more call to an adapter, and it is in the database as before.
pub replays_any_number :
    (env : Env) (approval_id : Uuid) (approval : ApprovalRequest) (st : State) (rds : List Reading)
    → get_request approval_id st.approvals ≡ some approval
    → approval.approved ≡ some true
    → lookup approval.tool (tool_broker env) ≢ none
    → approval.tool ≢ "exec"
    → InTime env approval_id approval rds
    → ((replays env approval_id approval rds st).approvals ≡ st.approvals)
      × (length (replays env approval_id approval rds st).trace ≡ length rds + length st.trace)
replays_any_number env approval_id approval st rds found granted known plain h =
    replayed env approval_id approval known plain st found granted rds h
