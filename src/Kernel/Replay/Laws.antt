-- ===== src/Kernel/Replay/Laws.antt =====
-- What a replay needs, and what it executes.
use constrails.Prelude.{
  String, true, false, Option, some, List, [], ◌∷◌, ◌≡◌, ◌≢◌, ◌⊎◌, inl, inr, refl, arith,
  if◌then◌else◌, ◌==◌, eq_iff, Option-cases, Bool-cases, ◌∙◌, ap,
}
use constrails.Models.{Uuid, ActionRequest, ActionResponse, ToolResult}
use constrails.Approval.{ApprovalRequest, get_request}
use constrails.Broker.Laws.{execute_trace_cases}
use constrails.Kernel.{
  SandboxExecution, State, Env, Reading, execute_tool, tool_broker, normalize_call, audit,
}
use constrails.Kernel.Replay.{
  Refusal, not_found, not_approved, expired, refused, answered, merge, get_execution, is_expired,
  is_true, replay_request, record_execution, run_approved, replay_approved,
}

-- What a row of the sandbox table that was just written reads as, and every other row.
pub get_execution-merge :
    (row : SandboxExecution) (sandbox_id : String) (rows : List SandboxExecution)
    → get_execution sandbox_id (merge row rows)
      ≡ (if row.sandbox_id == sandbox_id then some row else get_execution sandbox_id rows)
unfolding get_execution merge
get_execution-merge row sandbox_id [] = refl
get_execution-merge row sandbox_id (old ∷ rows) = ground (
  arith,
  eq_iff old.sandbox_id row.sandbox_id,
  eq_iff old.sandbox_id sandbox_id,
  eq_iff row.sandbox_id sandbox_id,
  get_execution-merge row sandbox_id rows,
)

module _ (env : Env) (rd : Reading) (approval_id : Uuid) where
  -- An approval that is there, was granted, and has not run out.
  pub record IsGranted (st : State) (approval : ApprovalRequest) : Type 0 where
    pub found : get_request approval_id st.approvals ≡ some approval
    pub granted : approval.approved ≡ some true
    pub fresh : is_expired rd.now approval.expires_at ≡ false

  pub record_execution-trace :
      (request : ActionRequest) (result : ToolResult) (error : Option String) (st : State)
      → (record_execution env rd approval_id request result error st).trace ≡ st.trace
  unfolding record_execution
  record_execution-trace request result error st = ground arith

  run_approved-trace :
      (approval : ApprovalRequest) (st : State)
      → ((run_approved env rd approval_id approval st).1.trace ≡ st.trace)
        ⊎ ((run_approved env rd approval_id approval st).1.trace
            ≡ normalize_call (replay_request env rd approval).call ∷ st.trace)
  unfolding run_approved audit execute_tool
  run_approved-trace approval st =
      let run =
        execute_trace_cases env.settings env.host (tool_broker env)
          (normalize_call (replay_request env rd approval).call) _ st.trace in
      rw (record_execution-trace _ _ _ _) run

  abbrev pub Granted : State → Type 0
  Granted st = (approval : ApprovalRequest) × IsGranted st approval

  found-IsGranted :
      (approval : ApprovalRequest) (st : State)
      → get_request approval_id st.approvals ≡ some approval
      → is_true approval.approved ≡ true
      → is_expired rd.now approval.expires_at ≡ false
      → IsGranted st approval
  found-IsGranted approval st found ok fresh = record {
    found = found;
    granted = elim (Option-cases approval.approved) [
      | inl e ↦ ground (arith, e)
      | inr (b, e) ↦ ground (arith, e)
    ];
    fresh = fresh;
  }

  pub replay-granted :
      (approval : ApprovalRequest) (st : State)
      → IsGranted st approval
      → replay_approved env rd approval_id st ≡ run_approved env rd approval_id approval st
  unfolding replay_approved
  replay-granted approval st g = ground (arith, g.found, g.granted, g.fresh)

  run_approved-answered :
      (approval : ApprovalRequest) (st : State)
      → (r : ActionResponse) × ((run_approved env rd approval_id approval st).0 ≡ answered r)
  unfolding run_approved
  run_approved-answered approval st = (_, refl)

  replay_cases :
      (st : State)
      → Granted st
        ⊎ (reason : Refusal) × (replay_approved env rd approval_id st ≡ (refused reason, st))
  unfolding replay_approved
  replay_cases st = elim (Option-cases (get_request approval_id st.approvals)) [
    | inl absent ↦ inr (not_found, ground (arith, absent))
    | inr (approval, found) ↦ elim (Bool-cases (is_true approval.approved)) [
      | inr not_yet ↦ inr (not_approved, ground (arith, found, not_yet))
      | inl ok ↦ elim (Bool-cases (is_expired rd.now approval.expires_at)) [
        | inl late ↦ inr (expired, ground (arith, found, ok, late))
        | inr fresh ↦ inl (approval, found-IsGranted approval st found ok fresh)
      ]
    ]
  ]

  -- Where an approval of the given identifier is there, was granted, and has not run out, a replay is
  -- answered. Otherwise it is refused, and changes nothing.
  pub replay_approved-answered :
      (st : State)
      → (Granted st
          → (r : ActionResponse) × ((replay_approved env rd approval_id st).0 ≡ answered r))
        × (¬ Granted st
            → (reason : Refusal) × (replay_approved env rd approval_id st ≡ (refused reason, st)))
  replay_approved-answered st = (
    λ (approval, g).
        let (r, e) = run_approved-answered approval st in
        (r, ap (λ p. p.0) (replay-granted approval st g) ∙ e),
    λ no. elim (replay_cases st) [ inl g ↦ elim (no g) [ ] | inr refusal ↦ refusal ],
  )

  -- A replay that changes what adapters were given finds an approval that was granted and has not run out.
  -- It gives one call: the approval's tool with the approval's parameters, normalised.
  pub replay_approved-IsGranted :
      (st : State)
      → (replay_approved env rd approval_id st).1.trace ≢ st.trace
      → (approval : ApprovalRequest) × IsGranted st approval
        × ((replay_approved env rd approval_id st).1.trace
            ≡ normalize_call (replay_request env rd approval).call ∷ st.trace)
  replay_approved-IsGranted st ran = elim (replay_cases st) [
    | inr (reason, same) ↦ elim (ran (ap (λ r. r.1.trace) same)) [ ]
    | inl (approval, g) ↦ elim (run_approved-trace approval st) [
      | inl same ↦ elim (ran (ap (λ r. r.1.trace) (replay-granted approval st g) ∙ same)) [ ]
      | inr one ↦ (approval, g, rw (replay-granted approval st g) one)
    ]
  ]
