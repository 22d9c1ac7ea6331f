-- ===== src/Kernel/Decisions.antt =====
-- The final decision.
use constrails.Prelude.{
  String, Bool, true, false, ◌||◌, ◌==◌, [], ◌∷◌, ◌≡◌, ◌≢◌, ◌↔◌, arith, member, eq_iff,
}
use constrails.Models.{Decision, allow, deny, approval_required, sandbox, RiskLevel, critical}
use constrails.Config.{Settings}
use constrails.Kernel.{determine_final_decision}

-- The tools that the kernel sends to an approver, whatever the policy.
abbrev pub is_gated : String → Bool
is_gated tool = member tool ("http_request" ∷ "write_file" ∷ "delete_file" ∷ []) || tool == "exec"

module _ (settings : Settings) (tool : String) (policy : Decision) (level : RiskLevel) where
  -- `determine_final_decision`, before any automatic approval, gives allow exactly if the policy allows the
  -- call, its risk is not critical, and its tool is none of http_request, write_file, delete_file and exec.
  pub determine-eq-allow_iff :
      (determine_final_decision settings tool policy level ≡ allow)
      ↔ ((policy ≡ allow) × (level ≢ critical) × (is_gated tool ≡ false))
  unfolding determine_final_decision
  determine-eq-allow_iff = ground arith

  -- It gives deny exactly if the policy denies it and its tool is none of http_request,
  -- write_file, delete_file and exec. It gives sandbox exactly if the policy says so, the sandbox
  -- type is not none, and its tool is none of these.
  pub determine-eq-deny_iff :
      ((determine_final_decision settings tool policy level ≡ deny)
        ↔ ((policy ≡ deny) × (is_gated tool ≡ false)))
      × ((determine_final_decision settings tool policy level ≡ sandbox)
          ↔ ((policy ≡ sandbox) × (settings.sandbox_type ≢ "none") × (is_gated tool ≡ false)))
  unfolding determine_final_decision
  determine-eq-deny_iff = (ground arith, ground (arith, eq_iff settings.sandbox_type "none"))

  -- Whatever the policy and the risk, a call of one of the four tools is sent to an approver.
  pub determine-gated :
      is_gated tool ≡ true → determine_final_decision settings tool policy level ≡ approval_required
  unfolding determine_final_decision
  determine-gated h = ground arith
