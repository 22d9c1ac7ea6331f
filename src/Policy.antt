-- ===== src/Policy.antt =====
-- src/constrail/policy/policy_engine.py: the decision of the OPA server, and the built-in policy
-- that stands in for it.
-- What the server sends is an argument. Python's `str` of a value that is no text is the parameter
-- `text_of`.
pub mod Laws
use constrails.Prelude.{
  ℕ, String, Option, none, some, List, [], ◌∷◌, Bool, true, false, not, ◌&&◌, ◌==◌, member,
  if◌then◌else◌, truthy, lookup, starts_with, codes, lower, codes_eq, rstrip, concat,
}
use constrails.Models.{
  Value, str, Dict, Decision, allow, deny, approval_required, sandbox, quarantine, RiskLevel,
  critical, high, RiskAssessment, PolicyEvaluation, ActionRequest,
}
use constrails.Config.{Settings}

-- The "result" object of a reply, with the fields that it has.
pub record OpaResult : Type 0 where
  pub decision : Option String
  pub message : Option String
  pub rule_ids : Option (List String)

-- `failed`: no connection, an error status, a body that is not JSON or not of the expected shape.
pub data OpaReply : Type 0 where
  failed : OpaReply
  replied : OpaResult → OpaReply

-- `bool(self.opa_url)`, after the `rstrip` of the constructor
unfoldable pub opa_enabled : Settings → Bool
opa_enabled settings = elim (rstrip b'/' (codes settings.opa_url)) [ [] ↦ false | c ∷ cs ↦ true ]

-- `str(s).lower()` is the word `w`.
unfoldable pub word : String → String → Bool
unfolding codes_eq lower
word s w = codes_eq (lower (codes s)) (codes w)

unfoldable pub decision_map : String → Decision
decision_map s =
    if word s "allow"
    then allow
    else if word s "deny"
    then deny
    else if word s "approval_required"
    then approval_required
    else if word s "sandbox"
    then sandbox
    else if word s "quarantine"
    then quarantine
    else deny

abbrev pub get_or {ℓ} : {A : Type ℓ} → Option A → A → A
get_or none d = d
get_or (some a) d = a

unfoldable pub evaluate_opa : OpaResult → PolicyEvaluation
evaluate_opa r = record {
  decision = decision_map (get_or r.decision "deny");
  rule_ids = get_or r.rule_ids [];
  message = r.message;
}

abbrev verdict : Decision → String → String → PolicyEvaluation
verdict decision rule_id message = record {
  decision = decision;
  rule_ids = rule_id ∷ [];
  message = some message;
}

module _ (text_of : Value → String) where
  unfoldable pub py_str : Option Value → String
  py_str none = ""
  py_str (some (str s)) = s
  py_str (some v) = text_of v

  -- The branch of `_evaluate_simple` for delete_file.
  unfoldable pub delete_verdict : Dict → PolicyEvaluation
  delete_verdict params =
      let path = py_str (lookup "path" params) in
      if starts_with path "/" && not (starts_with path "/tmp/")
      then verdict deny "simple_deny_destructive_target"
          "Deleting non-temporary absolute paths is denied"
      else verdict approval_required "simple_delete_requires_approval"
          "Delete operations require approval"

  -- The branch of `_evaluate_simple` for http_request.
  unfoldable pub http_verdict : Dict → PolicyEvaluation
  http_verdict params =
      let url = py_str (lookup "url" params) in
      if starts_with url "http://"
      then verdict sandbox "simple_http_requires_sandbox" "Plain HTTP requests require sandboxing"
      else if starts_with url "https://"
      then verdict allow "simple_allow_https_request" "HTTPS request allowed"
      else verdict approval_required "simple_http_unknown_scheme"
          "Unrecognized HTTP target requires approval"

  unfoldable pub evaluate_simple : ActionRequest → RiskAssessment → PolicyEvaluation
  evaluate_simple request risk =
      let tool = request.call.tool in
      let params = request.call.parameters in
      if not (truthy request.agent.tenant_id)
      then verdict deny "simple_missing_tenant_scope" "Tenant scope required"
      else if elim risk.level [ critical ↦ true | _ ↦ false ]
      then verdict deny "simple_fallback_critical_risk" "Critical risk level"
      else if tool == "delete_file"
      then delete_verdict params
      else if member tool ("exec" ∷ "shell" ∷ "network" ∷ "write_file" ∷ [])
      then verdict approval_required "simple_fallback_high_risk_tool"
          (concat ("Tool '" ∷ tool ∷ "' requires approval" ∷ []))
      else if tool == "http_request"
      then http_verdict params
      else if elim risk.level [ high ↦ true | _ ↦ false ]
      then verdict sandbox "simple_fallback_high_risk" "High risk level, execution in sandbox"
      else verdict allow "simple_fallback_allow" "Allowed by simple policy"

  -- The handler of an exception of the OPA call, down to the fallback.
  unfoldable pub unavailable : Settings → ActionRequest → RiskAssessment → PolicyEvaluation
  unavailable settings request risk =
      let mode = settings.policy_availability_mode in
      let tool = request.call.tool in
      if mode == "strict"
      then verdict deny "strict_policy_unavailable" "OPA unavailable in strict mode"
      else if mode == "degraded" && member tool ("exec" ∷ "delete_file" ∷ "http_request" ∷ [])
      then verdict sandbox "degraded_policy_unavailable_high_risk"
          "OPA unavailable, high-risk action forced into sandbox/degraded mode"
      else evaluate_simple request risk

  unfoldable pub evaluate : Settings → OpaReply → ActionRequest → RiskAssessment → PolicyEvaluation
  evaluate settings reply request risk =
      if opa_enabled settings
      then elim reply [ failed ↦ unavailable settings request risk | replied r ↦ evaluate_opa r ]
      else evaluate_simple request risk
