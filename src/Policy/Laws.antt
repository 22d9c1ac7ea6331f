-- ===== src/Policy/Laws.antt =====
-- The policy engine: when a request is allowed, and that it fails closed.
use constrails.Prelude.{
  String, eq_iff, ◌≡◌, ◌≢◌, ◌↔◌, ◌⊎◌, Bool, true, false, ◌||◌, ◌==◌, truthy, lookup, starts_with,
  member, clash, starts_with-clash, refl, arith, [], ◌∷◌,
}
use constrails.Models.{Value, allow, Dict, critical, high, RiskAssessment, ActionRequest}
use constrails.Config.{Settings}
use constrails.Policy.{
  OpaReply, failed, replied, OpaResult, opa_enabled, decision_map, evaluate_opa, py_str,
  delete_verdict, http_verdict, evaluate_simple, unavailable, evaluate, get_or, word,
}

-- The tools that the built-in policy never lets through at once.
abbrev pub needs_review : String → Bool
needs_review tool =
    tool == "delete_file" || member tool ("exec" ∷ "shell" ∷ "network" ∷ "write_file" ∷ [])

module _ (text_of : Value → String) where
  abbrev pub url_of : Dict → String
  url_of params = py_str text_of (lookup "url" params)

  -- An address that begins with https://
  abbrev pub is_https : Dict → Bool
  is_https params = starts_with (url_of params) "https://"

  delete_verdict-ne-allow : (params : Dict) → (delete_verdict text_of params).decision ≢ allow
  unfolding delete_verdict
  delete_verdict-ne-allow params = ground arith

  https_is_not_http :
      (params : Dict) → is_https params ≡ true → starts_with (url_of params) "http://" ≡ false
  unfolding clash
  https_is_not_http params h = starts_with-clash (url_of params) "https://" "http://" refl h

  http_verdict-eq-allow_iff :
      (params : Dict) → ((http_verdict text_of params).decision ≡ allow) ↔ (is_https params ≡ true)
  unfolding http_verdict
  http_verdict-eq-allow_iff params = ground (arith, https_is_not_http params)

  -- Why the built-in policy allows a request.
  pub record IsOpen (request : ActionRequest) (risk : RiskAssessment) : Type 0 where
    pub scoped : truthy request.agent.tenant_id ≡ true
    pub not_critical : risk.level ≢ critical
    pub reviewed : needs_review request.call.tool ≡ false
    pub plain :
        ((request.call.tool == "http_request") ≡ true) × (is_https request.call.parameters ≡ true)
        ⊎ ((request.call.tool == "http_request") ≡ false) × (risk.level ≢ high)

  module _ (request : ActionRequest) (risk : RiskAssessment) where
    evaluate_simple-allow :
        (evaluate_simple text_of request risk).decision ≡ allow → IsOpen request risk
    unfolding evaluate_simple
    evaluate_simple-allow h =
        let d = delete_verdict-ne-allow request.call.parameters in
        let w = http_verdict-eq-allow_iff request.call.parameters in
        record {
          scoped = ground (arith, d);
          not_critical = ground (arith, d);
          reviewed = ground (arith, d);
          plain = ground (arith, d, w);
        }

    allow_of_IsOpen : IsOpen request risk → (evaluate_simple text_of request risk).decision ≡ allow
    unfolding evaluate_simple
    allow_of_IsOpen o = ground (arith, http_verdict-eq-allow_iff request.call.parameters)

    -- The built-in policy allows a request exactly if it has a tenant, its risk is not critical, its
    -- tool is none of delete_file, exec, shell, network and write_file, and it is an http_request to
    -- an https:// address, or another tool at a risk that is not high.
    pub evaluate_simple-eq-allow_iff :
        ((evaluate_simple text_of request risk).decision ≡ allow) ↔ IsOpen request risk
    evaluate_simple-eq-allow_iff = (evaluate_simple-allow, allow_of_IsOpen)

  module _ (settings : Settings) (request : ActionRequest) (risk : RiskAssessment) where
    -- With the OPA server enabled and in strict mode, a request is allowed only if the server
    -- replied, and its decision, in any case of letters, was the word "allow".
    pub evaluate_strict_allow :
        (reply : OpaReply)
        → opa_enabled settings ≡ true
        → settings.policy_availability_mode ≡ "strict"
        → (evaluate text_of settings reply request risk).decision ≡ allow
        → (r : OpaResult) × (reply ≡ replied r) × (word (get_or r.decision "deny") "allow" ≡ true)
    unfolding evaluate unavailable evaluate_opa decision_map
    evaluate_strict_allow failed on mode h =
        ground (arith, eq_iff settings.policy_availability_mode "strict")
    evaluate_strict_allow (replied r) on mode h = (r, refl, ground arith)

    -- With the OPA server enabled and failing, in strict or degraded mode, the tools exec,
    -- delete_file and http_request are never allowed, nor is any request without a tenant, nor one
    -- of critical risk.
    pub evaluate_failed-ne-allow :
        opa_enabled settings ≡ true
        → (settings.policy_availability_mode ≡ "strict")
          ⊎ (settings.policy_availability_mode ≡ "degraded")
        → (member request.call.tool ("exec" ∷ "delete_file" ∷ "http_request" ∷ []) ≡ true)
          ⊎ (truthy request.agent.tenant_id ≡ false)
          ⊎ (risk.level ≡ critical)
        → (evaluate text_of settings failed request risk).decision ≢ allow
    unfolding evaluate unavailable
    evaluate_failed-ne-allow on mode risky = ground (
      arith,
      eq_iff settings.policy_availability_mode "strict",
      eq_iff settings.policy_availability_mode "degraded",
      evaluate_simple-allow request risk,
    )
