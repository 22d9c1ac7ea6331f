-- ===== src/Kernel/Refused.antt =====
-- What becomes of a request for which an approval is asked, where the address of the webhook is refused.
use constrails.Prelude.{
  ◌<◌, String, true, false, none, some, ◌≡◌, refl, ap, ◌∙◌, subst, sym, truthy, find,
}
use constrails.Models.{ActionRequest}
use constrails.Approval.{by_request, get_request, webhook_url}
use constrails.Approval.Outbox.{new_request}
use constrails.Approval.Create.{queued, create_request-refused, get_request-queued}
use constrails.Kernel.{State, Env, Reading, Reply, Assessed, rate_limit, exceeded}
use constrails.Kernel.Decisions.{is_gated, determine-gated}
use constrails.Kernel.Execution.{permitted}
use constrails.Kernel.Process.{
  ask_approval, decision_branch, decide_branch, after_check, assessed, process,
}
use constrails.Kernel.Trail.{fresh}

module _ (env : Env) (rd : Reading) (request : ActionRequest) where
  -- An exception, with nothing audited, but with the approval request stored.
  abbrev pub Unanswered : State → Reply → Type 0
  Unanswered st reply =
      (reply.0 ≡ none)
      × (reply.1.audit ≡ st.audit)
      × (get_request rd.approval_id reply.1.approvals
          ≡ some (fresh env rd request (assessed env rd request st)))

  module _ (error : String) (on : truthy env.settings.approval_webhook_url ≡ true)
      (refuses : env.net.refuses (webhook_url env.settings) ≡ some error)
      (some_left : 0 < env.settings.approval_webhook_max_attempts) where
    ask_approval-refused :
        (a : Assessed) (message : String) (st : State)
        → find (by_request rd.request_id) st.approvals.approvals ≡ none
        → get_request rd.approval_id st.approvals ≡ none
        → ask_approval env rd request a message st ≡ (
          none,
          record st {
            approvals =
                queued env.settings env.net rd.now rd.outbox_id
                  (fresh env rd request a)
                  st.approvals;
          },
        )
    unfolding ask_approval
    ask_approval-refused a message st new free =
        let e =
          create_request-refused env.settings env.net rd.now rd.outbox_id (fresh env rd request a)
            st.approvals on refuses (unfold new_request in some_left) (unfold new_request in new)
            (unfold new_request in free) in
        rw (e, ask_approval) (ap (λ r. (none, record st { approvals = r.1 })) e)

    asks :
        (st : State)
        → permitted env rd request ≡ some true
        → is_gated request.call.tool ≡ true
        → env.settings.approval_auto_approve_low_risk ≡ false
        → exceeded (rate_limit env.settings rd.now request st.quota).0 ≡ false
        → process env rd request st
          ≡ ask_approval env rd request
              (assessed env rd request st)
              "Approval required"
              (record st { quota = (rate_limit env.settings rd.now request st.quota).1 })
    unfolding process after_check decide_branch decision_branch
    asks st ok g manual within =
        let a = assessed env rd request st in
        rw (
          ok,
          within,
          determine-gated env.settings request.call.tool a.policy.decision a.risk.level g,
          manual,
        )

    -- Where a webhook is configured at an address that `Request` refuses, attempts are allowed and low
    -- risks are not approved automatically, a request for http_request, write_file, delete_file or exec
    -- that the manifests permit, within the quota and new under both of its identifiers, ends in an
    -- exception and is not audited, but its approval request is in the database.
    pub process-Unanswered :
        (st : State)
        → permitted env rd request ≡ some true
        → is_gated request.call.tool ≡ true
        → env.settings.approval_auto_approve_low_risk ≡ false
        → exceeded (rate_limit env.settings rd.now request st.quota).0 ≡ false
        → find (by_request rd.request_id) st.approvals.approvals ≡ none
        → get_request rd.approval_id st.approvals ≡ none
        → Unanswered st (process env rd request st)
    process-Unanswered st ok g manual within new free =
        let a = assessed env rd request st in
        let row = fresh env rd request a in
        let ends =
          asks st ok g manual within
          ∙ ask_approval-refused a "Approval required"
              (record st { quota = (rate_limit env.settings rd.now request st.quota).1 }) new
              free in
        subst (Unanswered st) (sym ends) (
          refl,
          refl,
          unfold new_request in
              get_request-queued env.settings env.net rd.now rd.outbox_id row st.approvals
                (unfold new_request in free),
        )
