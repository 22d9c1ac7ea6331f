-- ===== src/Api/Scope.antt =====
-- What a scoped admin sees of the lists.
use constrails.Prelude.{
  ℕ, zero, suc, String, Bool, true, none, List, [], ◌∷◌, ◌≡◌, inl, inr, refl, ◌∙◌, arith, all, keep,
  take, sort_by, all-keep, all-take, all-sort_by, ◌==◌, Bool-cases, Option-cases,
}
use constrails.Models.{Decision}
use constrails.Config.{Settings}
use constrails.Auth.{AuthPrincipal, scoped}
use constrails.Approval.Queries.{list_requests}
use constrails.Audit.{AuditRecord}
use constrails.Kernel.{Reading, SandboxExecution}
use constrails.Api.{
  Response, ok, Headers, Server, World, authenticate_admin_request, enforce_admin_agent_scope,
}
use constrails.Api.Approvals.{list_approvals, allowed_row}
use constrails.Api.Listings.{
  SandboxQuery, in_sandbox_query, newest_execution, list_sandbox_executions, AuditQuery, in_query,
  own_agent, drop, decision_of, list_audit_records, newest_first,
}

abbrev pub is_of : String → AuditRecord → Bool
is_of agent_id row = row.agent_id == agent_id

abbrev pub runs_for : String → SandboxExecution → Bool
runs_for agent_id row = row.agent_id == agent_id

-- Whether an answer is an error, or all rows of it pass a test.
abbrev pub all_shown : {A : Type 0} → (A → Bool) → Response (List A) → Bool
all_shown q (ok rows) = all q rows
all_shown q _ = true

-- What a query with an order, an offset and a limit shows of the rows that it selects.
module _ {A : Type 0} (own selected : A → Bool) (before : A → A → Bool)
    (kept : (row : A) → selected row ≡ true → own row ≡ true) where
  all-drop : (n : ℕ) (rows : List A) → all own rows ≡ true → all own (drop n rows) ≡ true
  unfolding all drop
  all-drop zero rows h = h
  all-drop (suc n) [] h = refl
  all-drop (suc n) (row ∷ rows) h = all-drop n rows (ground (arith, h))

  all-page :
      (limit offset : ℕ) (rows : List A)
      → all own (take limit (drop offset (sort_by before (keep selected rows)))) ≡ true
  all-page limit offset rows =
      let sorted = sort_by before (keep selected rows) in
      all-take own limit (drop offset sorted) (
        all-drop offset sorted
          (all-sort_by own before (keep selected rows) ∙ all-keep own selected rows kept))

module _ (settings : Settings) (p : AuthPrincipal) (s : scoped p ≡ true) where
  audit_page :
      (decided : Decision → Bool) (q : AuditQuery) (rows : List AuditRecord)
      → all (is_of (own_agent settings p)) (
          take q.limit
            (drop q.offset (sort_by newest_first (keep (in_query settings p decided q) rows))))
        ≡ true
  audit_page decided q rows =
      all-page (is_of (own_agent settings p)) (in_query settings p decided q) newest_first
        (λ row e. unfold in_query in ground (arith, s, e)) q.limit q.offset rows

  sandbox_page :
      (q : SandboxQuery) (rows : List SandboxExecution)
      → all (runs_for (own_agent settings p)) (
          take q.limit
            (drop q.offset (sort_by newest_execution (keep (in_sandbox_query settings p q) rows))))
        ≡ true
  sandbox_page q rows =
      all-page (runs_for (own_agent settings p)) (in_sandbox_query settings p q) newest_execution
        (λ row e. unfold in_sandbox_query in ground (arith, s, e)) q.limit q.offset rows

module _ (world : World) (rd : Reading) (headers : Headers) (p : AuthPrincipal)
    (server : Server) where
  -- A scoped admin sees of the audit trail and of the sandbox executions only rows of the agent that its
  -- credential names, and of the approval requests only those of agents that it may see, whatever it
  -- asks for.
  pub lists-scope :
      (q : AuditQuery) (q' : SandboxQuery)
      → authenticate_admin_request world.jwt rd.now headers server.auth ≡ ok p
      → scoped p ≡ true
      → (all_shown
            (is_of (own_agent server.auth.settings p))
            (list_audit_records world rd headers q server)
          ≡ true)
        × (all_shown
              (runs_for (own_agent server.auth.settings p))
              (list_sandbox_executions world rd headers q' server)
            ≡ true)
        × (all_shown (allowed_row server.auth.settings p) (list_approvals world rd headers server)
            ≡ true)
  unfolding list_audit_records list_sandbox_executions list_approvals
  lists-scope q q' h s = (
    elim (Bool-cases (enforce_admin_agent_scope server.auth.settings p q.agent_id)) [
      | inl fine ↦ elim (Option-cases (decision_of world rd headers q)) [
        | inl raises ↦ ground (arith, h, fine, raises)
        | inr (decided, d) ↦
            ground
              (arith, h, fine, d, audit_page server.auth.settings p s decided q server.kernel.audit)
      ]
      | inr off ↦ ground (arith, h, off)
    ],
    elim (Bool-cases (enforce_admin_agent_scope server.auth.settings p q'.agent_id)) [
      | inl fine ↦
          ground (arith, h, fine, sandbox_page server.auth.settings p s q' server.kernel.sandboxes)
      | inr off ↦ ground (arith, h, off)
    ],
    ground (
      arith,
      h,
      s,
      all-keep (allowed_row server.auth.settings p) (allowed_row server.auth.settings p)
          (list_requests none none none server.kernel.approvals) (λ x e. e),
    ),
  )
