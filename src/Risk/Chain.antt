-- ===== src/Risk/Chain.antt =====
-- The exfiltration heuristic: a read that was just audited raises the risk of a request to the network.
use constrails.Prelude.{
  ℕ, suc, ◌<◌, String, Bool, true, List, [], ◌∷◌, ◌++◌, ◌≡◌, arith, map, any, keep, take, member,
  ◌==◌, eq_refl, sort_by, NoneBefore, sort_by-append_first, Bool-cases, inl, inr, last,
}
use constrails.Models.{Time, ActionRequest}
use constrails.Config.{Settings}
use constrails.Audit.{
  AuditPayload, AuditRecord, AuditEntry, by_start, hash_of, audit_record, log_audit,
}
use constrails.Risk.{Floats, f_chain, later_start, recent_agent_tools, assess_request_chain}

-- Every row of the table is older than `now`.
abbrev pub Before : Time → List AuditRecord → Type 0
Before now [] = Unit
Before now (row ∷ rows) = (row.start_time < now) × Before now rows

abbrev of_agent : String → AuditRecord → Bool
of_agent agent_id r = r.agent_id == agent_id

keep-append :
    (p : AuditRecord → Bool) (rows : List AuditRecord) (z : AuditRecord)
    → p z ≡ true
    → keep p (rows ++ z ∷ []) ≡ keep p rows ++ z ∷ []
unfolding keep
keep-append p [] z h = ground arith
keep-append p (r ∷ rows) z h = ground (arith, keep-append p rows z h)

Before-keep :
    (p : AuditRecord → Bool) (z : AuditRecord) (rows : List AuditRecord)
    → Before z.start_time rows
    → NoneBefore later_start z (keep p rows)
unfolding keep
Before-keep p z [] h = tt
Before-keep p z (r ∷ rows) h = elim (Bool-cases (p r)) [
  | inl kept ↦ rw kept (unfold later_start in ground arith, Before-keep p z rows h.1)
  | inr dropped ↦ rw dropped (Before-keep p z rows h.1)
]

recent-append :
    (settings : Settings) (rows : List AuditRecord) (z : AuditRecord) (n : ℕ)
    → settings.exfiltration_lookback_limit ≡ suc n
    → Before z.start_time rows
    → recent_agent_tools settings (rows ++ z ∷ []) z.agent_id
      ≡ z.tool ∷ map (λ r. r.tool) (take n (sort_by later_start (keep (of_agent z.agent_id) rows)))
unfolding recent_agent_tools
recent-append settings rows z n limit before = rw (
  keep-append (of_agent z.agent_id) rows z (eq_refl z.agent_id),
  sort_by-append_first later_start (keep (of_agent z.agent_id) rows) z
      (Before-keep (of_agent z.agent_id) z rows before),
  limit,
)

module _ (floats : Floats) (digest : AuditPayload → String) where
  recent-log_audit :
      (settings : Settings) (rows : List AuditRecord) (now : Time) (read : ActionRequest)
      (entry : AuditEntry) (n : ℕ)
      → settings.exfiltration_lookback_limit ≡ suc n
      → Before now rows
      → recent_agent_tools settings (log_audit digest true now read entry rows) read.agent.agent_id
        ≡ read.call.tool
          ∷ map
              (λ r. r.tool)
              (take n (sort_by later_start (keep (of_agent read.agent.agent_id) rows)))
  unfolding log_audit audit_record
  recent-log_audit settings rows now read entry n limit before =
      recent-append settings rows
        (audit_record digest (hash_of (last (sort_by by_start rows))) now read entry) n limit before

  -- After a read_file or list_directory of an agent was audited, at a time later than every row before,
  -- an http_request of that agent has the chain risk 0.35, if the heuristic is on, it looks back at
  -- least one row, and the database took the row.
  pub assess_request_chain-log_audit :
      (settings : Settings) (rows : List AuditRecord) (now : Time) (read request : ActionRequest)
      (entry : AuditEntry) (n : ℕ)
      → settings.exfiltration_read_then_network_enabled ≡ true
      → settings.exfiltration_lookback_limit ≡ suc n
      → Before now rows
      → member read.call.tool ("read_file" ∷ "list_directory" ∷ []) ≡ true
      → request.call.tool ≡ "http_request"
      → request.agent.agent_id ≡ read.agent.agent_id
      → assess_request_chain floats settings (log_audit digest true now read entry rows) request
        ≡ f_chain
  unfolding assess_request_chain
  assess_request_chain-log_audit settings rows now read request entry n on limit before is_read
        is_http same =
      rw
        (
          same,
          recent-log_audit settings rows now read entry n limit before,
          on,
          is_http,
          eq_refl "http_request",
        )
        (unfold any in rw is_read)
