-- ===== src/Cli.antt =====
-- src/constrail/cli.py: what the commands do, and the data that they print.
-- A command that reports an error raises a `ClickException`. What click, rich and json do with the data is not modelled.
pub mod Laws
pub mod Manifests
use constrails.Prelude.{
  ℕ, zero, suc, ◌+◌, String, Bool, true, false, not, ◌&&◌, Option, none, some, List, [], ◌∷◌, map,
  if◌then◌else◌, ltb, leb, nat_eq, take, keep, length, count, is_some,
}
use constrails.Models.{Uuid, Time, Dict, str, Decision, ActionResponse}
use constrails.Config.{Settings}
use constrails.Approval.{
  ApprovalRequest, ApprovalDb, Net, WebhookStatus, delivered, failed, exhausted, get_request,
}
use constrails.Approval.Outbox.{
  DrainResult, WorkerResult, drain_outbox, run_worker, decide, retry_webhook,
}
use constrails.Approval.Queries.{list_requests, outbox_summary, OutboxSummary}
use constrails.CapabilityStore.{
  StoredManifest, Store, list_manifests, create_manifest, update_manifest_tools, activate_manifest,
  deactivate_manifest, create_next_version,
}
use constrails.RateLimits.{QuotaEvent, QuotaSummary, list_events, prune_events, summary}

-- What a command ends with: what it prints, or the message of a `ClickException`; `uncaught` is another
-- exception.
pub data Ending (A : Type 0) : Type 0 where
  printed : A → Ending A
  click_exception : String → Ending A
  uncaught : Ending A

abbrev printed_or : {A : Type 0} → String → Option A → Ending A
printed_or message none = click_exception message
printed_or message (some a) = printed a

-- The choices of `--approved`.
pub data ApprovedChoice : Type 0 where
  only_true only_false only_pending : ApprovedChoice

abbrev pub is_undecided : ApprovalRequest → Bool
is_undecided a = not (is_some a.approved)

unfoldable pub approval_list_command :
    ℕ → Option ApprovedChoice → Option String → Option String → ApprovalDb → List ApprovalRequest
approval_list_command limit choice agent_id tool db =
    let filter : Option Bool = elim choice [
      | some only_true ↦ some true
      | some only_false ↦ some false
      | _ ↦ none
    ] in
    let rows = take limit (list_requests filter agent_id tool db) in
    elim choice [ some only_pending ↦ keep is_undecided rows | _ ↦ rows ]

pub record ApprovalSummary : Type 0 where
  pub total : ℕ
  pub pending : ℕ
  pub approved : ℕ
  pub denied : ℕ
  pub delivered_count : ℕ
  pub failed_count : ℕ
  pub exhausted_count : ℕ

abbrev pub is_verdict : Bool → ApprovalRequest → Bool
is_verdict verdict a = elim a.approved [ none ↦ false | some b ↦ if verdict then b else not b ]

abbrev webhook_delivered : ApprovalRequest → Bool
webhook_delivered a = elim a.webhook_delivery_status [ delivered ↦ true | _ ↦ false ]

abbrev webhook_failed : ApprovalRequest → Bool
webhook_failed a = elim a.webhook_delivery_status [ failed ↦ true | _ ↦ false ]

abbrev webhook_exhausted : ApprovalRequest → Bool
webhook_exhausted a = elim a.webhook_delivery_status [ exhausted ↦ true | _ ↦ false ]

unfoldable pub approval_summary_command : ApprovalDb → ApprovalSummary
approval_summary_command db =
    let rows = list_requests none none none db in
    record {
      total = length rows;
      pending = count is_undecided rows;
      approved = count (is_verdict true) rows;
      denied = count (is_verdict false) rows;
      delivered_count = count webhook_delivered rows;
      failed_count = count webhook_failed rows;
      exhausted_count = count webhook_exhausted rows;
    }

abbrev pub approval_outbox_summary_command : ApprovalDb → OutboxSummary
approval_outbox_summary_command = outbox_summary

unfoldable pub approval_show_command : Uuid → ApprovalDb → Ending ApprovalRequest
approval_show_command approval_id db =
    printed_or "Approval request not found" (get_request approval_id db)

-- What `approval-worker-serve` prints for a cycle, but for the pause.
pub record CycleSummary : Type 0 where
  pub cycle : ℕ
  pub processed : ℕ
  pub sent_count : ℕ
  pub failed_count : ℕ
  pub idle : Bool

abbrev pub cycle_summary : ℕ → DrainResult → CycleSummary
cycle_summary cycle r = record {
  cycle = cycle;
  processed = r.processed;
  sent_count = r.sent_count;
  failed_count = r.failed_count;
  idle = nat_eq r.processed 0;
}

-- `max_cycles is None or cycle < max_cycles`
abbrev pub goes_on : Option ℕ → ℕ → Bool
goes_on none cycle = true
goes_on (some max_cycles) cycle = ltb cycle max_cycles

module _ (settings : Settings) (net : Net) (now : Time) where
  -- The `while` loop: `none` is a loop that is not over when the fuel is. The pauses, and the interrupt from
  -- the keyboard that ends it between cycles, are left out.
  unfoldable pub serve : ℕ → Option ℕ → ℕ → ℕ → ApprovalDb → Option (List CycleSummary × ApprovalDb)
  serve zero max_cycles limit cycle db = none
  serve (suc fuel) max_cycles limit cycle db =
      let (r, db') = drain_outbox settings net now limit db in
      let rest = serve fuel max_cycles limit (cycle + 1) db' in
      if not (goes_on max_cycles cycle) then some ([], db) else elim rest [
        | none ↦ none
        | some (more, last_db) ↦ some (cycle_summary (cycle + 1) r ∷ more, last_db)
      ]

  unfoldable pub approval_worker_serve_command :
      ℕ → Option ℕ → ℕ → ApprovalDb → Option (List CycleSummary × ApprovalDb)
  approval_worker_serve_command fuel max_cycles limit db = serve fuel max_cycles limit 0 db

  abbrev pub approval_run_worker_command : ℕ → ℕ → ApprovalDb → WorkerResult × ApprovalDb
  approval_run_worker_command cycles limit db =
      run_worker settings net now cycles limit
        (record { processed = 0; sent_count = 0; failed_count = 0; idle_cycles = 0 }) db

  abbrev pub approval_drain_outbox_command : ℕ → ApprovalDb → DrainResult × ApprovalDb
  approval_drain_outbox_command limit db = drain_outbox settings net now limit db

  -- `approval-approve` and `approval-deny`
  unfoldable pub approval_decide_command :
      Uuid → Bool → Uuid → String → Option String → ApprovalDb → Ending Uuid × ApprovalDb
  approval_decide_command outbox_id verdict approval_id approver comment db =
      let (row, db') = decide settings net now outbox_id approval_id verdict approver comment db in
      (
        elim row [
          | none ↦ uncaught
          | some none ↦ click_exception "Approval request not found"
          | some (some a) ↦ printed a.approval_id
        ],
        db',
      )

  unfoldable pub approval_retry_webhook_command :
      Uuid → Uuid → ApprovalDb → Ending ApprovalRequest × ApprovalDb
  approval_retry_webhook_command outbox_id approval_id db =
      let (row, db') = retry_webhook settings net now outbox_id approval_id db in
      (
        elim row [ none ↦ uncaught | some found ↦ printed_or "Approval request not found" found ],
        db',
      )

-- `max((row.version for row in existing), default=0)`
unfoldable pub max_version : List StoredManifest → ℕ
max_version [] = 0
max_version (row ∷ rows) =
    let rest = max_version rows in if ltb rest row.version then row.version else rest

-- `[{"tool": tool} for tool in tools]`
abbrev pub tool_entries : List String → List Dict
tool_entries tools = map (λ tool. ("tool", str tool) ∷ []) tools

unfoldable pub capability_create_command :
    String
    → Option String
    → Option String
    → List String
    → Bool
    → Time
    → Store
    → Option StoredManifest × Store
capability_create_command agent_id tenant_id namespace tools activate now store =
    let existing = list_manifests (some agent_id) none tenant_id namespace store in
    create_manifest agent_id tenant_id namespace (max_version existing + 1) (tool_entries tools) now
      activate store

abbrev found_manifest : Option StoredManifest × Store → Ending StoredManifest × Store
found_manifest result = (printed_or "Capability manifest not found" result.0, result.1)

unfoldable pub capability_list_command : Option String → Bool → Store → List StoredManifest
capability_list_command agent_id active store =
    list_manifests agent_id (if active then some true else none) none none store

unfoldable pub capability_update_tools_command :
    ℕ → List String → Bool → Store → Ending StoredManifest × Store
capability_update_tools_command id tools activate store =
    found_manifest (update_manifest_tools id (tool_entries tools) activate store)

unfoldable pub capability_activate_command : ℕ → Store → Ending StoredManifest × Store
capability_activate_command id store = found_manifest (activate_manifest id store)

unfoldable pub capability_deactivate_command : ℕ → Store → Ending StoredManifest × Store
capability_deactivate_command id store = found_manifest (deactivate_manifest id store)

unfoldable pub capability_bump_command : ℕ → Bool → Time → Store → Ending StoredManifest × Store
capability_bump_command id activate now store =
    found_manifest (create_next_version id none now activate store)
