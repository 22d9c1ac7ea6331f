-- ===== src/Approval/Outbox.antt =====
-- src/constrail/approval.py: the outbox, its worker, and the operations that put items into it.
-- The worker's pauses between its cycles are left out: they change no table.
use constrails.Prelude.{
  ℕ, zero, suc, ◌+◌, ◌*◌, String, Bool, true, false, not, Option, none, some, List, [], ◌∷◌, ◌++◌,
  if◌then◌else◌, leb, ltb, nat_eq, truthy, find, keep, take, update_first, sort_by,
}
use constrails.Models.{Uuid, Time, Float, Dict, RiskLevel, PolicyEvaluation}
use constrails.Config.{Settings}
use constrails.Approval.{
  ApprovalRequest, not_configured, pending, Event, created, approved, denied, retry, OutboxItem,
  sent, broken, response, raised, ApprovalDb, Net, by_id, by_request, get_request, webhook_url,
  build_event_payload, build_retry_payload, enqueue_webhook, emit_webhook,
}

abbrev pub by_outbox_id : Uuid → OutboxItem → Bool
by_outbox_id outbox_id i = nat_eq i.outbox_id outbox_id

abbrev pub is_open : OutboxItem → Bool
is_open i = elim i.delivery_status [ sent ↦ false | _ ↦ true ]

abbrev pub deliver_item : Time → OutboxItem → OutboxItem
deliver_item now i = record i {
  delivery_status = sent;
  attempt_count = i.attempt_count + 1;
  last_attempt_at = some now;
  last_error = none;
  delivered_at = some now;
}

abbrev pub fail_item : Time → String → OutboxItem → OutboxItem
fail_item now error i = record i {
  delivery_status = broken;
  attempt_count = i.attempt_count + 1;
  last_attempt_at = some now;
  last_error = some error;
}

abbrev pub older_first : OutboxItem → OutboxItem → Bool
older_first a b = leb a.created_at b.created_at

pub record DrainResult : Type 0 where
  pub processed : ℕ
  pub sent_count : ℕ
  pub failed_count : ℕ

abbrev pub tick : Bool → DrainResult → DrainResult
tick ok r =
    if ok
    then record r { processed = r.processed + 1; sent_count = r.sent_count + 1 }
    else record r { processed = r.processed + 1; failed_count = r.failed_count + 1 }

pub record WorkerResult : Type 0 where
  pub processed : ℕ
  pub sent_count : ℕ
  pub failed_count : ℕ
  pub idle_cycles : ℕ

module _ (settings : Settings) (net : Net) (now : Time) where
  unfoldable pub deliver_outbox_item : Uuid → ApprovalDb → Bool × ApprovalDb
  deliver_outbox_item outbox_id db = elim (find (by_outbox_id outbox_id) db.outbox) [
    | none ↦ (false, db)
    | some item ↦
        if not (truthy settings.approval_webhook_url)
        then (false, db)
        else elim (net.refuses (webhook_url settings)) [
          | some error ↦ (
            false,
            record db {
              outbox = update_first (by_outbox_id outbox_id) (fail_item now error) db.outbox;
            },
          )
          | none ↦
              let after = item.payload ∷ db.posts in
              elim (net.post db.posts item.payload) [
                | response code ↦ (
                  true,
                  record db {
                    outbox = update_first (by_outbox_id outbox_id) (deliver_item now) db.outbox;
                    posts = after;
                  },
                )
                | raised error ↦ (
                  false,
                  record db {
                    outbox = update_first (by_outbox_id outbox_id) (fail_item now error) db.outbox;
                    posts = after;
                  },
                )
              ]
        ]
  ]

  -- The loop of `drain_outbox`, over the rows that its query returned.
  unfoldable pub drain_rows : List OutboxItem → DrainResult → ApprovalDb → DrainResult × ApprovalDb
  drain_rows [] r db = (r, db)
  drain_rows (row ∷ rows) r db =
      let (ok, db') = deliver_outbox_item row.outbox_id db in drain_rows rows (tick ok r) db'

  unfoldable pub drain_outbox : ℕ → ApprovalDb → DrainResult × ApprovalDb
  drain_outbox limit db =
      drain_rows (take limit (sort_by older_first (keep is_open db.outbox)))
        (record { processed = 0; sent_count = 0; failed_count = 0 }) db

  -- The loop of `run_worker`, over the cycles that are left.
  unfoldable pub run_worker : ℕ → ℕ → WorkerResult → ApprovalDb → WorkerResult × ApprovalDb
  run_worker zero limit w db = (w, db)
  run_worker (suc cycles) limit w db =
      let (r, db') = drain_outbox limit db in
      run_worker cycles limit
        (record {
          processed = w.processed + r.processed;
          sent_count = w.sent_count + r.sent_count;
          failed_count = w.failed_count + r.failed_count;
          idle_cycles = if nat_eq r.processed 0 then w.idle_cycles + 1 else w.idle_cycles;
        })
        db'

  unfoldable pub auto_drain : ApprovalDb → ApprovalDb
  auto_drain db =
      if settings.approval_outbox_auto_drain
      then (drain_outbox settings.approval_outbox_auto_drain_limit db).1
      else db

  abbrev pub expiry : Option Time
  expiry =
      if ltb 0 settings.approval_expire_minutes
      then some (now + settings.approval_expire_minutes * 60000000)
      else none

  -- Drain the outbox where that is configured, unless the emission raised.
  unfoldable pub after_emission : Bool × ApprovalDb → Bool × ApprovalDb
  after_emission (false, db) = (false, db)
  after_emission (true, db) = (true, auto_drain db)

  -- Enqueue an event of a row, emit it, and drain.
  unfoldable pub announce : Uuid → ApprovalRequest → Event → ApprovalDb → Bool × ApprovalDb
  announce outbox_id a event db =
      let payload = build_event_payload a event in
      after_emission (
        emit_webhook settings net now a.approval_id payload false
          (enqueue_webhook now outbox_id a.approval_id event payload db))

  -- The row is read again at the end; `none` is the exception of the emission.
  unfoldable pub reread : Uuid → Bool × ApprovalDb → Option (Option ApprovalRequest) × ApprovalDb
  reread approval_id (false, db) = (none, db)
  reread approval_id (true, db) = (some (get_request approval_id db), db)

  unfoldable pub new_request :
      Uuid → Uuid → String → String → Dict → Float → RiskLevel → PolicyEvaluation → ApprovalRequest
  new_request approval_id request_id agent_id tool parameters risk_score risk_level policy =
      record {
        approval_id = approval_id;
        request_id = request_id;
        agent_id = agent_id;
        tool = tool;
        parameters = parameters;
        risk_score = risk_score;
        risk_level = risk_level;
        policy_evaluation = policy;
        created_at = now;
        expires_at = expiry;
        approved = none;
        approver_id = none;
        reviewed_at = none;
        review_comment = none;
        webhook_delivery_status =
            if truthy settings.approval_webhook_url then pending else not_configured;
        webhook_delivery_attempts = 0;
        webhook_last_attempt_at = none;
        webhook_last_response_code = none;
        webhook_last_error = none;
      }

  -- `create_request`, from the row that it would add.
  unfoldable pub create_request :
      Uuid → ApprovalRequest → ApprovalDb → Option (Option ApprovalRequest) × ApprovalDb
  create_request outbox_id fresh db = elim (find (by_request fresh.request_id) db.approvals) [
    | some existing ↦ (some (some existing), db)
    | none ↦
        reread fresh.approval_id
          (announce outbox_id fresh created (record db { approvals = db.approvals ++ fresh ∷ [] }))
  ]

  abbrev pub decided : Bool → String → Option String → ApprovalRequest → ApprovalRequest
  decided verdict approver_id comment a = record a {
    approved = some verdict;
    approver_id = some approver_id;
    reviewed_at = some now;
    review_comment = comment;
  }

  unfoldable pub decide :
      Uuid
      → Uuid
      → Bool
      → String
      → Option String
      → ApprovalDb
      → Option (Option ApprovalRequest) × ApprovalDb
  decide outbox_id approval_id verdict approver_id comment db = elim (get_request approval_id db) [
    | none ↦ (some none, db)
    | some a ↦
        let a' = decided verdict approver_id comment a in
        let event : Event = if verdict then approved else denied in
        reread approval_id (
          announce outbox_id a' event (record db {
            approvals =
                update_first (by_id approval_id) (decided verdict approver_id comment) db.approvals;
          }))
  ]

  unfoldable pub retry_webhook :
      Uuid → Uuid → ApprovalDb → Option (Option ApprovalRequest) × ApprovalDb
  retry_webhook outbox_id approval_id db = elim (get_request approval_id db) [
    | none ↦ (some none, db)
    | some a ↦
        let payload = build_retry_payload a in
        reread approval_id (
          after_emission (
            emit_webhook settings net now a.approval_id payload true
              (enqueue_webhook now outbox_id a.approval_id retry payload db)))
  ]
