-- ===== src/Approval/Laws.antt =====
-- Approval requests: the webhooks leave everything else of a request alone.
use constrails.Prelude.{
  ℕ, Bool, true, false, none, some, List, [], ◌∷◌, map, ◌≡◌, refl, ◌∙◌, ap, arith, find,
  update_first, truthy, Bool-cases, Option-cases, inl, inr,
}
use mathlib.Core.Option
use constrails.Models.{Uuid, Time}
use constrails.Config.{Settings}
use constrails.Approval.{
  ApprovalRequest, pending, Event, Payload, OutboxItem, Answer, response, raised, ApprovalDb, Net,
  Sendable, by_id, get_request, enqueue_webhook, delivery_of, exhaust, record_answer, emit_webhook,
}
use constrails.Approval.Outbox.{
  deliver_outbox_item, DrainResult, tick, drain_rows, drain_outbox, auto_drain, after_emission,
  reread, announce, retry_webhook,
}

-- A request without what its webhooks report.
abbrev pub core : ApprovalRequest → ApprovalRequest
core a = record a {
  webhook_delivery_status = pending;
  webhook_delivery_attempts = 0;
  webhook_last_attempt_at = none;
  webhook_last_response_code = none;
  webhook_last_error = none;
}

abbrev pub cores : ApprovalDb → List ApprovalRequest
cores db = map core db.approvals

map-core-update_first :
    (p : ApprovalRequest → Bool) (f : ApprovalRequest → ApprovalRequest) (xs : List ApprovalRequest)
    → ((a : ApprovalRequest) → core (f a) ≡ core a)
    → map core (update_first p f xs) ≡ map core xs
unfolding update_first
map-core-update_first p f [] h = refl
map-core-update_first p f (x ∷ xs) h = ground (arith, h x, map-core-update_first p f xs h)

pub find-core :
    (p : ApprovalRequest → Bool) (xs : List ApprovalRequest)
    → ((a : ApprovalRequest) → p (core a) ≡ p a)
    → find p (map core xs) ≡ Option.map core (find p xs)
unfolding find
find-core p [] h = refl
find-core p (x ∷ xs) h = ground (arith, h x, find-core p xs h)

module _ (settings : Settings) (net : Net) (now : Time) where
  cores-record_answer :
      (id : Uuid) (attempts : ℕ) (retrying : Bool) (answer : Answer) (db : ApprovalDb)
      → cores (record_answer settings now id attempts retrying answer db) ≡ cores db
  unfolding record_answer
  cores-record_answer id attempts retrying (response code) db =
      map-core-update_first (by_id id) (delivery_of now _ code none) db.approvals (λ a. refl)
  cores-record_answer id attempts retrying (raised error) db =
      map-core-update_first (by_id id) (delivery_of now _ none (some error)) db.approvals
        (λ a. refl)

  cores-exhaust :
      (id : Uuid) (db : ApprovalDb)
      → map core (update_first (by_id id) exhaust db.approvals) ≡ map core db.approvals
  cores-exhaust id db = map-core-update_first (by_id id) exhaust db.approvals (λ a. refl)

  cores-emit_webhook :
      (id : Uuid) (payload : Payload) (retrying : Bool) (db : ApprovalDb)
      → cores (emit_webhook settings net now id payload retrying db).1 ≡ cores db
  unfolding emit_webhook
  cores-emit_webhook id payload retrying db = elim (Option-cases (get_request id db)) [
    | inl missing ↦ ground arith
    | inr (a, found) ↦ ground (
      arith,
      cores-exhaust id db,
      cores-record_answer id a.webhook_delivery_attempts retrying (net.post db.posts payload)
          (record db { posts = payload ∷ db.posts }),
    )
  ]

  approvals-deliver_outbox_item :
      (outbox_id : Uuid) (db : ApprovalDb)
      → (deliver_outbox_item settings net now outbox_id db).1.approvals ≡ db.approvals
  unfolding deliver_outbox_item
  approvals-deliver_outbox_item outbox_id db = ground arith

  pub approvals-drain_rows :
      (rows : List OutboxItem) (r : DrainResult) (db : ApprovalDb)
      → (drain_rows settings net now rows r db).1.approvals ≡ db.approvals
  unfolding drain_rows
  approvals-drain_rows [] r db = refl
  approvals-drain_rows (row ∷ rows) r db =
      approvals-drain_rows rows (tick (deliver_outbox_item settings net now row.outbox_id db).0 r)
        (deliver_outbox_item settings net now row.outbox_id db).1
      ∙ approvals-deliver_outbox_item row.outbox_id db

  pub cores-drain_outbox :
      (limit : ℕ) (db : ApprovalDb) → cores (drain_outbox settings net now limit db).1 ≡ cores db
  unfolding drain_outbox
  cores-drain_outbox limit db = ap (map core) (approvals-drain_rows _ _ db)

  cores-auto_drain : (db : ApprovalDb) → cores (auto_drain settings net now db) ≡ cores db
  unfolding auto_drain
  cores-auto_drain db =
      ground (arith, cores-drain_outbox settings.approval_outbox_auto_drain_limit db)

  cores-after_emission :
      (r : Bool × ApprovalDb) → cores (after_emission settings net now r).1 ≡ cores r.1
  unfolding after_emission
  cores-after_emission (false, db) = refl
  cores-after_emission (true, db) = cores-auto_drain db

  pub state-reread : (id : Uuid) (r : Bool × ApprovalDb) → (reread settings net now id r).1 ≡ r.1
  unfolding reread
  state-reread id (false, db) = refl
  state-reread id (true, db) = refl

  cores-reread :
      (id : Uuid) (r : Bool × ApprovalDb) → cores (reread settings net now id r).1 ≡ cores r.1
  cores-reread id r = ap cores (state-reread id r)

  emit_webhook-Sendable :
      (id : Uuid) (payload : Payload) (retrying : Bool) (db : ApprovalDb)
      → Sendable settings net
      → (emit_webhook settings net now id payload retrying db).0 ≡ true
  unfolding emit_webhook
  emit_webhook-Sendable id payload retrying db sendable =
      elim (Bool-cases (truthy settings.approval_webhook_url)) [
        | inr off ↦ ground (arith, off)
        | inl on ↦ ground (arith, on, sendable on)
      ]

  after_emission-true :
      (r : Bool × ApprovalDb) → r.0 ≡ true → (after_emission settings net now r).0 ≡ true
  unfolding after_emission
  after_emission-true (false, db) e = e
  after_emission-true (true, db) e = refl

  pub announce-Sendable :
      (outbox_id : Uuid) (a : ApprovalRequest) (event : Event) (db : ApprovalDb)
      → Sendable settings net
      → (announce settings net now outbox_id a event db).0 ≡ true
  unfolding announce
  announce-Sendable outbox_id a event db sendable =
      after_emission-true _ (emit_webhook-Sendable a.approval_id _ false _ sendable)

  pub answer-reread :
      (id : Uuid) (r : Bool × ApprovalDb)
      → r.0 ≡ true
      → (reread settings net now id r).0 ≡ some (get_request id r.1)
  unfolding reread
  answer-reread id (false, db) e = absurd (ground arith)
  answer-reread id (true, db) e = refl

  -- Announcing an event changes of the requests only what their webhooks report.
  pub cores-announce :
      (outbox_id : Uuid) (a : ApprovalRequest) (event : Event) (db : ApprovalDb)
      → cores (announce settings net now outbox_id a event db).1 ≡ cores db
  unfolding announce enqueue_webhook
  cores-announce outbox_id a event db =
      cores-after_emission (
        emit_webhook settings net now a.approval_id _ false
          (enqueue_webhook now outbox_id _ _ _ db))
      ∙ cores-emit_webhook a.approval_id _ false _

  -- A retry of a webhook, whether the request exists and whatever the receiver answers, adds and removes no
  -- request, and changes of each only what its webhooks report.
  pub cores-retry_webhook :
      (outbox_id id : Uuid) (db : ApprovalDb)
      → cores (retry_webhook settings net now outbox_id id db).1 ≡ cores db
  unfolding retry_webhook enqueue_webhook
  cores-retry_webhook outbox_id id db = elim (Option-cases (get_request id db)) [
    | inl missing ↦ rw (missing, retry_webhook)
    | inr (a, found) ↦
        rw (found, retry_webhook)
          (cores-reread id _ ∙ cores-after_emission _ ∙ cores-emit_webhook a.approval_id _ true _)
  ]
