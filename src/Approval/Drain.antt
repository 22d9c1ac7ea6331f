-- ===== src/Approval/Drain.antt =====
-- How the worker of the outbox empties it.
use constrails.Prelude.{
  ℕ, zero, suc, ◌+◌, ◌-◌, ◌*◌, ◌≤◌, true, Option, List, [], ◌∷◌, ◌≡◌, ap, ◌∙◌, arith, truthy,
  length, take, all, find, keep, count, length-keep, update_first, sort_by, all-take, all-sort_by,
  Option-cases, inl, inr,
}
use constrails.Models.{Time}
use constrails.Config.{Settings}
use constrails.Approval.{OutboxItem, Payload, ApprovalDb, Net, Sendable, response}
use constrails.Approval.Outbox.{
  by_outbox_id, is_open, deliver_item, older_first, DrainResult, WorkerResult, tick,
  deliver_outbox_item, drain_rows, drain_outbox, run_worker,
}
use constrails.Approval.Distinct.{
  Distinct, open_found, all_found-deliver, Distinct-deliver, count-deliver, Distinct-take,
  Distinct-sort_by, Distinct-keep, all_found-keep, rest-take, length-sort_by,
}

-- The receiver answers every POST.
abbrev pub Answers : Net → Type 0
Answers net =
    (posts : List Payload) (payload : Payload)
    → (code : Option ℕ) × (net.post posts payload ≡ response code)

abbrev pub open_count : ApprovalDb → ℕ
open_count db = count is_open db.outbox

module _ (settings : Settings) (net : Net) (now : Time) (answers : Answers net)
    (set : truthy settings.approval_webhook_url ≡ true) (sendable : Sendable settings net) where
  deliver-found :
      (row : OutboxItem) (db : ApprovalDb)
      → open_found db.outbox row ≡ true
      → (deliver_outbox_item settings net now row.outbox_id db).1.outbox
        ≡ update_first (by_outbox_id row.outbox_id) (deliver_item now) db.outbox
  unfolding deliver_outbox_item
  deliver-found row db h = elim (Option-cases (find (by_outbox_id row.outbox_id) db.outbox)) [
    | inl missing ↦ absurd (ground (arith, h, missing))
    | inr (item, e) ↦ ground (arith, e, set, sendable set, (answers db.posts item.payload).1)
  ]

  drain_rows-open :
      (rows : List OutboxItem) (r : DrainResult) (db : ApprovalDb)
      → Distinct rows
      → all (open_found db.outbox) rows ≡ true
      → Distinct db.outbox
      → (open_count (drain_rows settings net now rows r db).1 + length rows ≡ open_count db)
        × Distinct (drain_rows settings net now rows r db).1.outbox
  unfolding drain_rows Distinct all
  drain_rows-open [] r db d h u = (omega arith, u)
  drain_rows-open (row ∷ rows) r db d h u =
      let here : open_found db.outbox row ≡ true = ground (arith, h) in
      let after = deliver_outbox_item settings net now row.outbox_id db in
      let e = deliver-found row db here in
      let fewer = count-deliver now row db.outbox here in
      let (less, kept) =
        drain_rows-open rows (tick after.0 r) after.1 d.1
          (rw e (all_found-deliver now row.outbox_id rows db.outbox d.0 (ground (arith, h))))
          (rw e (Distinct-deliver now row.outbox_id db.outbox u)) in
      (omega (arith, less, fewer, ap (count is_open) e), kept)

  drain_outbox-open :
      (limit : ℕ) (db : ApprovalDb)
      → Distinct db.outbox
      → (open_count (drain_outbox settings net now limit db).1 ≡ open_count db - limit)
        × Distinct (drain_outbox settings net now limit db).1.outbox
  unfolding drain_outbox
  drain_outbox-open limit db u =
      let open_items = keep is_open db.outbox in
      let sorted = sort_by older_first open_items in
      let (less, kept) =
        drain_rows-open (take limit sorted)
          (record { processed = 0; sent_count = 0; failed_count = 0 }) db
          (Distinct-take limit sorted
            (Distinct-sort_by open_items (Distinct-keep is_open db.outbox u)))
          (all-take (open_found db.outbox) limit sorted (
            all-sort_by (open_found db.outbox) older_first open_items ∙ all_found-keep db.outbox u))
          u in
      (
        omega (
          arith,
          less,
          rest-take limit sorted,
          length-sort_by open_items,
          length-keep is_open db.outbox,
        ),
        kept,
      )

  worker-open :
      (cycles limit : ℕ) (w : WorkerResult) (db : ApprovalDb)
      → Distinct db.outbox
      → open_count db ≤ cycles * limit
      → open_count (run_worker settings net now cycles limit w db).1 ≡ 0
  unfolding run_worker
  worker-open zero limit w db u h = omega (arith, h)
  worker-open (suc cycles) limit w db u h =
      let (less, kept) = drain_outbox-open limit db u in
      worker-open cycles limit _ (drain_outbox settings net now limit db).1 kept
        (omega (arith, less, h))

-- Where a webhook is configured at an address that `Request` takes, the receiver answers every POST and no
-- two items of the outbox share an identifier, a worker whose cycles have room for all open items leaves none of them open.
pub run_worker-empties :
    (settings : Settings) (net : Net) (now : Time) (cycles limit : ℕ) (w : WorkerResult)
    (db : ApprovalDb)
    → Answers net
    → truthy settings.approval_webhook_url ≡ true
    → Sendable settings net
    → Distinct db.outbox
    → open_count db ≤ cycles * limit
    → open_count (run_worker settings net now cycles limit w db).1 ≡ 0
run_worker-empties settings net now cycles limit w db answers set sendable u h =
    worker-open settings net now answers set sendable cycles limit w db u h
