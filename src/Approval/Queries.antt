-- ===== src/Approval/Queries.antt =====
-- src/constrail/approval.py: the operations that only read. And what a drain reports and keeps.
use constrails.Prelude.{
  ℕ, suc, ◌+◌, String, Bool, true, false, not, ◌&&◌, Option, none, some, List, [], ◌∷◌, ◌≡◌, ◌≤◌,
  refl, ◌∙◌, zero, ◌==◌, arith, take, update_first, Option-cases, find, ◌⊎◌, inl, inr, keep, count,
  length, leb, sort_by,
}
use constrails.Models.{Uuid, Time}
use constrails.Config.{Settings}
use constrails.Approval.{
  ApprovalRequest, ApprovalDb, OutboxItem, waiting, sent, broken, Net, webhook_url, get_request,
  Answer, response, raised,
}
use constrails.Approval.Outbox.{
  drain_outbox, drain_rows, DrainResult, tick, deliver_outbox_item, by_outbox_id, deliver_item,
  fail_item, is_open, older_first,
}

-- `column == value` where a value is given. A request that is not decided has no value in the column.
abbrev bool_filter : Option Bool → Option Bool → Bool
bool_filter none b = true
bool_filter (some f) none = false
bool_filter (some true) (some b) = b
bool_filter (some false) (some b) = not b

abbrev text_filter : Option String → String → Bool
text_filter none s = true
text_filter (some f) s = s == f

abbrev pub newest_first : ApprovalRequest → ApprovalRequest → Bool
newest_first a b = leb b.created_at a.created_at

-- The rows that the filters of `list_requests` let through.
unfoldable pub listed : Option Bool → Option String → Option String → ApprovalRequest → Bool
listed approved agent_id tool a =
    bool_filter approved a.approved && (text_filter agent_id a.agent_id && text_filter tool a.tool)

unfoldable pub list_requests :
    Option Bool → Option String → Option String → ApprovalDb → List ApprovalRequest
list_requests approved agent_id tool db =
    sort_by newest_first (keep (listed approved agent_id tool) db.approvals)

unfoldable pub get_approver_id : Uuid → ApprovalDb → Option String
get_approver_id approval_id db = elim (get_request approval_id db) [
  | none ↦ none
  | some a ↦ a.approver_id
]

pub record OutboxSummary : Type 0 where
  pub total : ℕ
  pub pending_count : ℕ
  pub failed_count : ℕ
  pub delivered_count : ℕ

abbrev is_waiting : OutboxItem → Bool
is_waiting i = elim i.delivery_status [ waiting ↦ true | _ ↦ false ]

abbrev is_broken : OutboxItem → Bool
is_broken i = elim i.delivery_status [ broken ↦ true | _ ↦ false ]

abbrev is_sent : OutboxItem → Bool
is_sent i = elim i.delivery_status [ sent ↦ true | _ ↦ false ]

unfoldable pub outbox_summary : ApprovalDb → OutboxSummary
outbox_summary db = record {
  total = length db.outbox;
  pending_count = count is_waiting db.outbox;
  failed_count = count is_broken db.outbox;
  delivered_count = count is_sent db.outbox;
}

counts_add_up :
    (items : List OutboxItem)
    → count is_waiting items + count is_broken items + count is_sent items ≡ length items
unfolding count
counts_add_up [] = omega arith
counts_add_up (i ∷ items) = ground (arith, counts_add_up items)

length-update_first :
    (p : OutboxItem → Bool) (f : OutboxItem → OutboxItem) (items : List OutboxItem)
    → length (update_first p f items) ≡ length items
unfolding update_first
length-update_first p f [] = refl
length-update_first p f (i ∷ items) = ground (arith, length-update_first p f items)

Answer-cases :
    (a : Answer) → ((code : Option ℕ) × (a ≡ response code)) ⊎ ((e : String) × (a ≡ raised e))
Answer-cases (response code) = inl (code, refl)
Answer-cases (raised e) = inr (e, refl)

length-take : (n : ℕ) (items : List OutboxItem) → length (take n items) ≤ n
length-take zero items = omega arith
length-take (suc n) [] = omega arith
length-take (suc n) (i ∷ items) = omega (arith, length-take n items)

module _ (settings : Settings) (net : Net) (now : Time) where
  length-deliver_outbox_item :
      (id : Uuid) (db : ApprovalDb)
      → length (deliver_outbox_item settings net now id db).1.outbox ≡ length db.outbox
  unfolding deliver_outbox_item
  length-deliver_outbox_item id db = elim (Option-cases (find (by_outbox_id id) db.outbox)) [
    | inl missing ↦ ground (arith, missing)
    | inr (item, found) ↦ elim (Option-cases (net.refuses (webhook_url settings))) [
      | inr (e, refused) ↦
          ground (
            arith,
            found,
            refused,
            length-update_first (by_outbox_id id) (fail_item now e) db.outbox,
          )
      | inl takes ↦ elim (Answer-cases (net.post db.posts item.payload)) [
        | inl (code, is) ↦ ground (
          arith,
          found,
          takes,
          is,
          length-update_first (by_outbox_id id) (deliver_item now) db.outbox,
        )
        | inr (e, is) ↦ ground (
          arith,
          found,
          takes,
          is,
          length-update_first (by_outbox_id id) (fail_item now e) db.outbox,
        )
      ]
    ]
  ]

  ticked :
      (ok : Bool) (r : DrainResult)
      → ((tick ok r).processed ≡ r.processed + 1)
        × ((tick ok r).sent_count + (tick ok r).failed_count ≡ r.sent_count + r.failed_count + 1)
  ticked true r = (refl, omega arith)
  ticked false r = (refl, omega arith)

  drained :
      (rows : List OutboxItem) (r : DrainResult) (db : ApprovalDb)
      → (length (drain_rows settings net now rows r db).1.outbox ≡ length db.outbox)
        × ((drain_rows settings net now rows r db).0.processed ≡ r.processed + length rows)
        × ((drain_rows settings net now rows r db).0.sent_count
              + (drain_rows settings net now rows r db).0.failed_count
            ≡ r.sent_count + r.failed_count + length rows)
  unfolding drain_rows
  drained [] r db = (refl, omega arith, omega arith)
  drained (row ∷ rows) r db =
      let (ok, db') = deliver_outbox_item settings net now row.outbox_id db in
      let (kept, processed, split) = drained rows (tick ok r) db' in
      let one = ticked ok r in
      (
        kept ∙ length-deliver_outbox_item row.outbox_id db,
        omega (arith, processed, one.0),
        omega (arith, split, one.1),
      )

  -- A drain reports as many items sent or failed as it processed, and at most as many as the limit. It adds
  -- and removes no item, and after it, as always, the items that are pending, failed and delivered are
  -- together all items.
  pub drain_outbox_counts :
      (limit : ℕ) (db : ApprovalDb)
      → ((drain_outbox settings net now limit db).0.processed
          ≡ (drain_outbox settings net now limit db).0.sent_count
            + (drain_outbox settings net now limit db).0.failed_count)
        × ((drain_outbox settings net now limit db).0.processed ≤ limit)
        × ((outbox_summary (drain_outbox settings net now limit db).1).total
            ≡ (outbox_summary db).total)
        × ((outbox_summary (drain_outbox settings net now limit db).1).pending_count
              + (outbox_summary (drain_outbox settings net now limit db).1).failed_count
              + (outbox_summary (drain_outbox settings net now limit db).1).delivered_count
            ≡ (outbox_summary db).total)
  unfolding drain_outbox outbox_summary
  drain_outbox_counts limit db =
      let rows = take limit (sort_by older_first (keep is_open db.outbox)) in
      let (kept, processed, split) =
        drained rows (record { processed = 0; sent_count = 0; failed_count = 0 }) db in
      let few = length-take limit (sort_by older_first (keep is_open db.outbox)) in
      (omega (arith, processed, split), omega (arith, processed, few), kept, counts_add_up _ ∙ kept)
