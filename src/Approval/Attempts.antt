-- ===== src/Approval/Attempts.antt =====
-- How many attempts of its webhooks the row of a request counts while no retry is asked for.
use constrails.Prelude.{
  ℕ, ◌≤◌, ◌<◌, String, Bool, true, false, Option, some, List, [], ◌∷◌, ◌++◌, ◌≡◌, refl, sym, subst,
  ◌⊎◌, arith, if◌then◌else◌, find, update_first, truthy, leb, Bool-cases, Option-cases, inl, inr,
}
use constrails.Models.{Uuid, Time}
use constrails.Config.{Settings}
use constrails.Approval.{
  ApprovalRequest, WebhookStatus, Event, created, approved, denied, Payload, Answer, response,
  raised, ApprovalDb, Net, webhook_url, by_id, by_request, get_request, enqueue_webhook,
  delivery_of, exhaust, record_webhook_delivery, record_answer, emit_webhook,
}
use constrails.Approval.Outbox.{
  auto_drain, after_emission, announce, create_request, decided, decide, drain_outbox,
}
use constrails.Approval.Create.{create_new}
use constrails.Approval.Decide.{decide_found}
use constrails.Approval.Laws.{approvals-drain_rows}

-- No row counts more attempts than the number.
abbrev pub AllWithin : ℕ → List ApprovalRequest → Type 0
AllWithin max [] = Unit
AllWithin max (a ∷ rows) = (a.webhook_delivery_attempts ≤ max) × AllWithin max rows

AllWithin-append :
    (max : ℕ) (rows : List ApprovalRequest) (z : ApprovalRequest)
    → AllWithin max rows
    → z.webhook_delivery_attempts ≤ max
    → AllWithin max (rows ++ z ∷ [])
AllWithin-append max [] z h k = (k, tt)
AllWithin-append max (a ∷ rows) z h k = (h.0, AllWithin-append max rows z h.1 k)

-- A change of the first row with a property, where that row stays within the number.
AllWithin-update_first :
    (max : ℕ) (p : ApprovalRequest → Bool) (f : ApprovalRequest → ApprovalRequest)
    (rows : List ApprovalRequest)
    → ((a : ApprovalRequest) → find p rows ≡ some a → (f a).webhook_delivery_attempts ≤ max)
    → AllWithin max rows
    → AllWithin max (update_first p f rows)
unfolding update_first find
AllWithin-update_first max p f [] k h = tt
AllWithin-update_first max p f (a ∷ rows) k h = elim (Bool-cases (p a)) [
  | inl here ↦ rw here (k a (rw here refl), h.1)
  | inr later ↦ rw later (h.0, AllWithin-update_first max p f rows (λ b e. k b (rw later e)) h.1)
]

AllWithin-find :
    (max : ℕ) (p : ApprovalRequest → Bool) (rows : List ApprovalRequest) (a : ApprovalRequest)
    → AllWithin max rows
    → find p rows ≡ some a
    → a.webhook_delivery_attempts ≤ max
unfolding find
AllWithin-find max p [] a h e = absurd (ground arith)
AllWithin-find max p (b ∷ rows) a h e = elim (Bool-cases (p b)) [
  | inl here ↦ ground (arith, h.0, e, here)
  | inr later ↦ AllWithin-find max p rows a h.1 (ground (arith, e, later))
]

module _ (settings : Settings) (net : Net) (now : Time) where
  abbrev pub IsWithin : ApprovalDb → Type 0
  IsWithin db = AllWithin settings.approval_webhook_max_attempts db.approvals

  recorded-IsWithin :
      (id : Uuid) (status : WebhookStatus) (code : Option ℕ) (error : Option String)
      (db : ApprovalDb) (a : ApprovalRequest)
      → get_request id db ≡ some a
      → a.webhook_delivery_attempts < settings.approval_webhook_max_attempts
      → IsWithin db
      → IsWithin (record_webhook_delivery now id status code error db)
  unfolding record_webhook_delivery get_request
  recorded-IsWithin id status code error db a found less h =
      AllWithin-update_first settings.approval_webhook_max_attempts (by_id id)
        (delivery_of now status code error) db.approvals (λ b e. ground (arith, found, e)) h

  answered-IsWithin :
      (id : Uuid) (attempts : ℕ) (answer : Answer) (db : ApprovalDb) (a : ApprovalRequest)
      → get_request id db ≡ some a
      → a.webhook_delivery_attempts < settings.approval_webhook_max_attempts
      → IsWithin db
      → IsWithin (record_answer settings now id attempts false answer db)
  unfolding record_answer
  answered-IsWithin id attempts (response code) db a found less h =
      recorded-IsWithin id _ _ _ db a found less h
  answered-IsWithin id attempts (raised error) db a found less h =
      recorded-IsWithin id _ _ _ db a found less h

  exhausted-IsWithin :
      (id : Uuid) (db : ApprovalDb)
      → IsWithin db
      → IsWithin (record db { approvals = update_first (by_id id) exhaust db.approvals })
  exhausted-IsWithin id db h =
      AllWithin-update_first settings.approval_webhook_max_attempts (by_id id) exhaust db.approvals
        (λ a e. AllWithin-find settings.approval_webhook_max_attempts (by_id id) db.approvals a h e)
        h

  -- What an emission that is not a retry does.
  emit_cases :
      (id : Uuid) (payload : Payload) (db : ApprovalDb)
      → ((emit_webhook settings net now id payload false db).1 ≡ db)
        ⊎ ((emit_webhook settings net now id payload false db).1
            ≡ record db { approvals = update_first (by_id id) exhaust db.approvals })
        ⊎ (a : ApprovalRequest) × (get_request id db ≡ some a)
          × (a.webhook_delivery_attempts < settings.approval_webhook_max_attempts)
          × ((emit_webhook settings net now id payload false db).1
              ≡ record_answer settings now id a.webhook_delivery_attempts false
                  (net.post db.posts payload)
                  (record db { posts = payload ∷ db.posts }))
  unfolding emit_webhook
  emit_cases id payload db = elim (Bool-cases (truthy settings.approval_webhook_url)) [
    | inr off ↦ inl (ground (arith, off))
    | inl on ↦ elim (Option-cases (get_request id db)) [
      | inl missing ↦ inl (ground (arith, missing))
      | inr (a, found) ↦
          elim (Bool-cases
            (leb settings.approval_webhook_max_attempts a.webhook_delivery_attempts)) [
              | inl spent ↦ inr (inl (ground (arith, on, found, spent)))
              | inr left ↦ elim (Option-cases (net.refuses (webhook_url settings))) [
                | inl takes ↦
                    inr (inr (a, found, ground arith, ground (arith, on, found, left, takes)))
                | inr (error, refused) ↦ inl (ground (arith, on, found, left, refused))
              ]
            ]
    ]
  ]

  emit_webhook-IsWithin :
      (id : Uuid) (payload : Payload) (db : ApprovalDb)
      → IsWithin db
      → IsWithin (emit_webhook settings net now id payload false db).1
  emit_webhook-IsWithin id payload db h = elim (emit_cases id payload db) [
    | inl same ↦ subst IsWithin (sym same) h
    | inr (inl spent) ↦ subst IsWithin (sym spent) (exhausted-IsWithin id db h)
    | inr (inr (a, found, less, sent)) ↦ subst IsWithin (sym sent) (
        answered-IsWithin id a.webhook_delivery_attempts (net.post db.posts payload)
          (record db { posts = payload ∷ db.posts }) a (unfold get_request in found) less h)
  ]

  approvals-drain_outbox :
      (limit : ℕ) (db : ApprovalDb)
      → (drain_outbox settings net now limit db).1.approvals ≡ db.approvals
  unfolding drain_outbox
  approvals-drain_outbox limit db = approvals-drain_rows settings net now _ _ db

  approvals-auto_drain :
      (db : ApprovalDb) → (auto_drain settings net now db).approvals ≡ db.approvals
  unfolding auto_drain
  approvals-auto_drain db =
      ground (arith, approvals-drain_outbox settings.approval_outbox_auto_drain_limit db)

  after_emission-IsWithin :
      (r : Bool × ApprovalDb) → IsWithin r.1 → IsWithin (after_emission settings net now r).1
  unfolding after_emission
  after_emission-IsWithin (false, db) h = h
  after_emission-IsWithin (true, db) h = rw (approvals-auto_drain db) h

  announce-IsWithin :
      (outbox_id : Uuid) (a : ApprovalRequest) (event : Event) (db : ApprovalDb)
      → IsWithin db
      → IsWithin (announce settings net now outbox_id a event db).1
  unfolding announce enqueue_webhook
  announce-IsWithin outbox_id a event db h =
      after_emission-IsWithin _ (emit_webhook-IsWithin a.approval_id _ _ h)

  create_cases :
      (outbox_id : Uuid) (fresh : ApprovalRequest) (db : ApprovalDb)
      → ((create_request settings net now outbox_id fresh db).1 ≡ db)
        ⊎ ((create_request settings net now outbox_id fresh db).1
            ≡ (announce settings net now outbox_id fresh created
                (record db { approvals = db.approvals ++ fresh ∷ [] })).1)
  unfolding create_request
  create_cases outbox_id fresh db =
      elim (Option-cases (find (by_request fresh.request_id) db.approvals)) [
        | inl missing ↦ inr (create_new settings net now outbox_id fresh db missing)
        | inr (old, found) ↦ inl (ground (arith, found))
      ]

  create_request-IsWithin :
      (outbox_id : Uuid) (fresh : ApprovalRequest) (db : ApprovalDb)
      → fresh.webhook_delivery_attempts ≡ 0
      → IsWithin db
      → IsWithin (create_request settings net now outbox_id fresh db).1
  create_request-IsWithin outbox_id fresh db unsent h = elim (create_cases outbox_id fresh db) [
    | inl same ↦ subst IsWithin (sym same) h
    | inr new ↦ subst IsWithin (sym new) (
        announce-IsWithin outbox_id fresh created
          (record db { approvals = db.approvals ++ fresh ∷ [] })
          (AllWithin-append settings.approval_webhook_max_attempts db.approvals fresh h
            (omega arith)))
  ]

  module _ (outbox_id id : Uuid) (verdict : Bool) (approver_id : String)
      (comment : Option String) where
    abbrev mark : ApprovalRequest → ApprovalRequest
    mark = decided settings net now verdict approver_id comment

    decide_cases :
        (db : ApprovalDb)
        → ((decide settings net now outbox_id id verdict approver_id comment db).1 ≡ db)
          ⊎ (a : ApprovalRequest) × (event : Event) × ((decide settings net now outbox_id id verdict
                approver_id comment db).1
              ≡ (announce settings net now outbox_id a event
                  (record db { approvals = update_first (by_id id) mark db.approvals })).1)
    unfolding decide
    decide_cases db = elim (Option-cases (get_request id db)) [
      | inl missing ↦ inl (ground (arith, missing))
      | inr (a, found) ↦ inr (
        mark a,
        (if verdict then approved else denied),
        decide_found settings net now outbox_id id verdict approver_id comment db a found,
      )
    ]

    decide-IsWithin :
        (db : ApprovalDb)
        → IsWithin db
        → IsWithin (decide settings net now outbox_id id verdict approver_id comment db).1
    decide-IsWithin db h = elim (decide_cases db) [
      | inl same ↦ subst IsWithin (sym same) h
      | inr (a, event, e) ↦ subst IsWithin (sym e) (
          announce-IsWithin outbox_id a event _ (
            AllWithin-update_first settings.approval_webhook_max_attempts (by_id id) mark
              db.approvals
              (λ b k.
                AllWithin-find settings.approval_webhook_max_attempts (by_id id) db.approvals b h k)
              h))
    ]

    -- If no row of a request counts more attempts than the configured number, then none does after a
    -- new request, with no attempt so far, is created, and none after a decision, whatever the receiver
    -- answers. The deliveries of the outbox, which the rows do not count, are not bounded by this.
    pub attempts-IsWithin :
        (fresh : ApprovalRequest) (db : ApprovalDb)
        → fresh.webhook_delivery_attempts ≡ 0
        → IsWithin db
        → IsWithin (create_request settings net now outbox_id fresh db).1
          × IsWithin (decide settings net now outbox_id id verdict approver_id comment db).1
    attempts-IsWithin fresh db unsent h =
        (create_request-IsWithin outbox_id fresh db unsent h, decide-IsWithin db h)
