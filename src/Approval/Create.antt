-- ===== src/Approval/Create.antt =====
-- What creating an approval request does, also where the address of the webhook is refused.
use constrails.Prelude.{
  ◌<◌, String, truthy, Bool, false, true, Option, none, some, List, [], ◌∷◌, ◌++◌, ◌≡◌, refl, sym,
  ◌∙◌, ap, arith, nat_eq_iff, find, Option-cases, inl, inr,
}
use mathlib.Core.Option
use constrails.Models.{Uuid, Time}
use constrails.Config.{Settings}
use constrails.Approval.{
  ApprovalRequest, created, ApprovalDb, Net, Sendable, by_id, by_request, get_request, webhook_url,
  enqueue_webhook, build_event_payload, emit_webhook,
}
use constrails.Approval.Outbox.{announce, reread, create_request, after_emission}
use constrails.Approval.Laws.{
  core, find-core, cores-announce, state-reread, answer-reread, announce-Sendable,
}

find-append :
    (p : ApprovalRequest → Bool) (xs : List ApprovalRequest) (y : ApprovalRequest)
    → find p xs ≡ none
    → p y ≡ true
    → find p (xs ++ y ∷ []) ≡ some y
unfolding find
find-append p [] y h e = ground arith
find-append p (x ∷ xs) y h e = ground (arith, find-append p xs y)

some_of_map :
    (o : Option ApprovalRequest) (b : ApprovalRequest)
    → Option.map core o ≡ some (core b)
    → (a : ApprovalRequest) × (o ≡ some a) × (core a ≡ core b)
some_of_map none b h = absurd (ground arith)
some_of_map (some a) b h = (a, refl, ground arith)

module _ (settings : Settings) (net : Net) (now : Time) where
  abbrev create : Uuid → ApprovalRequest → ApprovalDb → Option (Option ApprovalRequest) × ApprovalDb
  create = create_request settings net now

  module _ (outbox_id : Uuid) (fresh : ApprovalRequest) (db : ApprovalDb) where
    abbrev pub stored : ApprovalDb
    stored = record db { approvals = db.approvals ++ fresh ∷ [] }

    abbrev added : ApprovalDb
    added = (announce settings net now outbox_id fresh created stored).1

    create-reread :
        find (by_request fresh.request_id) db.approvals ≡ none
        → create outbox_id fresh db
          ≡ reread settings net now fresh.approval_id
              (announce settings net now outbox_id fresh created stored)
    unfolding create_request
    create-reread n = ground (arith, n)

    pub create_new :
        find (by_request fresh.request_id) db.approvals ≡ none
        → (create outbox_id fresh db).1 ≡ added
    create_new n =
        ap (λ r. r.1) (create-reread n)
        ∙ state-reread settings net now fresh.approval_id
            (announce settings net now outbox_id fresh created stored)

    -- A row that a test on the unchanging part picks from the new table is the new row.
    added_row :
        (p : ApprovalRequest → Bool)
        → ((a : ApprovalRequest) → p (core a) ≡ p a)
        → find p db.approvals ≡ none
        → p fresh ≡ true
        → (a : ApprovalRequest) × (find p added.approvals ≡ some a) × (core a ≡ core fresh)
    added_row p h n e = some_of_map (find p added.approvals) fresh (
        sym (find-core p added.approvals h)
        ∙ ap (find p) (cores-announce settings net now outbox_id fresh created stored)
        ∙ find-core p (db.approvals ++ fresh ∷ []) h
        ∙ ap (Option.map core) (find-append p db.approvals fresh n e))

    -- A new request, under an approval identifier that is not in use, is returned.
    create_request-new :
        find (by_request fresh.request_id) db.approvals ≡ none
        → Sendable settings net
        → get_request fresh.approval_id db ≡ none
        → (a : ApprovalRequest) × ((create outbox_id fresh db).0 ≡ some (some a))
    unfolding get_request
    create_request-new n sendable m =
        let (a, e, same) =
          added_row (by_id fresh.approval_id) (λ b. refl) m
            ((nat_eq_iff fresh.approval_id fresh.approval_id).1 refl) in
        (
          a,
          ap (λ r. r.0) (create-reread n)
              ∙ answer-reread settings net now fresh.approval_id
                  (announce settings net now outbox_id fresh created stored)
                  (announce-Sendable settings net now outbox_id fresh created stored sendable)
              ∙ ap some e,
        )

    pub create_request-some :
        Sendable settings net
        → get_request fresh.approval_id db ≡ none
        → (a : ApprovalRequest) × ((create outbox_id fresh db).0 ≡ some (some a))
    create_request-some sendable m =
        elim (Option-cases (find (by_request fresh.request_id) db.approvals)) [
          | inr (old, found) ↦ (old, unfold create_request in ground arith)
          | inl missing ↦ create_request-new missing sendable m
        ]

    -- The database with the new row and its item in the outbox.
    abbrev pub queued : ApprovalDb
    queued =
        enqueue_webhook now outbox_id fresh.approval_id created (build_event_payload fresh created)
          stored

    pub get_request-queued :
        get_request fresh.approval_id db ≡ none → get_request fresh.approval_id queued ≡ some fresh
    unfolding get_request enqueue_webhook
    get_request-queued free =
        find-append (by_id fresh.approval_id) db.approvals fresh free
          ((nat_eq_iff fresh.approval_id fresh.approval_id).1 refl)

    announce-refused :
        {error : String}
        → truthy settings.approval_webhook_url ≡ true
        → net.refuses (webhook_url settings) ≡ some error
        → fresh.webhook_delivery_attempts < settings.approval_webhook_max_attempts
        → get_request fresh.approval_id db ≡ none
        → announce settings net now outbox_id fresh created stored ≡ (false, queued)
    unfolding announce emit_webhook after_emission
    announce-refused on refused left free = ground (arith, on, refused, get_request-queued free)

    -- Where the address of the webhook is refused, creating a new request raises, with the request stored.
    pub create_request-refused :
        {error : String}
        → truthy settings.approval_webhook_url ≡ true
        → net.refuses (webhook_url settings) ≡ some error
        → fresh.webhook_delivery_attempts < settings.approval_webhook_max_attempts
        → find (by_request fresh.request_id) db.approvals ≡ none
        → get_request fresh.approval_id db ≡ none
        → create outbox_id fresh db ≡ (none, queued)
    create_request-refused on refused left new free =
        create-reread new
        ∙ ap (reread settings net now fresh.approval_id) (announce-refused on refused left free)
        ∙ unfold reread in refl
