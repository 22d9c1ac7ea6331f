-- ===== src/Approval/Refinement.antt =====
-- The approval service as a ledger: what its promise is, without outbox, webhooks and clocks.
use constrails.Prelude.{
  ℕ, zero, suc, String, Bool, Option, none, some, List, [], ◌∷◌, ◌++◌, map, ◌≡◌, refl, sym, ap, ◌∙◌,
  arith, if◌then◌else◌, nat_eq, find, any, is_some, update_first, Option-cases, inl, inr,
}
use constrails.Models.{Uuid, Time}
use constrails.Config.{Settings}
use constrails.Approval.{
  ApprovalRequest, ApprovalDb, Net, Event, created, approved, denied, by_id, by_request,
  get_request,
}
use constrails.Approval.Outbox.{
  WorkerResult, decided, announce, create_request, decide, retry_webhook, drain_outbox, run_worker,
}
use constrails.Approval.Create.{create_new}
use constrails.Approval.Decide.{decide_found}
use constrails.Approval.Laws.{core, cores, cores-announce, cores-retry_webhook, cores-drain_outbox}

-- A request, and what was decided on it by whom.
pub record Entry : Type 0 where
  pub approval_id : Uuid
  pub request_id : Uuid
  pub approved : Option Bool
  pub approver_id : Option String

abbrev pub Ledger : Type 0
Ledger = List Entry

abbrev pub entry : ApprovalRequest → Entry
entry a = record {
  approval_id = a.approval_id;
  request_id = a.request_id;
  approved = a.approved;
  approver_id = a.approver_id;
}

abbrev pub ledger : ApprovalDb → Ledger
ledger db = map entry db.approvals

-- The calls of the service that write, each with its reading of the clock.
pub data Command : Type 0 where
  submit : Time → Uuid → ApprovalRequest → Command
  decision : Time → Uuid → Uuid → Bool → String → Option String → Command
  retried : Time → Uuid → Uuid → Command
  drained : Time → ℕ → Command
  worked : Time → ℕ → ℕ → WorkerResult → Command

abbrev same_request : Uuid → Entry → Bool
same_request id e = nat_eq e.request_id id

abbrev same_approval : Uuid → Entry → Bool
same_approval id e = nat_eq e.approval_id id

abbrev ruled : Bool → String → Entry → Entry
ruled verdict approver e = record e { approved = some verdict; approver_id = some approver }

-- What the service promises: a request is entered once, a decision rules it, and what is about webhooks
-- changes nothing.
unfoldable pub promised : Command → Ledger → Ledger
promised (submit now outbox_id fresh) l =
    if any (same_request fresh.request_id) l then l else l ++ entry fresh ∷ []
promised (decision now outbox_id id verdict approver comment) l =
    update_first (same_approval id) (ruled verdict approver) l
promised _ l = l

module _ (settings : Settings) (net : Net) where
  unfoldable pub perform : Command → ApprovalDb → ApprovalDb
  perform (submit now outbox_id fresh) db = (create_request settings net now outbox_id fresh db).1
  perform (decision now outbox_id id verdict approver comment) db =
      (decide settings net now outbox_id id verdict approver comment db).1
  perform (retried now outbox_id id) db = (retry_webhook settings net now outbox_id id db).1
  perform (drained now limit) db = (drain_outbox settings net now limit db).1
  perform (worked now cycles limit w) db = (run_worker settings net now cycles limit w db).1

-- The commands, the last one first.
unfoldable pub all_promised : List Command → Ledger → Ledger
all_promised [] l = l
all_promised (c ∷ cs) l = promised c (all_promised cs l)

unfoldable pub perform_all : Settings → Net → List Command → ApprovalDb → ApprovalDb
perform_all settings net [] db = db
perform_all settings net (c ∷ cs) db = perform settings net c (perform_all settings net cs db)

map-entry-core : (xs : List ApprovalRequest) → map entry (map core xs) ≡ map entry xs
map-entry-core [] = refl
map-entry-core (x ∷ xs) = ap (λ more. entry x ∷ more) (map-entry-core xs)

-- What keeps the requests but for their webhooks keeps the ledger.
ledger-cores :
    (db : ApprovalDb) (xs : List ApprovalRequest)
    → cores db ≡ map core xs
    → ledger db ≡ map entry xs
ledger-cores db xs e = sym (map-entry-core db.approvals) ∙ ap (map entry) e ∙ map-entry-core xs

map-append :
    (xs : List ApprovalRequest) (x : ApprovalRequest)
    → map entry (xs ++ x ∷ []) ≡ map entry xs ++ entry x ∷ []
map-append [] x = refl
map-append (y ∷ ys) x = ap (λ more. entry y ∷ more) (map-append ys x)

any-find :
    (id : Uuid) (xs : List ApprovalRequest)
    → any (same_request id) (map entry xs) ≡ is_some (find (by_request id) xs)
unfolding any find
any-find id [] = refl
any-find id (x ∷ xs) = ground (arith, any-find id xs)

missing-update_first :
    (p : ApprovalRequest → Bool) (f : ApprovalRequest → ApprovalRequest) (xs : List ApprovalRequest)
    → find p xs ≡ none
    → update_first p f xs ≡ xs
unfolding find update_first
missing-update_first p f [] h = refl
missing-update_first p f (x ∷ xs) h = ground (arith, h, missing-update_first p f xs)

module _ (settings : Settings) (net : Net) (now : Time) where
  map-ruled :
      (id : Uuid) (verdict : Bool) (approver : String) (comment : Option String)
      (xs : List ApprovalRequest)
      → map entry (update_first (by_id id) (decided settings net now verdict approver comment) xs)
        ≡ update_first (same_approval id) (ruled verdict approver) (map entry xs)
  unfolding update_first
  map-ruled id verdict approver comment [] = refl
  map-ruled id verdict approver comment (x ∷ xs) =
      ground (arith, map-ruled id verdict approver comment xs)

  cores-run_worker :
      (cycles limit : ℕ) (w : WorkerResult) (db : ApprovalDb)
      → cores (run_worker settings net now cycles limit w db).1 ≡ cores db
  unfolding run_worker
  cores-run_worker zero limit w db = refl
  cores-run_worker (suc cycles) limit w db =
      cores-run_worker cycles limit _ (drain_outbox settings net now limit db).1
      ∙ cores-drain_outbox settings net now limit db

  module _ (outbox_id : Uuid) (db : ApprovalDb) where
    submitted :
        (fresh : ApprovalRequest)
        → ledger (create_request settings net now outbox_id fresh db).1
          ≡ promised (submit now outbox_id fresh) (ledger db)
    unfolding promised
    submitted fresh = elim (Option-cases (find (by_request fresh.request_id) db.approvals)) [
      | inr (existing, e) ↦
          let kept : (create_request settings net now outbox_id fresh db).1 ≡ db =
            unfold create_request in ground (arith, e) in
          ap ledger kept ∙ ground (arith, e, any-find fresh.request_id db.approvals)
      | inl new ↦
          let added : ApprovalDb = record db { approvals = db.approvals ++ fresh ∷ [] } in
          let told : (create_request settings net now outbox_id fresh db).1
              ≡ (announce settings net now outbox_id fresh created added).1 =
            create_new settings net now outbox_id fresh db new in
          ap ledger told
          ∙ ledger-cores (announce settings net now outbox_id fresh created added).1
              (db.approvals ++ fresh ∷ [])
              (cores-announce settings net now outbox_id fresh created added)
          ∙ map-append db.approvals fresh
          ∙ ground (arith, new, any-find fresh.request_id db.approvals)
    ]

    ruled_on :
        (id : Uuid) (verdict : Bool) (approver : String) (comment : Option String)
        → ledger (decide settings net now outbox_id id verdict approver comment db).1
          ≡ promised (decision now outbox_id id verdict approver comment) (ledger db)
    unfolding promised
    ruled_on id verdict approver comment =
        let f = decided settings net now verdict approver comment in
        elim (Option-cases (get_request id db)) [
          | inl missing ↦
              let kept : (decide settings net now outbox_id id verdict approver comment db).1 ≡ db =
                unfold decide in ground (arith, missing) in
              ap ledger kept
              ∙ sym (
                  ap (map entry) (
                    missing-update_first (by_id id) f db.approvals (unfold get_request in missing)))
              ∙ map-ruled id verdict approver comment db.approvals
          | inr (a, found) ↦
              let marked : ApprovalDb = record db {
                approvals = update_first (by_id id) f db.approvals;
              } in
              let event : Event = if verdict then approved else denied in
              let told : (decide settings net now outbox_id id verdict approver comment db).1
                  ≡ (announce settings net now outbox_id (f a) event marked).1 =
                decide_found settings net now outbox_id id verdict approver comment db a found in
              ap ledger told
              ∙ ledger-cores (announce settings net now outbox_id (f a) event marked).1
                  marked.approvals (cores-announce settings net now outbox_id (f a) event marked)
              ∙ map-ruled id verdict approver comment db.approvals
        ]

module _ (settings : Settings) (net : Net) where
  perform-promised :
      (c : Command) (db : ApprovalDb) → ledger (perform settings net c db) ≡ promised c (ledger db)
  unfolding perform promised
  perform-promised (submit now outbox_id fresh) db =
      unfold promised in submitted settings net now outbox_id db fresh
  perform-promised (decision now outbox_id id verdict approver comment) db =
      ruled_on settings net now outbox_id db id verdict approver comment
  perform-promised (retried now outbox_id id) db =
      ledger-cores (retry_webhook settings net now outbox_id id db).1 db.approvals
        (cores-retry_webhook settings net now outbox_id id db)
  perform-promised (drained now limit) db =
      ledger-cores (drain_outbox settings net now limit db).1 db.approvals
        (cores-drain_outbox settings net now limit db)
  perform-promised (worked now cycles limit w) db =
      ledger-cores (run_worker settings net now cycles limit w db).1 db.approvals
        (cores-run_worker settings net now cycles limit w db)

-- Whatever calls of the service are made, and whatever the receiver of the webhooks answers, the requests and
-- the decisions in the database are those of a ledger in which a request is entered once, a decision rules
-- the request that it names, and retries, drains and workers change nothing.
pub perform_all-ledger :
    (settings : Settings) (net : Net) (cs : List Command) (db : ApprovalDb)
    → ledger (perform_all settings net cs db) ≡ all_promised cs (ledger db)
unfolding perform_all all_promised
perform_all-ledger settings net [] db = refl
perform_all-ledger settings net (c ∷ cs) db =
    perform-promised settings net c (perform_all settings net cs db)
    ∙ ap (promised c) (perform_all-ledger settings net cs db)
