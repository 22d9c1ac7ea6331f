-- ===== src/Approval/Decide.antt =====
-- What a decision on an approval request changes.
use constrails.Prelude.{
  String, Bool, true, false, Option, none, some, List, [], ◌∷◌, ◌≡◌, refl, sym, ◌∙◌, ap, arith,
  nat_eq, nat_eq_iff, if◌then◌else◌, find, update_first, Bool-cases, Option-cases, inl, inr,
}
use mathlib.Core.Option
use constrails.Models.{Uuid, Time}
use constrails.Config.{Settings}
use constrails.Approval.{
  ApprovalRequest, Event, approved, denied, ApprovalDb, Net, by_id, get_request,
}
use constrails.Approval.Outbox.{announce, decided, decide}
use constrails.Approval.Laws.{core, cores, find-core, cores-announce, state-reread}

module _ (settings : Settings) (net : Net) (now : Time) where
  find-update_first :
      (f : ApprovalRequest → ApprovalRequest) (i j : Uuid) (xs : List ApprovalRequest)
      → ((a : ApprovalRequest) → (f a).approval_id ≡ a.approval_id)
      → find (by_id i) (update_first (by_id j) f xs)
        ≡ (if nat_eq i j then Option.map f (find (by_id i) xs) else find (by_id i) xs)
  unfolding find update_first
  find-update_first f i j [] h = ground arith
  find-update_first f i j (x ∷ xs) h = ground (arith, h x, find-update_first f i j xs h)

  get_request-core :
      (id : Uuid) (db : ApprovalDb)
      → Option.map core (get_request id db) ≡ find (by_id id) (cores db)
  unfolding get_request
  get_request-core id db = sym (find-core (by_id id) db.approvals (λ a. refl))

  module _ (outbox_id id : Uuid) (verdict : Bool) (approver_id : String)
      (comment : Option String) where
    abbrev mark : ApprovalRequest → ApprovalRequest
    mark = decided settings net now verdict approver_id comment

    map-mark :
        (b : Bool) (o : Option ApprovalRequest)
        → Option.map core (if b then Option.map mark o else o)
          ≡ (if b then Option.map (λ a. mark (core a)) o else Option.map core o)
    map-mark true none = refl
    map-mark true (some a) = refl
    map-mark false o = refl

    missing_decided :
        (i : Uuid) (db : ApprovalDb)
        → get_request id db ≡ none
        → Option.map core (get_request i db) ≡ (
            if nat_eq i id
            then Option.map (λ a. mark (core a)) (get_request i db)
            else Option.map core (get_request i db))
    missing_decided i db m = elim (Bool-cases (nat_eq i id)) [
      | inl same ↦ let e : get_request i db ≡ none = rw ((nat_eq_iff i id).0 same) m in rw (same, e)
      | inr other ↦ rw other
    ]

    map_decided :
        (i : Uuid) (db : ApprovalDb)
        → Option.map core (find (by_id i) (update_first (by_id id) mark db.approvals)) ≡ (
            if nat_eq i id
            then Option.map (λ a. mark (core a)) (find (by_id i) db.approvals)
            else Option.map core (find (by_id i) db.approvals))
    map_decided i db =
        rw (find-update_first mark i id db.approvals (λ a. refl))
          (map-mark (nat_eq i id) (find (by_id i) db.approvals))

    abbrev marked : ApprovalDb → ApprovalDb
    marked db = record db { approvals = update_first (by_id id) mark db.approvals }

    abbrev event : Event
    event = if verdict then approved else denied

    decide_missing :
        (db : ApprovalDb)
        → get_request id db ≡ none
        → (decide settings net now outbox_id id verdict approver_id comment db).1 ≡ db
    unfolding decide
    decide_missing db m = ground arith

    pub decide_found :
        (db : ApprovalDb) (a : ApprovalRequest)
        → get_request id db ≡ some a
        → (decide settings net now outbox_id id verdict approver_id comment db).1
          ≡ (announce settings net now outbox_id (mark a) event (marked db)).1
    unfolding decide
    decide_found db a m =
        rw (m, decide)
          (state-reread settings net now id
            (announce settings net now outbox_id (mark a) event (marked db)))

    -- The request with the decision written into it.
    abbrev pub ruled : ApprovalRequest → ApprovalRequest
    ruled a = record a {
      approved = some verdict;
      approver_id = some approver_id;
      reviewed_at = some now;
      review_comment = comment;
    }

    -- A decision on a request that exists writes the verdict, the approver, the time and the comment
    -- into that request; otherwise it changes of every request only what its webhooks report. A
    -- decision on a request that does not exist leaves every request as it was, but for that report.
    pub get_request-decide :
        (i : Uuid) (db : ApprovalDb)
        → Option.map core
            (get_request i (decide settings net now outbox_id id verdict approver_id comment db).1)
          ≡ (if nat_eq i id
              then Option.map (λ a. ruled (core a)) (get_request i db)
              else Option.map core (get_request i db))
    unfolding get_request
    get_request-decide i db = elim (Option-cases (get_request id db)) [
      | inl missing ↦ rw (decide_missing db missing) (missing_decided i db missing)
      | inr (a, found) ↦ rw (decide_found db a found) (
          get_request-core i (announce settings net now outbox_id (mark a) event (marked db)).1
          ∙ ap (find (by_id i))
              (cores-announce settings net now outbox_id (mark a) event (marked db))
          ∙ find-core (by_id i) (marked db).approvals (λ a. refl)
          ∙ map_decided i db)
    ]
