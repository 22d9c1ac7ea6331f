-- ===== src/Cli/Laws.antt =====
-- What the commands have in common with the services behind them.
use constrails.Prelude.{
  ℕ, zero, suc, ◌+◌, ◌≤◌, ◌<◌, Bool, true, false, ◌&&◌, Option, none, some, List, [], ◌∷◌, ◌≡◌,
  refl, sym, ap, ◌∙◌, arith, if◌then◌else◌, ltb, take, keep, length, count, sort_by, insert_by,
  length-keep,
}
use constrails.Models.{Time}
use constrails.Config.{Settings}
use constrails.Approval.{ApprovalRequest, ApprovalDb, Net}
use constrails.Approval.Outbox.{WorkerResult, drain_outbox, run_worker}
use constrails.Approval.Queries
use constrails.Approval.Queries.{list_requests}
use constrails.Cli.{
  only_true, only_false, only_pending, approval_list_command, is_undecided, is_verdict,
  approval_summary_command, CycleSummary, cycle_summary, serve, approval_worker_serve_command,
  approval_run_worker_command,
}

module _ (settings : Settings) (net : Net) (now : Time) where
  -- What the worker's totals are does not matter to the tables.
  run_worker-tables :
      (cycles limit : ℕ) (w w' : WorkerResult) (db : ApprovalDb)
      → (run_worker settings net now cycles limit w db).1
        ≡ (run_worker settings net now cycles limit w' db).1
  unfolding run_worker
  run_worker-tables zero limit w w' db = refl
  run_worker-tables (suc cycles) limit w w' db =
      run_worker-tables cycles limit _ _ (drain_outbox settings net now limit db).1

  run_worker-step :
      (cycles limit : ℕ) (w : WorkerResult) (db : ApprovalDb)
      → (run_worker settings net now (suc cycles) limit w db).1
        ≡ (run_worker settings net now cycles limit w (drain_outbox settings net now limit db).1).1
  unfolding run_worker
  run_worker-step cycles limit w db =
      run_worker-tables cycles limit _ w (drain_outbox settings net now limit db).1

  serve-ends :
      (left fuel max_cycles limit cycle : ℕ) (w : WorkerResult) (db : ApprovalDb)
      → left < fuel
      → max_cycles ≡ cycle + left
      → (out : List CycleSummary) × (serve settings net now fuel (some max_cycles) limit cycle db
          ≡ some (out, (run_worker settings net now left limit w db).1))
        × (length out ≡ left)
  unfolding serve
  serve-ends left zero max_cycles limit cycle w db less e = absurd (omega (arith, less))
  serve-ends zero (suc fuel) max_cycles limit cycle w db less e =
      let stop : ltb cycle max_cycles ≡ false = ground (arith, e) in
      ([], (unfold run_worker in ground (arith, stop)), refl)
  serve-ends (suc left) (suc fuel) max_cycles limit cycle w db less e =
      let on : ltb cycle max_cycles ≡ true = ground (arith, e) in
      let (more, rest, n) =
        serve-ends left fuel max_cycles limit (cycle + 1) w
          (drain_outbox settings net now limit db).1 (omega (arith, less)) (omega (arith, e)) in
      (
        cycle_summary (cycle + 1) (drain_outbox settings net now limit db).0 ∷ more,
        ground (arith, on, rest, run_worker-step left limit w db),
        ap suc n,
      )

  never_ends :
      (fuel limit cycle : ℕ) (db : ApprovalDb)
      → serve settings net now fuel none limit cycle db ≡ none
  unfolding serve
  never_ends zero limit cycle db = refl
  never_ends (suc fuel) limit cycle db =
      ground (arith, never_ends fuel limit (cycle + 1) (drain_outbox settings net now limit db).1)

  -- With a bound on its cycles, the service ends: it prints one summary for each cycle, and leaves the
  -- tables as a worker with that many cycles does. Without a bound, and without an
  -- interrupt, it never ends.
  pub approval_worker_serve_command-ends :
      (max_cycles fuel limit : ℕ) (db : ApprovalDb)
      → max_cycles < fuel
      → ((out : List CycleSummary) × (approval_worker_serve_command settings net now fuel
              (some max_cycles)
              limit
              db
            ≡ some (out, (approval_run_worker_command settings net now max_cycles limit db).1))
          × (length out ≡ max_cycles))
        × (approval_worker_serve_command settings net now fuel none limit db ≡ none)
  unfolding approval_worker_serve_command
  approval_worker_serve_command-ends max_cycles fuel limit db less = (
    serve-ends max_cycles fuel max_cycles limit 0 _ db less (omega arith),
    never_ends fuel limit 0 db,
  )

count-insert_by :
    (p : ApprovalRequest → Bool) (x : ApprovalRequest) (ys : List ApprovalRequest)
    → count p (insert_by Queries.newest_first x ys) ≡ (if p x then suc (count p ys) else count p ys)
unfolding count insert_by
count-insert_by p x [] = ground arith
count-insert_by p x (y ∷ ys) = ground (arith, count-insert_by p x ys)

count-sort_by :
    (p : ApprovalRequest → Bool) (xs : List ApprovalRequest)
    → count p (sort_by Queries.newest_first xs) ≡ count p xs
unfolding count sort_by
count-sort_by p [] = refl
count-sort_by p (x ∷ xs) =
    ground (arith, count-sort_by p xs, count-insert_by p x (sort_by Queries.newest_first xs))

count-keep :
    (p q : ApprovalRequest → Bool) (xs : List ApprovalRequest)
    → count p (keep q xs) ≡ count (λ x. p x && q x) xs
unfolding count keep
count-keep p q [] = refl
count-keep p q (x ∷ xs) = ground (arith, count-keep p q xs)

count_ext :
    (p q : ApprovalRequest → Bool) (xs : List ApprovalRequest)
    → ((x : ApprovalRequest) → p x ≡ q x)
    → count p xs ≡ count q xs
unfolding count
count_ext p q [] h = refl
count_ext p q (x ∷ xs) h = ground (arith, h x, count_ext p q xs h)

take_all : (n : ℕ) (xs : List ApprovalRequest) → length xs ≤ n → take n xs ≡ xs
take_all zero [] h = refl
take_all zero (x ∷ xs) h = absurd (omega (arith, h))
take_all (suc n) [] h = refl
take_all (suc n) (x ∷ xs) h = ap (λ more. x ∷ more) (take_all n xs (omega (arith, h)))

-- How many rows of a filter pass a test.
count-list_requests :
    (p : ApprovalRequest → Bool) (filter : Option Bool) (db : ApprovalDb)
    → count p (list_requests filter none none db)
      ≡ count (λ x. p x && Queries.listed filter none none x) db.approvals
unfolding list_requests
count-list_requests p filter db =
    count-sort_by p (keep (Queries.listed filter none none) db.approvals)
    ∙ count-keep p (Queries.listed filter none none) db.approvals

length-count : (xs : List ApprovalRequest) → length xs ≡ count (λ x. true) xs
unfolding count
length-count [] = refl
length-count (x ∷ xs) = omega (arith, length-count xs)

count_le : (p : ApprovalRequest → Bool) (xs : List ApprovalRequest) → count p xs ≤ length xs
unfolding count
count_le p [] = omega arith
count_le p (x ∷ xs) = ground (arith, count_le p xs)

length-list_requests :
    (filter : Option Bool) (db : ApprovalDb)
    → length (list_requests filter none none db)
      ≡ count (Queries.listed filter none none) db.approvals
length-list_requests filter db =
    length-count (list_requests filter none none db)
    ∙ count-list_requests (λ x. true) filter db
    ∙ count_ext (λ x. true && Queries.listed filter none none x) (Queries.listed filter none none)
        db.approvals (λ x. refl)

same :
    (verdict : Bool) (x : ApprovalRequest)
    → Queries.listed (some verdict) none none x
      ≡ (is_verdict verdict x && Queries.listed none none none x)
unfolding Queries.listed
same true x = ground arith
same false x = ground arith

module _ (limit : ℕ) (db : ApprovalDb) (room : length db.approvals ≤ limit) where
  whole :
      (filter : Option Bool)
      → take limit (list_requests filter none none db) ≡ list_requests filter none none db
  whole filter = take_all limit (list_requests filter none none db) (
      omega (
        arith,
        room,
        length-list_requests filter db,
        count_le (Queries.listed filter none none) db.approvals,
      ))

  shown_verdict :
      (verdict : Bool)
      → length (take limit (list_requests (some verdict) none none db))
        ≡ count (is_verdict verdict) (list_requests none none none db)
  shown_verdict verdict =
      ap length (whole (some verdict))
      ∙ length-list_requests (some verdict) db
      ∙ count_ext (Queries.listed (some verdict) none none)
          (λ x. is_verdict verdict x && Queries.listed none none none x) db.approvals (same verdict)
      ∙ sym (count-list_requests (is_verdict verdict) none db)

split :
    (rows : List ApprovalRequest)
    → count is_undecided rows + count (is_verdict true) rows + count (is_verdict false) rows
      ≡ length rows
unfolding count
split [] = refl
split (a ∷ rows) = ground (arith, split rows)

-- Where the limit has room for all requests, the command that lists the pending, the approved or the denied
-- ones shows as many as the summary counts, and the three numbers of the summary add up to its total.
pub approval_list_command-summary :
    (limit : ℕ) (db : ApprovalDb)
    → length db.approvals ≤ limit
    → (length (approval_list_command limit (some only_pending) none none db)
        ≡ (approval_summary_command db).pending)
      × (length (approval_list_command limit (some only_true) none none db)
          ≡ (approval_summary_command db).approved)
      × (length (approval_list_command limit (some only_false) none none db)
          ≡ (approval_summary_command db).denied)
      × ((approval_summary_command db).pending
            + (approval_summary_command db).approved
            + (approval_summary_command db).denied
          ≡ (approval_summary_command db).total)
unfolding approval_list_command approval_summary_command
approval_list_command-summary limit db room = (
  length-keep is_undecided (take limit (list_requests none none none db))
      ∙ ap (count is_undecided) (whole limit db room none),
  shown_verdict limit db room true,
  shown_verdict limit db room false,
  split (list_requests none none none db),
)
