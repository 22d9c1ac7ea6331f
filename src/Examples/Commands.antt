-- ===== src/Examples/Commands.antt =====
-- Commands on small tables: an outbox with two items, and a store with two versions of a manifest.
use constrails.Prelude.{
  ℕ, ◌≤◌, true, not, ◌||◌, none, some, List, [], ◌∷◌, ◌≡◌, refl, arith, any, all, count, length,
  truthy, ◌==◌,
}
use constrails.Approval.{ApprovalDb, OutboxItem, created, waiting, build_event_payload}
use constrails.Approval.Outbox.{WorkerResult, run_worker}
use constrails.Approval.Distinct.{Distinct}
use constrails.Approval.Drain.{Answers, open_count, run_worker-empties}
use constrails.Approval.Refinement.{
  Command, submit, decision, retried, drained, ledger, all_promised, perform_all,
  perform_all-ledger,
}
use constrails.CapabilityStore.{StoredManifest, same_scope}
use constrails.CapabilityStore.Numbering.{run}
use constrails.Cli.{
  CycleSummary, approval_worker_serve_command, approval_run_worker_command,
  capability_create_command,
}
use constrails.Cli.Laws.{approval_worker_serve_command-ends}
use constrails.Cli.Manifests.{older, capability_create_command-newest}
use constrails.Examples.Data.{net}
use constrails.Examples.Approvals.{settings, request, db}
use constrails.Examples.Stores.{calls}

abbrev item : ℕ → OutboxItem
item id = record {
  outbox_id = id;
  approval_id = 7;
  event_type = created;
  payload = build_event_payload request created;
  delivery_status = waiting;
  attempt_count = 0;
  last_attempt_at = none;
  last_error = none;
  created_at = id;
  delivered_at = none;
}

abbrev two_open : ApprovalDb
two_open = record db { outbox = item 1 ∷ item 2 ∷ [] }

answers : Answers net
answers posts payload = (some 200, refl)

distinct : Distinct two_open.outbox
unfolding Distinct any
distinct = (refl, (refl, tt))

has_url : truthy settings.approval_webhook_url ≡ true
unfolding ◌==◌
has_url = refl

abbrev nothing : WorkerResult
nothing = record { processed = 0; sent_count = 0; failed_count = 0; idle_cycles = 0 }

room : open_count two_open ≤ 2
unfolding count
room = omega arith

run_worker-empties_example : open_count (run_worker settings net 100 2 1 nothing two_open).1 ≡ 0
run_worker-empties_example =
    run_worker-empties settings net 100 2 1 nothing two_open answers has_url (λ on. refl) distinct
      room

approval_worker_serve_command-ends_example :
    ((out : List CycleSummary) × (approval_worker_serve_command settings net 100 3
          (some 2)
          20
          two_open
        ≡ some (out, (approval_run_worker_command settings net 100 2 20 two_open).1))
      × (length out ≡ 2))
    × (approval_worker_serve_command settings net 100 3 none 20 two_open ≡ none)
approval_worker_serve_command-ends_example =
    approval_worker_serve_command-ends settings net 100 2 3 20 two_open (omega arith)

-- The last command is first.
abbrev commands : List Command
commands =
    drained 40 20 ∷ decision 30 10 7 true "bob" none ∷ retried 20 9 7 ∷ submit 10 8 request ∷ []

perform_all-ledger_example :
    ledger (perform_all settings net commands db) ≡ all_promised commands (ledger db)
perform_all-ledger_example = perform_all-ledger settings net commands db

capability_create_command-newest_example :
    (row : StoredManifest) × ((capability_create_command "alice"
        (some "default")
        (some "dev")
        ("exec" ∷ [])
        true
        50
        (run calls)).0
      ≡ some row)
    × (all (λ r. not (same_scope r row) || older row r) (run calls).rows ≡ true)
capability_create_command-newest_example =
    capability_create_command-newest "alice" (some "default") (some "dev") ("exec" ∷ []) true 50
      (run calls)
