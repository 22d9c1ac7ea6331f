-- ===== src/RateLimits/Tallies.antt =====
-- The counts of the summary.
use constrails.Prelude.{
  ℕ, ◌+◌, String, Option, some, List, [], ◌∷◌, ◌≡◌, refl, ◌==◌, eq_iff, if◌then◌else◌, lookup,
  insert, count, length, arith,
}
use constrails.Models.{Time}
use constrails.RateLimits.{QuotaEvent, get_count, tally, selected, summary, tenant_key}

lookup-insert :
    (k j : String) (n : ℕ) (m : List (String × ℕ))
    → lookup j (insert k n m) ≡ (if k == j then some n else lookup j m)
unfolding lookup insert
lookup-insert k j n [] = refl
lookup-insert k j n ((i, w) ∷ m) =
    ground (arith, eq_iff k j, eq_iff i k, eq_iff i j, lookup-insert k j n m)

lookup-tally :
    (key : QuotaEvent → String) (k : String) (m : List (String × ℕ)) (rows : List QuotaEvent)
    → get_count (lookup k (tally key m rows))
      ≡ get_count (lookup k m) + count (λ e. key e == k) rows
unfolding tally count
lookup-tally key k m [] = omega arith
lookup-tally key k m (row ∷ rows) = ground (
  arith,
  eq_iff (key row) k,
  lookup-insert (key row) k (get_count (lookup (key row) m) + 1) m,
  lookup-tally key k (insert (key row) (get_count (lookup (key row) m) + 1) m) rows,
)

-- The sum of the counts of a dictionary.
abbrev pub total : List (String × ℕ) → ℕ
total [] = 0
total ((k, n) ∷ m) = n + total m

total-insert :
    (k : String) (m : List (String × ℕ))
    → total (insert k (get_count (lookup k m) + 1) m) ≡ total m + 1
unfolding insert lookup
total-insert k [] = refl
total-insert k ((j, n) ∷ m) = ground (arith, total-insert k m)

total-tally :
    (key : QuotaEvent → String) (m : List (String × ℕ)) (rows : List QuotaEvent)
    → total (tally key m rows) ≡ total m + length rows
unfolding tally
total-tally key m [] = omega arith
total-tally key m (row ∷ rows) = omega (
  arith,
  total-tally key (insert (key row) (get_count (lookup (key row) m) + 1) m) rows,
  total-insert (key row) m,
)

module _ (now : Time) (agent_id tenant_id : Option String) (limit_seconds : Option ℕ)
    (events : List QuotaEvent) where
  abbrev rows : List QuotaEvent
  rows = selected now agent_id tenant_id limit_seconds events

  -- A summary counts for each tool, and for each tenant, where no tenant counts as "default", exactly
  -- the selected events with it, and in both tables the counts add up to the number of events.
  pub summary_counts :
      ((tool : String)
        → get_count (lookup tool (summary now agent_id tenant_id limit_seconds events).per_tool)
          ≡ count (λ e. e.tool == tool) rows)
      × ((tenant : String)
          → get_count
              (lookup tenant (summary now agent_id tenant_id limit_seconds events).per_tenant)
            ≡ count (λ e. tenant_key e == tenant) rows)
      × (total (summary now agent_id tenant_id limit_seconds events).per_tool ≡ length rows)
      × (total (summary now agent_id tenant_id limit_seconds events).per_tenant ≡ length rows)
  unfolding summary lookup
  summary_counts = (
    λ tool. omega (arith, lookup-tally (λ e. e.tool) tool [] rows),
    λ tenant. omega (arith, lookup-tally tenant_key tenant [] rows),
    omega (arith, total-tally (λ e. e.tool) [] rows),
    omega (arith, total-tally tenant_key [] rows),
  )
