-- ===== src/Cli/Manifests.antt =====
-- Which version the command that creates a manifest gives it.
use constrails.Prelude.{
  ℕ, ◌+◌, ◌≤◌, String, Bool, true, not, ◌||◌, Option, none, some, List, [], ◌∷◌, ◌≡◌, refl, sym,
  ◌∙◌, arith, ltb, leb, keep, all, all-sort_by, opt_eq,
}
use constrails.Models.{Time}
use constrails.CapabilityStore.{
  StoredManifest, Store, same_scope, listed, filter_by, present, newest_first, list_manifests,
  create_manifest, add_row,
}
use constrails.Cli.{max_version, tool_entries, capability_create_command}

max_below :
    (rows : List StoredManifest) (m : ℕ)
    → max_version rows ≤ m
    → all (λ r. leb r.version m) rows ≡ true
unfolding all max_version
max_below [] m h = refl
max_below (r ∷ rows) m h = ground (arith, h, max_below rows m)

all_of_keep :
    (p q : StoredManifest → Bool) (rows : List StoredManifest)
    → all q (keep p rows) ≡ true
    → all (λ r. not (p r) || q r) rows ≡ true
unfolding all keep
all_of_keep p q [] h = refl
all_of_keep p q (r ∷ rows) h = ground (arith, h, all_of_keep p q rows)

all_mono :
    (p q : StoredManifest → Bool) (rows : List StoredManifest)
    → ((r : StoredManifest) → p r ≡ true → q r ≡ true)
    → all p rows ≡ true
    → all q rows ≡ true
unfolding all
all_mono p q [] h a = refl
all_mono p q (r ∷ rows) h a = ground (arith, h r, a, all_mono p q rows h)

column : (f o : Option String) → opt_eq o f ≡ true → filter_by opt_eq (present f) o ≡ true
column none o h = refl
column (some s) o h = h

in_scope-listed :
    (r row : StoredManifest)
    → same_scope r row ≡ true
    → listed (some row.agent_id) none row.tenant_id row.namespace r ≡ true
unfolding same_scope listed
in_scope-listed r row h =
    ground (arith, h, column row.tenant_id r.tenant_id, column row.namespace r.namespace)

abbrev pub older : StoredManifest → StoredManifest → Bool
older row r = ltb r.version row.version

newer :
    (row r : StoredManifest) (existing : List StoredManifest)
    → row.version ≡ max_version existing + 1
    → (not (listed (some row.agent_id) none row.tenant_id row.namespace r)
        || leb r.version (max_version existing))
      ≡ true
    → (not (same_scope r row) || older row r) ≡ true
newer row r existing v h = ground (arith, v, h, in_scope-listed r row)

-- The command creates a manifest whose version is above that of every stored manifest of the same agent,
-- tenant and namespace.
pub capability_create_command-newest :
    (agent_id : String) (tenant_id namespace : Option String) (tools : List String)
    (activate : Bool) (now : Time) (store : Store)
    → (row : StoredManifest) × ((capability_create_command agent_id tenant_id namespace tools
          activate now store).0
        ≡ some row)
      × (all (λ r. not (same_scope r row) || older row r) store.rows ≡ true)
unfolding capability_create_command create_manifest add_row
capability_create_command-newest agent_id tenant_id namespace tools activate now store =
    let existing = list_manifests (some agent_id) none tenant_id namespace store in
    let row : StoredManifest = record {
      id = store.next_id;
      agent_id = agent_id;
      tenant_id = tenant_id;
      namespace = namespace;
      version = max_version existing + 1;
      allowed_tools = tool_entries tools;
      created_at = now;
      active = activate;
    } in
    let filter = listed (some agent_id) none tenant_id namespace in
    let below = λ (r : StoredManifest). leb r.version (max_version existing) in
    (
      row,
      refl,
      all_mono (λ r. not (filter r) || below r) (λ r. not (same_scope r row) || older row r)
          store.rows (λ r. newer row r existing refl)
          (all_of_keep filter below store.rows (
            sym (all-sort_by below newest_first (keep filter store.rows))
            ∙ unfold list_manifests in max_below existing (max_version existing) (omega arith))),
    )
