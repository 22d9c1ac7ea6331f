-- ===== src/CapabilityStore.antt =====
-- src/constrail/capability_store.py: the stored capability manifests, their versions and which are active.
-- The table is a list in the order of the identifiers, with the identifier that comes next. The time of a
-- new row is an argument.
pub mod Numbering
pub mod Activation
pub mod Versions
use constrails.Prelude.{
  ℕ, ◌+◌, String, Bool, true, false, not, ◌&&◌, Option, none, some, List, [], ◌∷◌, ◌++◌, map, ◌==◌,
  if◌then◌else◌, nat_eq, opt_eq, find, keep, update_first, sort_by, leb,
}
use constrails.Models.{Time, Dict}

pub record StoredManifest : Type 0 where
  pub id : ℕ
  pub agent_id : String
  pub tenant_id : Option String
  pub namespace : Option String
  pub version : ℕ
  pub allowed_tools : List Dict
  pub created_at : Time
  pub active : Bool

pub record Store : Type 0 where
  pub rows : List StoredManifest
  pub next_id : ℕ

-- What an operation gives: the row it returns, and the table.
abbrev pub Result : Type 0
Result = Option StoredManifest × Store

abbrev pub by_id : ℕ → StoredManifest → Bool
by_id id row = nat_eq row.id id

-- The three columns that the queries of `activate_manifest` compare.
unfoldable pub same_scope : StoredManifest → StoredManifest → Bool
same_scope a b =
    a.agent_id == b.agent_id && (opt_eq a.tenant_id b.tenant_id && opt_eq a.namespace b.namespace)

abbrev pub set_active : Bool → StoredManifest → StoredManifest
set_active b row = record row { active = b }

unfoldable pub get_manifest : ℕ → Store → Option StoredManifest
get_manifest id store = find (by_id id) store.rows

abbrev pub filter_by {ℓ} : {A : Type ℓ} → (A → A → Bool) → Option A → A → Bool
filter_by eq none a = true
filter_by eq (some f) a = eq a f

abbrev bool_eq : Bool → Bool → Bool
bool_eq true b = b
bool_eq false b = not b

abbrev pub newest_first : StoredManifest → StoredManifest → Bool
newest_first a b = leb b.created_at a.created_at

abbrev pub present : Option String → Option (Option String)
present none = none
present (some s) = some (some s)

-- The rows that the filters of `list_manifests` let through.
unfoldable pub listed :
    Option String → Option Bool → Option String → Option String → StoredManifest → Bool
listed agent_id active tenant_id namespace r =
    filter_by ◌==◌ agent_id r.agent_id
    && (filter_by bool_eq active r.active
        && (filter_by opt_eq (present tenant_id) r.tenant_id
            && filter_by opt_eq (present namespace) r.namespace))

unfoldable pub list_manifests :
    Option String → Option Bool → Option String → Option String → Store → List StoredManifest
list_manifests agent_id active tenant_id namespace store =
    sort_by newest_first (keep (listed agent_id active tenant_id namespace) store.rows)

unfoldable pub add_row :
    String → Option String → Option String → ℕ → List Dict → Time → Bool → Store → Result
add_row agent_id tenant_id namespace version allowed_tools now active store =
    let row : StoredManifest = record {
      id = store.next_id;
      agent_id = agent_id;
      tenant_id = tenant_id;
      namespace = namespace;
      version = version;
      allowed_tools = allowed_tools;
      created_at = now;
      active = active;
    } in
    (some row, record { rows = store.rows ++ row ∷ []; next_id = store.next_id + 1 })

unfoldable pub create_manifest :
    String → Option String → Option String → ℕ → List Dict → Time → Bool → Store → Result
create_manifest = add_row

-- Change the row of an identifier, and read it again.
unfoldable pub change_row : ℕ → (StoredManifest → StoredManifest) → Store → Result
change_row id change store =
    let store' = record store { rows = update_first (by_id id) change store.rows } in
    (get_manifest id store', store')

-- `if row is None: return None`
abbrev pub when_found : Option StoredManifest → Store → (StoredManifest → Result) → Result
when_found none store next = (none, store)
when_found (some row) store next = next row

unfoldable pub deactivate_manifest : ℕ → Store → Result
deactivate_manifest id store =
    when_found (get_manifest id store) store (λ row. change_row id (set_active false) store)

-- The update of the rows with the same agent, tenant and namespace, and another identifier.
abbrev pub deactivated_for : StoredManifest → StoredManifest → StoredManifest
deactivated_for row r =
    if same_scope r row && not (nat_eq r.id row.id) then set_active false r else r

unfoldable pub deactivate_others : StoredManifest → Store → Store
deactivate_others row store = record store { rows = map (deactivated_for row) store.rows }

unfoldable pub activate_manifest : ℕ → Store → Result
activate_manifest id store =
    when_found (get_manifest id store) store
      (λ row. change_row id (set_active true) (deactivate_others row store))

abbrev pub set_tools : List Dict → StoredManifest → StoredManifest
set_tools tools row = record row { allowed_tools = tools }

unfoldable pub update_manifest_tools : ℕ → List Dict → Bool → Store → Result
update_manifest_tools id tools activate store = when_found (get_manifest id store) store (λ row.
    let (changed, store') = change_row id (set_tools tools) store in
    if activate
    then change_row id (set_active true) (deactivate_others row store')
    else (changed, store'))

abbrev pub or_own : Option (List Dict) → List Dict → List Dict
or_own none own = own
or_own (some tools) own = tools

unfoldable pub create_next_version : ℕ → Option (List Dict) → Time → Bool → Store → Result
create_next_version id tools now activate store = when_found (get_manifest id store) store (λ row.
    let store' = if activate then (change_row id (set_active false) store).1 else store in
    add_row row.agent_id row.tenant_id row.namespace (row.version + 1)
      (or_own tools row.allowed_tools) now activate store')
