-- ===== src/CapabilityStore/Versions.antt =====
-- What the next version of a manifest does to the others.
use constrails.Prelude.{
  ℕ, ◌+◌, Bool, true, false, Option, some, List, [], ◌∷◌, ◌++◌, ◌≡◌, arith, opt_eq_iff, eq_refl,
  find, count, count-append, update_first, Bool-cases, inl, inr,
}
use constrails.Models.{Time, Dict}
use constrails.CapabilityStore.{
  StoredManifest, Store, by_id, same_scope, set_active, get_manifest, add_row, change_row, or_own,
  create_next_version,
}
use constrails.CapabilityStore.Activation.{is_active_for}

abbrev pub to_nat : Bool → ℕ
to_nat true = 1
to_nat false = 0

count-update_first :
    (p q : StoredManifest → Bool) (f : StoredManifest → StoredManifest) (rows : List StoredManifest)
    (row : StoredManifest)
    → find q rows ≡ some row
    → count p (update_first q f rows) + to_nat (p row) ≡ count p rows + to_nat (p (f row))
unfolding count find update_first
count-update_first p q f [] row e = absurd (ground arith)
count-update_first p q f (r ∷ rows) row e = elim (Bool-cases (q r)) [
  | inl here ↦ let same : r ≡ row = ground (arith, e, here) in rw (here, same) (ground arith)
  | inr later ↦ ground (arith, later, count-update_first p q f rows row (ground (arith, e, later)))
]

same_scope-same : (row : StoredManifest) → same_scope row row ≡ true
unfolding same_scope
same_scope-same row = ground (
  arith,
  eq_refl row.agent_id,
  opt_eq_iff row.tenant_id row.tenant_id,
  opt_eq_iff row.namespace row.namespace,
)

module _ (id : ℕ) (tools : Option (List Dict)) (now : Time) (store : Store)
    (row : StoredManifest) where
  abbrev next : StoredManifest
  next = record {
    id = store.next_id;
    agent_id = row.agent_id;
    tenant_id = row.tenant_id;
    namespace = row.namespace;
    version = row.version + 1;
    allowed_tools = or_own tools row.allowed_tools;
    created_at = now;
    active = true;
  }

  rows_after :
      get_manifest id store ≡ some row
      → (create_next_version id tools now true store).1.rows
        ≡ update_first (by_id id) (set_active false) store.rows ++ next ∷ []
  unfolding create_next_version add_row change_row
  rows_after e = ground (arith, e)

  same_scope-new : same_scope next row ≡ true
  unfolding same_scope
  same_scope-new = unfold same_scope in same_scope-same row

  -- Creating an active next version of a manifest deactivates that manifest alone: of its agent, tenant and
  -- namespace as many manifests are active as before, and one more if the manifest itself was not.
  pub create_next_version-active_count :
      get_manifest id store ≡ some row
      → count (is_active_for row) (create_next_version id tools now true store).1.rows
          + to_nat row.active
        ≡ count (is_active_for row) store.rows + 1
  unfolding count
  create_next_version-active_count e =
      let found : find (by_id id) store.rows ≡ some row = unfold get_manifest in e in
      let one =
        count-update_first (is_active_for row) (by_id id) (set_active false) store.rows row found in
      rw (rows_after e, count-append) (ground (arith, one, same_scope-same row, same_scope-new))
