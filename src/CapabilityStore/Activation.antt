-- ===== src/CapabilityStore/Activation.antt =====
-- Which manifests are active.
use constrails.Prelude.{
  ℕ, suc, ◌<◌, Bool, true, false, ◌&&◌, some, List, [], ◌∷◌, map, ◌≡◌, refl, sym, subst, arith,
  nat_eq, nat_eq_iff, find-some, opt_eq_iff, eq_refl, find, count, update_first, Bool-cases, inl,
  inr,
}
use constrails.CapabilityStore.{
  StoredManifest, Store, by_id, same_scope, set_active, get_manifest, change_row, deactivated_for,
  deactivate_others, activate_manifest,
}
use constrails.CapabilityStore.Numbering.{Command, run, Numbered, run-IsNumbered}

-- Active, and of the agent, tenant and namespace of a row.
abbrev pub is_active_for : StoredManifest → StoredManifest → Bool
is_active_for row r = r.active && same_scope r row

same_scope_refl : (row : StoredManifest) → same_scope row row ≡ true
unfolding same_scope
same_scope_refl row = ground (
  arith,
  eq_refl row.agent_id,
  opt_eq_iff row.tenant_id row.tenant_id,
  opt_eq_iff row.namespace row.namespace,
)

module _ (row : StoredManifest) where
  count_later :
      (from next : ℕ) (rows : List StoredManifest)
      → Numbered from next rows
      → row.id < from
      → count (is_active_for row) (map (deactivated_for row) rows) ≡ 0
  unfolding count same_scope
  count_later from next [] h less = refl
  count_later from next (r ∷ rows) h less =
      ground (arith, h.0, count_later (suc r.id) next rows h.1 (omega (arith, h.0)))

  active_head :
      (rows : List StoredManifest)
      → count (is_active_for row) (map (deactivated_for row) rows) ≡ 0
      → count (is_active_for row) (set_active true row ∷ map (deactivated_for row) rows) ≡ 1
  unfolding count same_scope
  active_head rows none_later = ground (
    arith,
    none_later,
    eq_refl row.agent_id,
    opt_eq_iff row.tenant_id row.tenant_id,
    opt_eq_iff row.namespace row.namespace,
  )

  first_is_row :
      (rows : List StoredManifest)
      → update_first (by_id row.id) (set_active true) (deactivated_for row row ∷ rows)
        ≡ set_active true row ∷ rows
  unfolding update_first
  first_is_row rows = ground arith

  other_first :
      (r : StoredManifest) (rows : List StoredManifest)
      → nat_eq r.id row.id ≡ false
      → count
          (is_active_for row)
          (update_first (by_id row.id) (set_active true) (deactivated_for row r ∷ rows))
        ≡ count (is_active_for row) (update_first (by_id row.id) (set_active true) rows)
  unfolding count update_first same_scope
  other_first r rows other = ground arith

  one_active :
      (from next : ℕ) (rows : List StoredManifest)
      → Numbered from next rows
      → find (by_id row.id) rows ≡ some row
      → count
          (is_active_for row)
          (update_first (by_id row.id) (set_active true) (map (deactivated_for row) rows))
        ≡ 1
  one_active from next [] h e = absurd (unfold find in ground arith)
  one_active from next (r ∷ rows) h e = elim (Bool-cases (nat_eq r.id row.id)) [
    | inl same ↦
        let is_row : r ≡ row = unfold find in ground (arith, e, same) in
        rw (is_row, first_is_row (map (deactivated_for row) rows))
          (active_head rows (count_later (suc r.id) next rows h.1 (ground (arith, is_row))))
    | inr other ↦
        rw (other_first r (map (deactivated_for row) rows) other)
          (one_active (suc r.id) next rows h.1 (unfold find in ground (arith, e, other)))
  ]

found_id :
    (id : ℕ) (store : Store) (row : StoredManifest) → get_manifest id store ≡ some row → row.id ≡ id
unfolding get_manifest
found_id id store row e = (nat_eq_iff row.id id).0 (find-some (by_id id) store.rows e)

activate_found :
    (id : ℕ) (store : Store) (row : StoredManifest)
    → get_manifest id store ≡ some row
    → (activate_manifest id store).1.rows
      ≡ update_first (by_id id) (set_active true) (map (deactivated_for row) store.rows)
unfolding activate_manifest change_row deactivate_others
activate_found id store row e = ground (arith, e)

-- After any calls of the store, when a manifest that exists is activated, exactly one manifest of its
-- agent, tenant and namespace is active.
pub activate_manifest-one :
    (cs : List Command) (id : ℕ) (row : StoredManifest)
    → get_manifest id (run cs) ≡ some row
    → count (is_active_for row) (activate_manifest id (run cs)).1.rows ≡ 1
activate_manifest-one cs id row e =
    let same = found_id id (run cs) row e in
    rw (activate_found id (run cs) row e, sym same)
      (one_active row 1 (run cs).next_id (run cs).rows (run-IsNumbered cs) (
        subst (λ i. find (by_id i) (run cs).rows ≡ some row) (sym same) (unfold get_manifest in e)))
