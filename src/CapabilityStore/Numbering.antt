-- ===== src/CapabilityStore/Numbering.antt =====
-- The identifiers of the stored manifests, under the calls that change the table.
use constrails.Prelude.{
  ℕ, suc, ◌+◌, ◌≤◌, String, Bool, true, false, Option, List, [], ◌∷◌, ◌++◌, map, ◌≡◌, refl, arith,
  update_first, Bool-cases, inl, inr, Option-cases,
}
use constrails.Models.{Time, Dict}
use constrails.CapabilityStore.{
  StoredManifest, Store, Result, by_id, set_active, set_tools, get_manifest, create_manifest,
  add_row, change_row, when_found, deactivate_manifest, deactivated_for, deactivate_others,
  activate_manifest, update_manifest_tools, create_next_version,
}

-- The calls that change the table.
pub data Command : Type 0 where
  create : String → Option String → Option String → ℕ → List Dict → Time → Bool → Command
  deactivate activate : ℕ → Command
  update_tools : ℕ → List Dict → Bool → Command
  next_version : ℕ → Option (List Dict) → Time → Bool → Command

unfoldable pub apply : Command → Store → Store
apply (create agent_id tenant_id namespace version tools now active) store =
    (create_manifest agent_id tenant_id namespace version tools now active store).1
apply (deactivate id) store = (deactivate_manifest id store).1
apply (activate id) store = (activate_manifest id store).1
apply (update_tools id tools active) store = (update_manifest_tools id tools active store).1
apply (next_version id tools now active) store = (create_next_version id tools now active store).1

-- The table after some calls, the last call first, from the empty one.
unfoldable pub run : List Command → Store
run [] = record { rows = []; next_id = 1 }
run (c ∷ cs) = apply c (run cs)

-- The identifiers ascend from the first number on, and are below the second.
abbrev pub Numbered : ℕ → ℕ → List StoredManifest → Type 0
Numbered from next [] = from ≤ next
Numbered from next (r ∷ rows) = (from ≤ r.id) × Numbered (suc r.id) next rows

abbrev pub IsNumbered : Store → Type 0
IsNumbered store = Numbered 1 store.next_id store.rows

Numbered-append :
    (from next : ℕ) (rows : List StoredManifest) (z : StoredManifest)
    → Numbered from next rows
    → z.id ≡ next
    → Numbered from (next + 1) (rows ++ z ∷ [])
Numbered-append from next [] z h e = (omega arith, omega arith)
Numbered-append from next (r ∷ rows) z h e = (h.0, Numbered-append (suc r.id) next rows z h.1 e)

Numbered-update_first :
    (p : StoredManifest → Bool) (f : StoredManifest → StoredManifest) (from next : ℕ)
    (rows : List StoredManifest)
    → ((r : StoredManifest) → (f r).id ≡ r.id)
    → Numbered from next rows
    → Numbered from next (update_first p f rows)
unfolding update_first
Numbered-update_first p f from next [] same h = h
Numbered-update_first p f from next (r ∷ rows) same h = elim (Bool-cases (p r)) [
  | inl here ↦ rw (here, same r) h
  | inr later ↦ rw later (h.0, Numbered-update_first p f (suc r.id) next rows same h.1)
]

Numbered-map :
    (f : StoredManifest → StoredManifest) (from next : ℕ) (rows : List StoredManifest)
    → ((r : StoredManifest) → (f r).id ≡ r.id)
    → Numbered from next rows
    → Numbered from next (map f rows)
Numbered-map f from next [] same h = h
Numbered-map f from next (r ∷ rows) same h =
    rw (same r) (h.0, Numbered-map f (suc r.id) next rows same h.1)

id-deactivated_for : (row r : StoredManifest) → (deactivated_for row r).id ≡ r.id
id-deactivated_for row r = ground arith

change_row-IsNumbered :
    (id : ℕ) (f : StoredManifest → StoredManifest) (store : Store)
    → ((r : StoredManifest) → (f r).id ≡ r.id)
    → IsNumbered store
    → IsNumbered (change_row id f store).1
unfolding change_row
change_row-IsNumbered id f store same h =
    Numbered-update_first (by_id id) f 1 store.next_id store.rows same h

deactivate_others-IsNumbered :
    (row : StoredManifest) (store : Store)
    → IsNumbered store
    → IsNumbered (deactivate_others row store)
unfolding deactivate_others
deactivate_others-IsNumbered row store h =
    Numbered-map (deactivated_for row) 1 store.next_id store.rows (id-deactivated_for row) h

add_row-IsNumbered :
    (agent_id : String) (tenant_id namespace : Option String) (version : ℕ) (tools : List Dict)
    (now : Time) (active : Bool) (store : Store)
    → IsNumbered store
    → IsNumbered (add_row agent_id tenant_id namespace version tools now active store).1
unfolding add_row
add_row-IsNumbered agent_id tenant_id namespace version tools now active store h =
    Numbered-append 1 store.next_id store.rows _ h refl

found-IsNumbered :
    (id : ℕ) (store : Store) (next : StoredManifest → Result)
    → IsNumbered store
    → ((row : StoredManifest) → IsNumbered (next row).1)
    → IsNumbered (when_found (get_manifest id store) store next).1
found-IsNumbered id store next h k = elim (Option-cases (get_manifest id store)) [
  | inl missing ↦ rw missing h
  | inr (row, found) ↦ rw found (k row)
]

activated-IsNumbered :
    (id : ℕ) (row : StoredManifest) (store : Store)
    → IsNumbered store
    → IsNumbered (change_row id (set_active true) (deactivate_others row store)).1
activated-IsNumbered id row store h =
    change_row-IsNumbered id (set_active true) (deactivate_others row store) (λ r. refl)
      (deactivate_others-IsNumbered row store h)

update_tools-IsNumbered :
    (id : ℕ) (tools : List Dict) (active : Bool) (store : Store)
    → IsNumbered store
    → IsNumbered (update_manifest_tools id tools active store).1
unfolding update_manifest_tools
update_tools-IsNumbered id tools false store h =
    found-IsNumbered id store _ h
      (λ row. change_row-IsNumbered id (set_tools tools) store (λ r. refl) h)
update_tools-IsNumbered id tools true store h = found-IsNumbered id store _ h (λ row.
    activated-IsNumbered id row (change_row id (set_tools tools) store).1
      (change_row-IsNumbered id (set_tools tools) store (λ r. refl) h))

next_version-IsNumbered :
    (id : ℕ) (tools : Option (List Dict)) (now : Time) (active : Bool) (store : Store)
    → IsNumbered store
    → IsNumbered (create_next_version id tools now active store).1
unfolding create_next_version
next_version-IsNumbered id tools now false store h =
    found-IsNumbered id store _ h (λ row. add_row-IsNumbered _ _ _ _ _ _ _ store h)
next_version-IsNumbered id tools now true store h = found-IsNumbered id store _ h (λ row.
    add_row-IsNumbered _ _ _ _ _ _ _ (change_row id (set_active false) store).1
      (change_row-IsNumbered id (set_active false) store (λ r. refl) h))

apply-IsNumbered : (c : Command) (store : Store) → IsNumbered store → IsNumbered (apply c store)
unfolding apply
apply-IsNumbered (create agent_id tenant_id namespace version tools now active) store h =
    unfold create_manifest in
    add_row-IsNumbered agent_id tenant_id namespace version tools now active store h
apply-IsNumbered (deactivate id) store h =
    unfold deactivate_manifest in
    found-IsNumbered id store _ h
      (λ row. change_row-IsNumbered id (set_active false) store (λ r. refl) h)
apply-IsNumbered (activate id) store h =
    unfold activate_manifest in
    found-IsNumbered id store _ h (λ row. activated-IsNumbered id row store h)
apply-IsNumbered (update_tools id tools active) store h =
    update_tools-IsNumbered id tools active store h
apply-IsNumbered (next_version id tools now active) store h =
    next_version-IsNumbered id tools now active store h

-- In every table that calls of the store make from the empty one, the identifiers are different and ascend,
-- and are all below the next one.
pub run-IsNumbered : (cs : List Command) → IsNumbered (run cs)
unfolding run
run-IsNumbered [] = (omega arith)
run-IsNumbered (c ∷ cs) = apply-IsNumbered c (run cs) (run-IsNumbered cs)
