-- ===== src/Examples/Stores.antt =====
-- Stored manifests: two versions of one agent's manifest, and another agent's.
use constrails.Prelude.{
  ◌+◌, true, false, none, some, List, [], ◌∷◌, ◌≡◌, refl, count, find, update_first,
}
use constrails.CapabilityStore.{
  StoredManifest, get_manifest, create_manifest, add_row, deactivate_manifest, activate_manifest,
  create_next_version, change_row,
}
use constrails.CapabilityStore.Numbering.{Command, create, deactivate, next_version, apply, run}
use constrails.CapabilityStore.Activation.{is_active_for, activate_manifest-one}
use constrails.CapabilityStore.Versions.{to_nat, create_next_version-active_count}

-- The last call is first: the second version is made of the first after that was deactivated.
abbrev pub calls : List Command
calls =
    next_version 1 none 30 true
    ∷ deactivate 1
    ∷ create "bob" none none 1 [] 20 true
    ∷ create "alice" (some "default") (some "dev") 1 [] 10 true
    ∷ []

abbrev first_version : StoredManifest
first_version = record {
  id = 1;
  agent_id = "alice";
  tenant_id = some "default";
  namespace = some "dev";
  version = 1;
  allowed_tools = [];
  created_at = 10;
  active = false;
}

first_is_there : get_manifest 1 (run calls) ≡ some first_version
unfolding run apply get_manifest find create_next_version deactivate_manifest create_manifest
    add_row change_row update_first
first_is_there = refl

activate_manifest-one_example :
    count (is_active_for first_version) (activate_manifest 1 (run calls)).1.rows ≡ 1
activate_manifest-one_example = activate_manifest-one calls 1 first_version first_is_there

create_next_version-active_count_example :
    count (is_active_for first_version) (create_next_version 1 none 40 true (run calls)).1.rows
      + to_nat false
    ≡ count (is_active_for first_version) (run calls).rows + 1
create_next_version-active_count_example =
    create_next_version-active_count 1 none 40 (run calls) first_version first_is_there
