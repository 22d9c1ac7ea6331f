-- ===== src/Audit/Verify.antt =====
-- src/constrail/audit_verify.py and src/constrail/audit_checkpoint.py.
use constrails.Prelude.{
  ℕ, String, not, Option, none, some, List, [], ◌∷◌, if◌then◌else◌, opt_eq, suc, length, last,
  sort_by,
}
use constrails.Models.{Uuid, Time}
use constrails.Audit.{AuditPayload, AuditRecord, by_start, hash_of, compute_hash}

pub data ChainError : Type 0 where
  prev_hash_mismatch : ChainError
  hash_mismatch : ChainError

-- The dictionary that `verify` returns; `fault` holds the error and the request of the bad row.
pub record Report : Type 0 where
  pub checked : ℕ
  pub fault : Option (ChainError × Uuid)

pub record Checkpoint : Type 0 where
  pub created_at : Time
  pub records : ℕ
  pub last_request_id : Option Uuid
  pub chain_hash : Option String

module _ (digest : AuditPayload → String) where
  -- The loop of `verify`.
  unfoldable pub verify_from : Option String → ℕ → List AuditRecord → Report
  verify_from previous checked [] = record { checked = checked; fault = none }
  verify_from previous checked (row ∷ rows) =
      let expected = compute_hash digest row previous in
      let rest = verify_from row.chain_hash (suc checked) rows in
      if not (opt_eq row.chain_prev_hash previous)
      then record { checked = checked; fault = some (prev_hash_mismatch, row.request_id) }
      else if not (opt_eq row.chain_hash (some expected))
      then record { checked = checked; fault = some (hash_mismatch, row.request_id) }
      else rest

  unfoldable pub verify : List AuditRecord → Report
  unfolding verify_from
  verify rows = verify_from none 0 (sort_by by_start rows)

-- `create_audit_checkpoint`, without the hash of the checkpoint and the file.
unfoldable pub create_audit_checkpoint : Time → List AuditRecord → Checkpoint
unfolding hash_of
create_audit_checkpoint now rows =
    let sorted = sort_by by_start rows in
    record {
      created_at = now;
      records = length sorted;
      last_request_id = elim (last sorted) [ none ↦ none | some r ↦ some r.request_id ];
      chain_hash = hash_of (last sorted);
    }
