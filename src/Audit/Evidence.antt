-- ===== src/Audit/Evidence.antt =====
-- What two verified tables with one last hash have in common, and what the hashes leave open.
use constrails.Prelude.{
  ℕ, suc, String, Option, none, some, List, [], ◌∷◌, ◌≡◌, refl, ap, sym, ◌∙◌, arith, length, map,
  sort_by, sort_by-map,
}
use constrails.Models.{ToolResult}
use constrails.Audit.{AuditPayload, AuditRecord, by_start, compute_hash, payload_of}
use constrails.Audit.Verify.{verify, verify_from, create_audit_checkpoint}
use constrails.Audit.Laws.{Linked, last_hash, last_hash_lem, Linked-of_verify_from}

-- What was hashed, row by row, behind a hash.
unfoldable pub contents :
    (AuditPayload → String) → Option String → List AuditRecord → List AuditPayload
contents digest prev [] = []
contents digest prev (row ∷ rows) = payload_of digest prev row ∷ contents digest row.chain_hash rows

module _ (digest : AuditPayload → String) where
  -- No two payloads at one place of the lists share a hash without being the same.
  abbrev pub NoCollision : List AuditPayload → List AuditPayload → Type 0
  NoCollision [] qs = Unit
  NoCollision (p ∷ ps) [] = Unit
  NoCollision (p ∷ ps) (q ∷ qs) = (digest p ≡ digest q → p ≡ q) × NoCollision ps qs

  same_digest :
      (prev prev' : Option String) (row row' : AuditRecord)
      → row.chain_hash ≡ some (compute_hash digest row prev)
      → row'.chain_hash ≡ some (compute_hash digest row' prev')
      → row.chain_hash ≡ row'.chain_hash
      → digest (payload_of digest prev row) ≡ digest (payload_of digest prev' row')
  unfolding compute_hash
  same_digest prev prev' row row' e e' same = cc

  same_prev :
      (prev prev' : Option String) (row row' : AuditRecord)
      → payload_of digest prev row ≡ payload_of digest prev' row'
      → prev ≡ prev'
  unfolding payload_of
  same_prev prev prev' row row' p = ap (λ (q : AuditPayload). q.prev_hash) p

  Linked-contents :
      (prev prev' : Option String) (rows rows' : List AuditRecord)
      → Linked digest prev rows
      → Linked digest prev' rows'
      → length rows ≡ length rows'
      → last_hash digest prev rows ≡ last_hash digest prev' rows'
      → NoCollision (contents digest prev rows) (contents digest prev' rows')
      → (contents digest prev rows ≡ contents digest prev' rows') × (prev ≡ prev')
  unfolding contents last_hash
  Linked-contents prev prev' [] [] k k' len h n = (refl, h)
  Linked-contents prev prev' [] (row' ∷ rows') k k' len h n = absurd (omega arith)
  Linked-contents prev prev' (row ∷ rows) [] k k' len h n = absurd (omega arith)
  Linked-contents prev prev' (row ∷ rows) (row' ∷ rows') k k' len h n =
      let (rest, same) =
        Linked-contents row.chain_hash row'.chain_hash rows rows' k.2 k'.2 (omega arith) h n.1 in
      let p = n.0 (same_digest prev prev' row row' k.1 k'.1 same) in
      (cc (p, rest), same_prev prev prev' row row' p)

  -- If the verifier finds no fault in two tables, and their checkpoints have the same number of records
  -- and the same chain hash, then the same was hashed in both, row by row, unless two payloads at one
  -- place collide.
  pub same_checkpoint-contents :
      (rows rows' : List AuditRecord)
      → (verify digest rows).fault ≡ none
      → (verify digest rows').fault ≡ none
      → (create_audit_checkpoint 0 rows).records ≡ (create_audit_checkpoint 0 rows').records
      → (create_audit_checkpoint 0 rows).chain_hash ≡ (create_audit_checkpoint 0 rows').chain_hash
      → NoCollision
          (contents digest none (sort_by by_start rows))
          (contents digest none (sort_by by_start rows'))
      → contents digest none (sort_by by_start rows) ≡ contents digest none (sort_by by_start rows')
  unfolding verify create_audit_checkpoint
  same_checkpoint-contents rows rows' v v' len h n =
      let s = sort_by by_start rows in
      let s' = sort_by by_start rows' in
      (Linked-contents none none s s' (Linked-of_verify_from digest none 0 s v)
        (Linked-of_verify_from digest none 0 s' v') len
        (sym (last_hash_lem digest s) ∙ h ∙ last_hash_lem digest s') n).0

  module _ (approver : AuditRecord → Option String) (result : AuditRecord → Option ToolResult)
      (duration : AuditRecord → ℕ) where
    -- The row with another approver, another execution result and another duration.
    abbrev pub altered : AuditRecord → AuditRecord
    altered row = record row {
      approver_id = approver row;
      execution_result = result row;
      duration_ms = duration row;
    }

    verify_from-altered :
        (prev : Option String) (n : ℕ) (rows : List AuditRecord)
        → verify_from digest prev n (map altered rows) ≡ verify_from digest prev n rows
    unfolding verify_from compute_hash payload_of
    verify_from-altered prev n [] = refl
    verify_from-altered prev n (row ∷ rows) = rw (verify_from-altered row.chain_hash (suc n) rows)

    -- The verifier's report does not depend on the approver, the execution result and the duration of
    -- the rows: whatever replaces them, the report is the same.
    pub verify-altered :
        (rows : List AuditRecord) → verify digest (map altered rows) ≡ verify digest rows
    unfolding verify
    verify-altered rows =
        rw (sort_by-map by_start altered rows (λ a b. unfold by_start in refl))
          (verify_from-altered none 0 (sort_by by_start rows))
