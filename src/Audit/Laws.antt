-- ===== src/Audit/Laws.antt =====
-- What is logged is verified.
use constrails.Prelude.{
  ℕ, suc, ◌+◌, ◌≤◌, String, true, Option, none, some, List, [], ◌∷◌, ◌++◌, ◌≡◌, refl, ap, ◌∙◌,
  arith, opt_eq_iff, last, length, length-append, le→leb, sort_by, AllBefore, sort_by-append,
}
use constrails.Models.{Time, ActionRequest}
use constrails.Audit.{
  AuditPayload, AuditRecord, AuditEntry, by_start, hash_of, compute_hash, payload_of, audit_record,
  log_audit,
}
use constrails.Audit.Verify.{Report, verify, verify_from}

-- A call of `_log_audit` that reached the database, with the time of its row.
pub record LogCall : Type 0 where
  pub now : Time
  pub request : ActionRequest
  pub entry : AuditEntry

module _ (digest : AuditPayload → String) where
  -- The table after some calls, the last call first.
  unfoldable pub log_all : List LogCall → List AuditRecord
  log_all [] = []
  log_all (c ∷ cs) = log_audit digest true c.now c.request c.entry (log_all cs)

  unfoldable pub last_hash : Option String → List AuditRecord → Option String
  last_hash previous [] = previous
  last_hash previous (row ∷ rows) = last_hash row.chain_hash rows

  last_hash-eq-hash_of :
      (previous : Option String) (row : AuditRecord) (rows : List AuditRecord)
      → hash_of (last (row ∷ rows)) ≡ last_hash previous (row ∷ rows)
  unfolding hash_of last_hash
  last_hash-eq-hash_of previous row [] = refl
  last_hash-eq-hash_of previous row (next ∷ rows) = last_hash-eq-hash_of row.chain_hash next rows

  pub last_hash_lem : (rows : List AuditRecord) → hash_of (last rows) ≡ last_hash none rows
  unfolding hash_of last_hash
  last_hash_lem [] = refl
  last_hash_lem (row ∷ rows) = last_hash-eq-hash_of none row rows

  -- A chain of rows behind a hash: each row names the hash before it, and has the hash of its content.
  abbrev pub Linked : Option String → List AuditRecord → Type 0
  Linked prev [] = Unit
  Linked prev (row ∷ rows) =
      (row.chain_prev_hash ≡ prev)
      × (row.chain_hash ≡ some (compute_hash digest row prev))
      × Linked row.chain_hash rows

  Linked-append :
      (prev : Option String) (rows : List AuditRecord) (c : LogCall)
      → Linked prev rows
      → Linked prev (rows ++ audit_record digest (last_hash prev rows) c.now c.request c.entry ∷ [])
  unfolding last_hash audit_record compute_hash payload_of
  Linked-append prev [] c h = (refl, refl, tt)
  Linked-append prev (row ∷ rows) c h = (h.0, h.1, Linked-append row.chain_hash rows c h.2)

  verify_from-Linked :
      (prev : Option String) (n : ℕ) (rows : List AuditRecord)
      → Linked prev rows
      → (r : Report) × (verify_from digest prev n rows ≡ r)
        × (r.fault ≡ none)
        × (r.checked ≡ n + length rows)
  unfolding verify_from
  verify_from-Linked prev n [] h = (_, refl, refl, omega arith)
  verify_from-Linked prev n (row ∷ rows) h =
      let (r, e, fault, checked) = verify_from-Linked row.chain_hash (suc n) rows h.2 in
      (
        r,
        ground (
          arith,
          e,
          opt_eq_iff row.chain_prev_hash prev,
          opt_eq_iff row.chain_hash (some (compute_hash digest row prev)),
        ),
        fault,
        omega arith,
      )

  pub Linked-of_verify_from :
      (prev : Option String) (n : ℕ) (rows : List AuditRecord)
      → (verify_from digest prev n rows).fault ≡ none
      → Linked prev rows
  unfolding verify_from
  Linked-of_verify_from prev n [] h = tt
  Linked-of_verify_from prev n (row ∷ rows) h =
      let p = opt_eq_iff row.chain_prev_hash prev in
      let q = opt_eq_iff row.chain_hash (some (compute_hash digest row prev)) in
      (
        ground (arith, p, q),
        ground (arith, p, q),
        Linked-of_verify_from row.chain_hash (suc n) rows (ground (arith, p, q)),
      )

  -- The clock does not run backwards: no call is earlier than one before it.
  abbrev NotBefore : Time → List AuditRecord → Type 0
  NotBefore now [] = Unit
  NotBefore now (row ∷ rows) = (row.start_time ≤ now) × NotBefore now rows

  abbrev pub IsMonotone : List LogCall → Type 0
  IsMonotone [] = Unit
  IsMonotone (c ∷ cs) = NotBefore c.now (log_all cs) × IsMonotone cs

  NotBefore-AllBefore :
      (z : AuditRecord) (rows : List AuditRecord)
      → NotBefore z.start_time rows
      → AllBefore by_start z rows
  unfolding by_start
  NotBefore-AllBefore z [] h = tt
  NotBefore-AllBefore z (row ∷ rows) h =
      (le→leb row.start_time z.start_time h.0, NotBefore-AllBefore z rows h.1)

  log_all-sorted : (cs : List LogCall) → IsMonotone cs → sort_by by_start (log_all cs) ≡ log_all cs
  unfolding log_all log_audit
  log_all-sorted [] m = unfold sort_by in refl
  log_all-sorted (c ∷ cs) m =
      let rows = log_all cs in
      let prev = hash_of (last (sort_by by_start rows)) in
      let z = audit_record digest prev c.now c.request c.entry in
      sort_by-append by_start rows z (NotBefore-AllBefore z rows (unfold audit_record in m.0))
      ∙ ap (λ r. r ++ z ∷ []) (log_all-sorted cs m.1)

  log_all-Linked : (cs : List LogCall) → IsMonotone cs → Linked none (log_all cs)
  unfolding log_all log_audit
  log_all-Linked [] m = tt
  log_all-Linked (c ∷ cs) m =
      rw (log_all-sorted cs m.1, last_hash_lem (log_all cs))
        (Linked-append none (log_all cs) c (log_all-Linked cs m.1))

  length-log_all : (cs : List LogCall) → length (log_all cs) ≡ length cs
  unfolding log_all log_audit
  length-log_all [] = refl
  length-log_all (c ∷ cs) = rw length-append (omega (arith, length-log_all cs))

  -- Whatever is logged, while the clock does not run backwards and the database takes each row, the
  -- verifier finds no fault, and counts as many rows as were logged.
  pub verify-log_all :
      (cs : List LogCall)
      → IsMonotone cs
      → ((verify digest (log_all cs)).fault ≡ none)
        × ((verify digest (log_all cs)).checked ≡ length cs)
  unfolding verify
  verify-log_all cs m =
      let (r, e, fault, checked) = verify_from-Linked none 0 (log_all cs) (log_all-Linked cs m) in
      rw (log_all-sorted cs m, e) (fault, omega (arith, length-log_all cs))
