-- ===== src/Examples/Trails.antt =====
-- The audit trail of the example's agent.
use constrails.Prelude.{
  true, none, some, List, [], ◌∷◌, ◌≡◌, refl, arith, map, length, sort_by, member, ◌==◌, any, keep,
  concat,
}
use constrails.Config.{default_settings}
use constrails.Audit.{AuditRecord, by_start, audit_record, log_audit, compute_hash, payload_of}
use constrails.Audit.Verify.{verify, create_audit_checkpoint}
use constrails.Audit.Laws.{LogCall, log_all, IsMonotone, verify-log_all}
use constrails.Audit.Evidence.{contents, altered, same_checkpoint-contents, verify-altered}
use constrails.Risk.{assess, recent_agent_tools, assess_request_chain, f_chain}
use constrails.Risk.Chain.{assess_request_chain-log_audit}
use constrails.Examples.Data.{digest, floats, read_request, network_request, allowed_entry}

abbrev first_call : LogCall
first_call = record { now = 100; request = read_request; entry = allowed_entry }

abbrev second_call : LogCall
second_call = record { now = 200; request = network_request; entry = allowed_entry }

abbrev calls : List LogCall
calls = second_call ∷ first_call ∷ []

calls_in_order : IsMonotone digest calls
unfolding log_all log_audit audit_record
calls_in_order = ((omega arith, tt), (tt, tt))

verify-log_all_example :
    ((verify digest (log_all digest calls)).fault ≡ none)
    × ((verify digest (log_all digest calls)).checked ≡ length calls)
verify-log_all_example = verify-log_all digest calls calls_in_order

-- The row of the first call, and the same row with another approver.
abbrev row : AuditRecord
row = audit_record digest none 100 read_request allowed_entry

abbrev forged : AuditRecord
forged = record row { approver_id = some "mallory" }

row_verifies : (verify digest (row ∷ [])).fault ≡ none
unfolding verify sort_by audit_record ◌==◌ concat compute_hash payload_of
row_verifies = refl

forged_verifies : (verify digest (forged ∷ [])).fault ≡ none
unfolding verify sort_by audit_record ◌==◌ concat compute_hash payload_of
forged_verifies = refl

same_checkpoint-contents_example :
    contents digest none (sort_by by_start (row ∷ []))
    ≡ contents digest none (sort_by by_start (forged ∷ []))
unfolding contents create_audit_checkpoint sort_by audit_record payload_of
same_checkpoint-contents_example =
    same_checkpoint-contents digest (row ∷ []) (forged ∷ []) row_verifies forged_verifies refl refl
      (λ e. refl, tt)

verify-altered_example :
    verify digest (map (altered digest (λ r. some "mallory") (λ r. none) (λ r. 0)) (row ∷ []))
    ≡ verify digest (row ∷ [])
verify-altered_example = verify-altered digest (λ r. some "mallory") (λ r. none) (λ r. 0) (row ∷ [])

-- After a read, the request to the network has a higher score than without it.
after_read_is_riskier :
    floats.ge
      (assess floats default_settings [] (row ∷ []) network_request).score
      (assess floats default_settings [] [] network_request).score
    ≡ true
unfolding assess ◌==◌ any recent_agent_tools sort_by keep audit_record member
after_read_is_riskier = refl

assess_request_chain-log_audit_example :
    assess_request_chain floats default_settings
      (log_audit digest true 100 read_request allowed_entry [])
      network_request
    ≡ f_chain
unfolding member ◌==◌
assess_request_chain-log_audit_example =
    assess_request_chain-log_audit floats digest default_settings [] 100 read_request
      network_request allowed_entry 19 refl refl tt refl refl refl
