-- ===== src/Payments/Tests.antt =====
-- Runs of the payment services, and their theorems at those runs.
use society_agent.Prelude.{true, ◌⊎◌, ◌≡◌, refl, false, none, some, [], ◌∷◌}
use society_agent.Prelude.Int.{pos}
use society_agent.Validation.{uuid}
use society_agent.Fixtures.{tables_in, session_of}
use society_agent.Db.Query.{find_event}
use society_agent.Security.Access.{find_active_member, normal_role}
use society_agent.Payments.Authority.{record_payment-role}
use society_agent.Db.{
  Event, CommitteeMember, Payment, PaymentStatus, Refund, RefundStatus, Tables, AuditLog, active,
  paid,
}
use society_agent.Db.Errors.{ok, serialization}
use society_agent.Db.Session.{Session, succeeds, fails}
use society_agent.Db.Atomic.{Atomic}
use society_agent.Runs.{running}
use society_agent.Payments.Record.{
  PaymentInput, record_payment, validate_identifiers, authorize, approval_request_required,
  find_participating, credit, write_payment,
}
use society_agent.Payments.Effects.{Credited, record_payment-credits}
use society_agent.Payments.Refund.{
  RefundInput, refunded_total, write_refund, refund_once, refund_attempts, process_refund,
}
use society_agent.Payments.Retries.{process_refund-Atomic}
use society_agent.Payments.Solvency.{Debited, process_refund-debits}

abbrev pub payment_input : PaymentInput
payment_input = record {
  event_id = uuid 10;
  flat_id = uuid 20;
  amount = pos 600;
  payment_mode = "upi";
  performed_by = uuid 30;
  override_reason = none;
  require_approved_request_context = false;
  approved_request_id = none;
  approved_service_context = false;
  now = 5;
}

abbrev pub paid_row : Payment
paid_row = record {
  event_id = 10;
  flat_id = 20;
  expected_amount = pos 600;
  paid_amount = pos 600;
  status = paid;
  payment_mode = some "upi";
  paid_at = some 5;
}

abbrev pub paid_audit : AuditLog
paid_audit = record {
  society_id = 1;
  entity_type = "payment";
  entity_id = 20;
  action = "MARK_PAID";
  reason = "Payment received via upi";
  performed_by = some 30;
  source = none;
  performed_at = none;
}

abbrev pub paid_tables : Tables
paid_tables = record (tables_in active) { payments = paid_row ∷ []; audit_logs = paid_audit ∷ [] }

pub record_payment_run :
    record_payment payment_input (session_of (tables_in active))
    ≡ (ok paid_row, session_of paid_tables)
unfolding running record_payment validate_identifiers authorize approval_request_required
    find_participating credit write_payment
record_payment_run = refl

record_payment-credits_example : Credited 10 20 (pos 600) (tables_in active) paid_row paid_tables
record_payment-credits_example =
    record_payment-credits payment_input 10 20 (session_of (tables_in active)) refl refl
      record_payment_run

record_payment-role_example :
    (event : Event) × (m : CommitteeMember) × (find_event 10 (tables_in active) ≡ some event)
    × (find_active_member event.society_id 30 (tables_in active) ≡ some m)
    × ((m.id ≡ 30) × (m.society_id ≡ event.society_id) × (m.is_active ≡ true))
    × ((normal_role m ≡ "chairman") ⊎ (normal_role m ≡ "treasurer"))
record_payment-role_example =
    record_payment-role payment_input 10 30 (session_of (tables_in active)) refl refl
      record_payment_run

abbrev pub refund_input : RefundInput
refund_input = record {
  event_id = uuid 10;
  flat_id = uuid 20;
  amount = pos 200;
  performed_by = uuid 30;
  reason = "left early";
  override_reason = none;
  require_approved_request_context = false;
  approved_request_id = none;
  approved_service_context = false;
}

abbrev pub refund_row : Refund
refund_row = record {
  event_id = 10;
  flat_id = 20;
  amount = pos 200;
  reason = "left early";
  status = RefundStatus.refunded;
  created_by = 30;
}

abbrev pub refund_log : AuditLog
refund_log = record {
  society_id = 1;
  entity_type = "refund";
  entity_id = 20;
  action = "PROCESS_REFUND";
  reason = "left early";
  performed_by = some 30;
  source = none;
  performed_at = none;
}

abbrev pub refunded_tables : Tables
refunded_tables = record paid_tables {
  payments = record paid_row { status = PaymentStatus.refunded } ∷ [];
  refunds = refund_row ∷ [];
  audit_logs = paid_audit ∷ refund_log ∷ [];
}

-- The first two commits meet a serialization conflict, and the third goes through.
abbrev pub busy : Session
busy = record {
  durable = paid_tables;
  current = paid_tables;
  outcomes = succeeds ∷ fails serialization ∷ fails serialization ∷ [];
}

pub process_refund_run :
    process_refund refund_input busy ≡ (ok refund_row, session_of refunded_tables)
unfolding running process_refund validate_identifiers authorize approval_request_required
    refund_attempts refund_once write_refund refunded_total
process_refund_run = refl

process_refund-Atomic_example : Atomic (process_refund refund_input)
process_refund-Atomic_example = process_refund-Atomic refund_input

process_refund-debits_example : Debited 10 20 (pos 200) paid_tables refunded_tables
process_refund-debits_example =
    process_refund-debits refund_input 10 20 busy refl refl refl process_refund_run
