-- ===== src/Requests/Tests.antt =====
-- Runs of the answers to payment requests, and their theorems at those runs.
use society_agent.Prelude.{◌+◌, true, false, ◌≡◌, refl, ℕ, String, none, some, [], ◌∷◌}
use society_agent.Prelude.Int.{ℤ, 0ℤ, pos, leb_ℤ}
use society_agent.Validation.{uuid, validate_uuid}
use society_agent.Db.{PaymentRequest, UserFlatMapping, RequestStatus, Tables, AuditLog, active}
use society_agent.Db.Errors.{ok, err, DbFault, request_not_pending}
use society_agent.Db.Session.{Session, succeeds, fails, or_rollback}
use society_agent.Fixtures.{tables_in, session_of}
use society_agent.Runs.{running}
use society_agent.Payments.Record.{
  record_payment, validate_identifiers, authorize, approval_request_required, find_participating,
  credit, write_payment,
}
use society_agent.Payments.Effects.{paid_of}
use society_agent.Payments.Tests.{paid_row}
use society_agent.Passes.Service.{require_event_of_flat}
use society_agent.Requests.Create.{
  RequestInput, request_payment, find_mapping, authorize_requester_mapping, find_open,
  reuse_or_create, create_request, add_request,
}
use society_agent.Requests.Attempts.{create_attempts}
use society_agent.Requests.Created.{Opened, request_payment-opens}
use society_agent.Requests.Service.{
  find_request, get_event_society_id, approve_request, reject_request, approved_request,
  rejected_request,
}
use society_agent.Requests.Effects.{
  Approved, approve_request-approves, approve_request-once, reject_request-rejects,
}

abbrev amount_text : ℤ → String
amount_text x = "600"

abbrev id_text : ℕ → String
id_text n = "60"

abbrev request : PaymentRequest
request = record {
  id = 70;
  event_id = 10;
  flat_id = 20;
  request_code = "PAY-1";
  amount = pos 600;
  payment_mode = none;
  status = RequestStatus.requested;
  requested_by_mapping_id = 60;
  member_identity_id = 61;
  approved_by = none;
  approved_at = none;
}

abbrev asked : Tables
asked = record (tables_in active) { payment_requests = request ∷ [] }

abbrev audit : String → String → String → ℕ → AuditLog
audit kind action reason id = record {
  society_id = 1;
  entity_type = kind;
  entity_id = id;
  action = action;
  reason = reason;
  performed_by = some 30;
  source = none;
  performed_at = none;
}

abbrev answered : Tables
answered = record asked {
  payments = paid_row ∷ [];
  payment_requests = approved_request request 30 5 ∷ [];
  audit_logs =
      audit "payment" "MARK_PAID" "OVERRIDE: Approved payment request PAY-1" 20
      ∷ audit "payment_request" "APPROVE_PAYMENT_REQUEST"
          "Approved PAY-1 for 600 requested by mapping 60" 70
      ∷ [];
}

approve_request_run :
    approve_request amount_text id_text 70 (uuid 30) 5 (session_of asked)
    ≡ (ok paid_row, session_of answered)
unfolding running approve_request find_request get_event_society_id validate_uuid record_payment
    validate_identifiers authorize approval_request_required find_participating credit write_payment
    or_rollback
approve_request_run = refl

approve_request-approves_example : Approved 70 30 5 asked paid_row answered
approve_request-approves_example =
    approve_request-approves amount_text id_text 70 30 5 (session_of asked) approve_request_run

approve_request-once_example :
    (approve_request amount_text id_text 70 (uuid 30) 6 (session_of answered)).0
    ≡ err request_not_pending
approve_request-once_example =
    approve_request-once amount_text id_text 70 30 5 (session_of asked) 30 6 (session_of answered)
      approve_request_run refl

abbrev turned_down : Tables
turned_down = record asked {
  payment_requests = rejected_request request ∷ [];
  audit_logs =
      audit "payment_request" "REJECT_PAYMENT_REQUEST"
        "Rejected PAY-1 for 600 requested by mapping 60 | twice" 70
      ∷ [];
}

reject_request_run :
    reject_request amount_text id_text 70 (uuid 30) (some "twice") (session_of asked)
    ≡ (ok tt, session_of turned_down)
unfolding running reject_request find_request get_event_society_id validate_uuid
reject_request_run = refl

reject_request-rejects_example :
    (r : PaymentRequest) × (find_request 70 asked ≡ some r)
    × (find_request 70 turned_down ≡ some (record r { status = RequestStatus.rejected }))
    × (turned_down.payments ≡ asked.payments)
reject_request-rejects_example =
    reject_request-rejects amount_text id_text 70 (uuid 30) (some "twice") (session_of asked)
      reject_request_run

abbrev mapping : UserFlatMapping
mapping = record {
  id = 60;
  society_id = 1;
  flat_id = 20;
  member_identity_id = 61;
  is_active = true;
}

abbrev request_input : RequestInput
request_input = record {
  event_id = uuid 10;
  flat_id = uuid 20;
  amount = pos 600;
  payment_mode = none;
  requested_by_mapping_id = 60;
  override_reason = none;
  code_of = λ n. "PAY-1";
  id_of = λ n. n + 64;
}

abbrev quiet_tables : Tables
quiet_tables = record (tables_in active) { user_flat_mappings = mapping ∷ [] }

-- The first code is taken.
abbrev taken : Session
taken = record {
  durable = quiet_tables;
  current = quiet_tables;
  outcomes = fails DbFault.integrity ∷ [];
}

abbrev opened_tables : Tables
opened_tables = record quiet_tables {
  payment_requests = request ∷ [];
  audit_logs =
      record (audit "payment_request" "REQUEST_PAYMENT" "Request PAY-1 for 600 by mapping 60" 70) {
        performed_by = none;
      }
      ∷ [];
}

request_payment_run :
    request_payment amount_text id_text request_input taken ≡ (ok request, session_of opened_tables)
unfolding running request_payment validate_uuid require_event_of_flat find_mapping
    authorize_requester_mapping find_participating find_open reuse_or_create create_request
    create_attempts add_request or_rollback
request_payment_run = refl

request_payment-opens_example :
    (leb_ℤ (pos 600) 0ℤ ≡ false) × Opened 10 20 (pos 600) quiet_tables request opened_tables
request_payment-opens_example =
    request_payment-opens amount_text id_text request_input 10 20 taken refl refl refl
      request_payment_run

-- The commit of the payment goes through and that of the request does not.
abbrev half_way : Session
half_way =
    (approve_request amount_text id_text 70 (uuid 30) 5 (record {
      durable = asked;
      current = asked;
      outcomes = succeeds ∷ fails DbFault.other ∷ [];
    })).1

-- The call raises, and approved again it is credited again: the flat has paid twice the amount.
half_way_test :
    paid_of 10 20 (approve_request amount_text id_text 70 (uuid 30) 6 half_way).1.durable ≡ pos 1200
unfolding running approve_request find_request get_event_society_id validate_uuid record_payment
    validate_identifiers authorize approval_request_required find_participating credit write_payment
    or_rollback paid_of
half_way_test = refl
