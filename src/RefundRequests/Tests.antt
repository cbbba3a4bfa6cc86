-- ===== src/RefundRequests/Tests.antt =====
-- Runs of refund requests and their answers, and their theorems at those runs.
use society_agent.Prelude.{
  ◌+◌, true, false, ◌≡◌, refl, ℕ, String, Option, none, some, [], ◌∷◌, ◌++◌,
}
use society_agent.Prelude.Int.{ℤ, 0ℤ, pos, leb_ℤ}
use society_agent.Validation.{uuid, validate_uuid}
use society_agent.Db.{
  RefundRequest, UserFlatMapping, RequestStatus, PaymentStatus, Tables, AuditLog,
}
use society_agent.Db.Errors.{ok, err, DbFault, request_not_pending}
use society_agent.Db.Session.{Session, succeeds, fails, or_rollback}
use society_agent.Fixtures.{session_of}
use society_agent.Runs.{running}
use society_agent.Payments.Record.{validate_identifiers, authorize, approval_request_required}
use society_agent.Payments.Refund.{
  process_refund, refund_attempts, refund_once, write_refund, refunded_total,
}
use society_agent.Payments.Tests.{paid_row, paid_tables, refund_row}
use society_agent.Passes.Service.{require_event_of_flat}
use society_agent.Requests.Service.{get_event_society_id}
use society_agent.Requests.Create.{find_mapping, authorize_requester_mapping}
use society_agent.Requests.Attempts.{create_attempts}
use society_agent.RefundRequests.Create.{
  RefundRequestInput, request_refund, find_open_refund, reuse_or_create_refund,
  create_refund_request, add_refund_request,
}
use society_agent.RefundRequests.Created.{Opened, request_refund-opens}
use society_agent.RefundRequests.Service.{
  find_refund_request, approve_refund_request, reject_refund_request, approved_refund_request,
  rejected_refund_request,
}
use society_agent.RefundRequests.Effects.{
  reject_refund_request-rejects, Approved, approve_refund_request-approves,
  approve_refund_request-once,
}

abbrev amount_text : ℤ → String
amount_text x = "200"

abbrev id_text : ℕ → String
id_text n = "60"

abbrev request : RefundRequest
request = record {
  id = 80;
  event_id = 10;
  flat_id = 20;
  request_code = "REF-1";
  amount = pos 200;
  reason = "left early";
  status = RequestStatus.requested;
  requested_by_mapping_id = 60;
  member_identity_id = 61;
  approved_by = none;
  approved_at = none;
}

abbrev asked : Tables
asked = record paid_tables { refund_requests = request ∷ []; audit_logs = [] }

abbrev audit : String → String → String → ℕ → Option ℕ → AuditLog
audit kind action reason id performed_by = record {
  society_id = 1;
  entity_type = kind;
  entity_id = id;
  action = action;
  reason = reason;
  performed_by = performed_by;
  source = none;
  performed_at = none;
}

abbrev answered : Tables
answered = record asked {
  payments = record paid_row { status = PaymentStatus.refunded } ∷ [];
  refunds = refund_row ∷ [];
  refund_requests = approved_refund_request request 30 5 ∷ [];
  audit_logs =
      audit "refund" "PROCESS_REFUND" "OVERRIDE: Approved refund request REF-1 | left early" 20
        (some 30)
      ∷ audit "refund_request" "APPROVE_REFUND_REQUEST"
          "Approved REF-1 for 200 requested by mapping 60" 80 (some 30)
      ∷ [];
}

unfoldable answering : Unit {0}
unfolding running approve_refund_request find_refund_request get_event_society_id validate_uuid
    process_refund validate_identifiers authorize approval_request_required refund_attempts
    refund_once write_refund refunded_total or_rollback
answering = tt

approve_refund_request_run :
    approve_refund_request amount_text id_text 80 (uuid 30) 5 (session_of asked)
    ≡ (ok refund_row, session_of answered)
unfolding answering
approve_refund_request_run = refl

approve_refund_request-approves_example : Approved 80 30 5 asked answered
approve_refund_request-approves_example =
    approve_refund_request-approves amount_text id_text 80 30 5 (session_of asked) refl
      approve_refund_request_run

approve_refund_request-once_example :
    (approve_refund_request amount_text id_text 80 (uuid 30) 6 (session_of answered)).0
    ≡ err request_not_pending
approve_refund_request-once_example =
    approve_refund_request-once amount_text id_text 80 30 5 (session_of asked) 30 6
      (session_of answered) refl approve_refund_request_run refl

-- The refund is committed and the commit of the request fails: the request is still pending, and
-- approved again it is refunded again.
abbrev half_way : Session
half_way =
    (approve_refund_request amount_text id_text 80 (uuid 30) 5 (record {
      durable = asked;
      current = asked;
      outcomes = succeeds ∷ succeeds ∷ fails DbFault.other ∷ [];
    })).1

half_way_test :
    refunded_total 10 20
      (approve_refund_request amount_text id_text 80 (uuid 30) 6 half_way).1.durable
    ≡ pos 400
unfolding answering
half_way_test = refl

-- An approved request is turned down, and the refund stays.
abbrev turned_down : Tables
turned_down = record answered {
  refund_requests = rejected_refund_request (approved_refund_request request 30 5) ∷ [];
  audit_logs =
      answered.audit_logs
      ++ audit "refund_request" "REJECT_REFUND_REQUEST"
          "Rejected REF-1 for 200 requested by mapping 60" 80 (some 30)
        ∷ [];
}

reject_refund_request_run :
    reject_refund_request amount_text id_text 80 (uuid 30) none (session_of answered)
    ≡ (ok tt, session_of turned_down)
unfolding answering reject_refund_request
reject_refund_request_run = refl

reject_refund_request-rejects_example :
    (r : RefundRequest) × (find_refund_request 80 answered ≡ some r)
    × (find_refund_request 80 turned_down ≡ some (record r { status = RequestStatus.rejected }))
    × (turned_down.payments ≡ answered.payments)
    × (turned_down.refunds ≡ answered.refunds)
reject_refund_request-rejects_example =
    reject_refund_request-rejects amount_text id_text 80 (uuid 30) none (session_of answered)
      reject_refund_request_run

abbrev mapping : UserFlatMapping
mapping = record {
  id = 60;
  society_id = 1;
  flat_id = 20;
  member_identity_id = 61;
  is_active = true;
}

abbrev request_input : RefundRequestInput
request_input = record {
  event_id = uuid 10;
  flat_id = uuid 20;
  amount = pos 200;
  reason = "left early";
  requested_by_mapping_id = 60;
  override_reason = none;
  code_of = λ n. "REF-1";
  id_of = λ n. n + 74;
}

abbrev before_request : Tables
before_request = record paid_tables { user_flat_mappings = mapping ∷ []; audit_logs = [] }

-- The first code is taken.
abbrev taken : Session
taken = record {
  durable = before_request;
  current = before_request;
  outcomes = fails DbFault.integrity ∷ [];
}

abbrev opened_tables : Tables
opened_tables = record before_request {
  refund_requests = request ∷ [];
  audit_logs =
      audit "refund_request" "REQUEST_REFUND" "Request REF-1 for 200 by mapping 60" 80 none ∷ [];
}

request_refund_run :
    request_refund amount_text id_text request_input taken ≡ (ok request, session_of opened_tables)
unfolding running request_refund validate_uuid require_event_of_flat find_mapping
    authorize_requester_mapping find_open_refund reuse_or_create_refund create_refund_request
    create_attempts add_refund_request or_rollback
request_refund_run = refl

request_refund-opens_example :
    (leb_ℤ (pos 200) 0ℤ ≡ false) × Opened 10 20 (pos 200) before_request request opened_tables
request_refund-opens_example =
    request_refund-opens amount_text id_text request_input 10 20 taken refl refl refl
      request_refund_run
