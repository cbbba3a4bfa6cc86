-- ===== src/Requests/Service.antt =====
-- app/modules/payments/payment_request_service.py: `approve_request` and `reject_request`. The request
-- object is the row with its id, as the session has it. How an amount is written is a parameter.
use Prim.Native.String
use society_agent.Prelude.{
  none, ℕ, String, Bool, true, false, Option, some, find_first, save, get_or, ◌==◌, if◌then◌else◌,
}
use society_agent.Prelude.Int.{ℤ}
use society_agent.Validation.{RawId, uuid, validate_uuid}
use society_agent.Db.{Payment, PaymentRequest, RequestStatus, Tables, AuditLog}
use society_agent.Db.Errors.{invalid_event, no_request, request_not_pending}
use society_agent.Db.Session.{Exec, lift, query, guard, require, finish, or_rollback, ◌>>=◌, ◌>>◌}
use society_agent.Db.Query.{find_event, add_audit}
use society_agent.Workflow.Permit.{is_truthy}
use society_agent.Security.Access.{require_committee_action}
use society_agent.Payments.Record.{PaymentInput, record_payment}

unfoldable pub find_request : ℕ → Tables → Option PaymentRequest
find_request r t = find_first (λ row. row.id == r) t.payment_requests

abbrev pub is_requested : RequestStatus → Bool
is_requested RequestStatus.requested = true
is_requested _ = false

-- `_get_event_society_id`
unfoldable pub get_event_society_id : ℕ → Exec ℕ
get_event_society_id event_id = do
  event ← require (← query (find_event event_id)) invalid_event
  query (λ _. event.society_id)

abbrev pub save_request : PaymentRequest → Tables → Tables
save_request r t = record t { payment_requests = save (λ row. row.id == r.id) r t.payment_requests }

-- `request.payment_mode or "upi"`
abbrev pub mode_of : PaymentRequest → String
mode_of r = if is_truthy r.payment_mode then get_or r.payment_mode "upi" else "upi"

-- The call of `record_payment` that an approval makes.
abbrev pub approved_input : PaymentRequest → RawId → ℕ → PaymentInput
approved_input r performed_by now = record {
  event_id = uuid r.event_id;
  flat_id = uuid r.flat_id;
  amount = r.amount;
  payment_mode = mode_of r;
  performed_by = performed_by;
  override_reason = some (String.◌++◌ "Approved payment request " r.request_code);
  require_approved_request_context = true;
  approved_request_id = some (uuid r.id);
  approved_service_context = false;
  now = now;
}

abbrev pub approved_request : PaymentRequest → ℕ → ℕ → PaymentRequest
approved_request r p now = record r {
  status = RequestStatus.approved;
  approved_by = some p;
  approved_at = some now;
}

abbrev pub rejected_request : PaymentRequest → PaymentRequest
rejected_request r = record r { status = RequestStatus.rejected }

module _ (amount_text : ℤ → String) (id_text : ℕ → String) where
  request_text : PaymentRequest → String
  request_text r = String.◌++◌ r.request_code (
      String.◌++◌ " for " (
        String.◌++◌ (amount_text r.amount)
          (String.◌++◌ " requested by mapping " (id_text r.requested_by_mapping_id))))

  answer_audit : ℕ → PaymentRequest → String → String → ℕ → AuditLog
  answer_audit society_id r action reason p = record {
    society_id = society_id;
    entity_type = "payment_request";
    entity_id = r.id;
    action = action;
    reason = reason;
    performed_by = some p;
    source = none;
    performed_at = none;
  }

  -- `PaymentRequestService.approve_request`; the payment is committed before the request's row.
  unfoldable pub approve_request : ℕ → RawId → ℕ → Exec Payment
  unfolding answer_audit request_text
  approve_request request_id performed_by now = do
    p ← lift (validate_uuid performed_by "member_id")
    r ← require (← query (find_request request_id)) no_request
    guard (is_requested r.status) request_not_pending
    society_id ← get_event_society_id r.event_id
    lift (← query (require_committee_action society_id (some p) "PAY"))
    payment ← record_payment (approved_input r performed_by now)
    or_rollback (
        finish
          (λ t.
            add_audit
              (answer_audit society_id r "APPROVE_PAYMENT_REQUEST"
                (String.◌++◌ "Approved " (request_text r)) p)
              (save_request (approved_request r p now) t))
          payment)

  -- `PaymentRequestService.reject_request`; it does not look at the status.
  unfoldable pub reject_request : ℕ → RawId → Option String → Exec (Unit {0})
  unfolding answer_audit request_text
  reject_request request_id performed_by rejection_reason = do
    p ← lift (validate_uuid performed_by "member_id")
    r ← require (← query (find_request request_id)) no_request
    society_id ← get_event_society_id r.event_id
    lift (← query (require_committee_action society_id (some p) "PAY"))
    let reason = String.◌++◌ "Rejected " (request_text r)
    finish
        (λ t.
          add_audit
            (answer_audit society_id r "REJECT_PAYMENT_REQUEST"
              (if is_truthy rejection_reason
                then String.◌++◌ reason (String.◌++◌ " | " (get_or rejection_reason ""))
                else reason)
              p)
            (save_request (rejected_request r) t))
        tt
