-- ===== src/RefundRequests/Service.antt =====
-- app/modules/payments/refund_request_service.py: `approve_request` and `reject_request`. The request
-- object is the row with its id, as the session has it. How an amount is written is a parameter.
use Prim.Native.String
use society_agent.Prelude.{
  none, ℕ, String, true, false, Option, some, find_first, save, get_or, ◌==◌, if◌then◌else◌,
}
use society_agent.Prelude.Int.{ℤ}
use society_agent.Validation.{RawId, uuid, validate_uuid}
use society_agent.Db.{Refund, RefundRequest, RequestStatus, Tables, AuditLog}
use society_agent.Db.Errors.{no_request, request_not_pending}
use society_agent.Db.Session.{Exec, lift, query, guard, require, finish, or_rollback, ◌>>=◌, ◌>>◌}
use society_agent.Db.Query.{add_audit}
use society_agent.Workflow.Permit.{is_truthy}
use society_agent.Security.Access.{require_committee_action}
use society_agent.Payments.Refund.{RefundInput, process_refund}
use society_agent.Requests.Service.{is_requested, get_event_society_id}

unfoldable pub find_refund_request : ℕ → Tables → Option RefundRequest
find_refund_request r t = find_first (λ row. row.id == r) t.refund_requests

abbrev pub save_refund_request : RefundRequest → Tables → Tables
save_refund_request r t = record t {
  refund_requests = save (λ row. row.id == r.id) r t.refund_requests;
}

-- The call of `process_refund` that an approval makes.
abbrev pub approved_refund_input : RefundRequest → RawId → RefundInput
approved_refund_input r performed_by = record {
  event_id = uuid r.event_id;
  flat_id = uuid r.flat_id;
  amount = r.amount;
  performed_by = performed_by;
  reason = r.reason;
  override_reason = some (String.◌++◌ "Approved refund request " r.request_code);
  require_approved_request_context = true;
  approved_request_id = some (uuid r.id);
  approved_service_context = false;
}

abbrev pub approved_refund_request : RefundRequest → ℕ → ℕ → RefundRequest
approved_refund_request r p now = record r {
  status = RequestStatus.approved;
  approved_by = some p;
  approved_at = some now;
}

abbrev pub rejected_refund_request : RefundRequest → RefundRequest
rejected_refund_request r = record r { status = RequestStatus.rejected }

module _ (amount_text : ℤ → String) (id_text : ℕ → String) where
  refund_request_text : RefundRequest → String
  refund_request_text r = String.◌++◌ r.request_code (
      String.◌++◌ " for " (
        String.◌++◌ (amount_text r.amount)
          (String.◌++◌ " requested by mapping " (id_text r.requested_by_mapping_id))))

  refund_answer_audit : ℕ → RefundRequest → String → String → ℕ → AuditLog
  refund_answer_audit society_id r action reason p = record {
    society_id = society_id;
    entity_type = "refund_request";
    entity_id = r.id;
    action = action;
    reason = reason;
    performed_by = some p;
    source = none;
    performed_at = none;
  }

  -- `RefundRequestService.approve_request`; the refund is committed before the request's row.
  unfoldable pub approve_refund_request : ℕ → RawId → ℕ → Exec Refund
  unfolding refund_answer_audit refund_request_text
  approve_refund_request request_id performed_by now = do
    p ← lift (validate_uuid performed_by "member_id")
    r ← require (← query (find_refund_request request_id)) no_request
    guard (is_requested r.status) request_not_pending
    society_id ← get_event_society_id r.event_id
    lift (← query (require_committee_action society_id (some p) "REFUND"))
    refund ← process_refund (approved_refund_input r performed_by)
    or_rollback (
        finish
          (λ t.
            add_audit
              (refund_answer_audit society_id r "APPROVE_REFUND_REQUEST"
                (String.◌++◌ "Approved " (refund_request_text r)) p)
              (save_refund_request (approved_refund_request r p now) t))
          refund)

  -- `RefundRequestService.reject_request`; it does not look at the status.
  unfoldable pub reject_refund_request : ℕ → RawId → Option String → Exec (Unit {0})
  unfolding refund_answer_audit refund_request_text
  reject_refund_request request_id performed_by rejection_reason = do
    p ← lift (validate_uuid performed_by "member_id")
    r ← require (← query (find_refund_request request_id)) no_request
    society_id ← get_event_society_id r.event_id
    lift (← query (require_committee_action society_id (some p) "REFUND"))
    let reason = String.◌++◌ "Rejected " (refund_request_text r)
    finish
        (λ t.
          add_audit
            (refund_answer_audit society_id r "REJECT_REFUND_REQUEST"
              (if is_truthy rejection_reason
                then String.◌++◌ reason (String.◌++◌ " | " (get_or rejection_reason ""))
                else reason)
              p)
            (save_refund_request (rejected_refund_request r) t))
        tt
