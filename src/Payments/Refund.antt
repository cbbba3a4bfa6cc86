-- ===== src/Payments/Refund.antt =====
-- app/modules/payments/refund_service.py
use Prim.Native.String
use society_agent.Prelude.{
  none, ℕ, zero, suc, String, Bool, true, false, not, ◌&&◌, Option, some, [], ◌∷◌, ◌++◌, save,
  is_some, get_or, ltb, ◌==◌, if◌then◌else◌,
}
use society_agent.Prelude.Int.{ℤ, 0ℤ, ◌+ℤ◌, leb_ℤ}
use society_agent.Prelude.Sums.{sum_where}
use society_agent.Validation.{RawId}
use society_agent.Db.{Event, PaymentStatus, Refund, RefundStatus, Tables, AuditLog}
use society_agent.Db.Errors.{
  Error, Result, ok, err, database, serialization, amount_not_positive, approval_required,
  no_payment, refund_exceeds_paid, repeated_conflicts,
}
use society_agent.Db.Session.{
  Session, Exec, query, guard, require, modify, flush, finish, rolled_back, ◌>>=◌, ◌>>◌,
}
use society_agent.Db.Query.{find_payment, is_payment_of, add_audit}
use society_agent.Workflow.Rules.{request_refund}
use society_agent.Workflow.Permit.{is_truthy, ensure_permitted}
use society_agent.Payments.Record.{
  Identifiers, validate_identifiers, approval_request_required, authorize,
}

-- The keyword arguments of `process_refund`.
pub record RefundInput : Type 0 where
  pub event_id : RawId
  pub flat_id : RawId
  pub amount : ℤ
  pub performed_by : RawId
  pub reason : String
  pub override_reason : Option String
  pub require_approved_request_context : Bool
  pub approved_request_id : Option RawId
  pub approved_service_context : Bool

abbrev pub is_refunded : RefundStatus → Bool
is_refunded RefundStatus.refunded = true
is_refunded _ = false

abbrev pub is_refund_of : ℕ → ℕ → Refund → Bool
is_refund_of e f row = row.event_id == e && row.flat_id == f && is_refunded row.status

-- The sum of the amounts refunded to a flat.
unfoldable pub refunded_total : ℕ → ℕ → Tables → ℤ
refunded_total e f t = sum_where (is_refund_of e f) (λ row. row.amount) t.refunds

abbrev pub new_refund : Identifiers → RefundInput → Refund
new_refund ids i = record {
  event_id = ids.event_id;
  flat_id = ids.flat_id;
  amount = i.amount;
  reason = i.reason;
  status = RefundStatus.refunded;
  created_by = ids.performed_by;
}

refund_audit : Event → Identifiers → RefundInput → AuditLog
refund_audit event ids i = record {
  society_id = event.society_id;
  entity_type = "refund";
  entity_id = ids.flat_id;
  action = "PROCESS_REFUND";
  reason =
      if is_truthy i.override_reason
      then String.◌++◌ "OVERRIDE: "
          (String.◌++◌ (get_or i.override_reason "") (String.◌++◌ " | " i.reason))
      else i.reason;
  performed_by = some ids.performed_by;
  source = none;
  performed_at = none;
}

-- From the payment row to the commit.
unfoldable pub write_refund : Event → Identifiers → RefundInput → Exec Refund
unfolding refund_audit
write_refund event ids i = do
  payment ← require (← query (find_payment ids.event_id ids.flat_id)) no_payment
  guard (not (leb_ℤ payment.paid_amount 0ℤ)) no_payment
  total ← query (refunded_total ids.event_id ids.flat_id)
  guard (leb_ℤ (i.amount +ℤ total) payment.paid_amount) refund_exceeds_paid
  modify (λ t. record t { refunds = t.refunds ++ new_refund ids i ∷ [] })
  flush
  after ← query (refunded_total ids.event_id ids.flat_id)
  guard (leb_ℤ after payment.paid_amount) refund_exceeds_paid
  finish
      (λ t. add_audit (refund_audit event ids i) (record t {
        payments =
            save (is_payment_of ids.event_id ids.flat_id)
              (record payment { status = PaymentStatus.refunded }) t.payments;
      }))
      (new_refund ids i)

-- The body of the `try` block.
unfoldable pub refund_once : Identifiers → RefundInput → Exec Refund
refund_once ids i = do
  event ← authorize "REFUND" ids.event_id ids.flat_id ids.performed_by
  ensure_permitted event.society_id ids.event_id "refund" ids.flat_id request_refund
      (some ids.performed_by) i.override_reason
  write_refund event ids i

-- `_is_serialization_error`
abbrev pub is_serialization : Error → Bool
is_serialization (database serialization) = true
is_serialization _ = false

-- The `except` blocks: `again` is the run of the attempts that are left, `n` their number.
abbrev pub handle : ℕ → Result Refund × Session → Result Refund × Session → Result Refund × Session
handle n (ok refund, s) again = (ok refund, s)
handle n (err e, s) again = if is_serialization e && ltb 0 n then again else (err e, rolled_back s)

unfoldable pub refund_attempts : ℕ → Identifiers → RefundInput → Exec Refund
refund_attempts zero ids i s = (err repeated_conflicts, s)
refund_attempts (suc n) ids i s =
    let first = refund_once ids i s in
    let again = refund_attempts n ids i (rolled_back first.1) in handle n first again

-- `_SERIALIZATION_RETRY_LIMIT`
abbrev pub retry_limit : ℕ
retry_limit = 3

-- `RefundService.process_refund`
unfoldable pub process_refund : RefundInput → Exec Refund
process_refund i = do
  ids ← validate_identifiers i.event_id i.flat_id i.performed_by i.approved_request_id
  guard (not (leb_ℤ i.amount 0ℤ)) amount_not_positive
  needed ← query (approval_request_required request_refund ids.event_id)
  guard
      (not (
        i.require_approved_request_context
        && needed
        && not (is_some i.approved_request_id)
        && not i.approved_service_context))
      approval_required
  refund_attempts retry_limit ids i
