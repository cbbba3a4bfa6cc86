-- ===== src/Payments/Record.antt =====
-- app/modules/payments/payment_service.py
use Prim.Native.String
use society_agent.Prelude.{
  ℕ, String, Bool, false, not, ◌&&◌, Option, none, some, find_first, save, is_some, get_or, ◌==◌,
  if◌then◌else◌,
}
use society_agent.Prelude.Int.{ℤ, 0ℤ, ◌+ℤ◌, leb_ℤ}
use society_agent.Validation.{RawId, validate_uuid}
use society_agent.Db.{Event, EventFoodPass, Payment, Tables, AuditLog, paid, partial, pending}
use society_agent.Db.Errors.{
  Result, ok, err, amount_not_positive, approval_required, invalid_event_or_flat, society_mismatch,
  pass_not_found,
}
use society_agent.Db.Session.{Exec, pure, lift, query, guard, require, finish, ◌>>=◌, ◌>>◌}
use society_agent.Db.Query.{
  find_event, find_workflow, find_flat, find_payment, is_pass_of, is_payment_of, add_audit,
}
use society_agent.Workflow.Rules.{Action, request_payment, mark_paid, allows}
use society_agent.Workflow.Permit.{is_truthy, ensure_permitted}
use society_agent.Security.Access.{require_committee_action}

-- The keyword arguments of `record_payment`, and the time at which it runs.
pub record PaymentInput : Type 0 where
  pub event_id : RawId
  pub flat_id : RawId
  pub amount : ℤ
  pub payment_mode : String
  pub performed_by : RawId
  pub override_reason : Option String
  pub require_approved_request_context : Bool
  pub approved_request_id : Option RawId
  pub approved_service_context : Bool
  pub now : ℕ

-- What `_validate_identifiers` returns.
pub record Identifiers : Type 0 where
  pub event_id : ℕ
  pub flat_id : ℕ
  pub performed_by : ℕ

check_request_id : Option RawId → Result (Unit {0})
check_request_id none = ok tt
check_request_id (some id) = elim (validate_uuid id "request_id") [ ok _ ↦ ok tt | err e ↦ err e ]

-- `_validate_identifiers`
unfoldable pub validate_identifiers : RawId → RawId → RawId → Option RawId → Exec Identifiers
unfolding check_request_id validate_uuid
validate_identifiers event_id flat_id performed_by approved_request_id = do
  e ← lift (validate_uuid event_id "event_id")
  f ← lift (validate_uuid flat_id "flat_id")
  p ← lift (validate_uuid performed_by "member_id")
  lift (check_request_id approved_request_id)
  pure (record { event_id = e; flat_id = f; performed_by = p })

-- `_approval_request_required`; the refund service has the same with its own action.
unfoldable pub approval_request_required : Action → ℕ → Tables → Bool
approval_request_required action event_id t = elim (find_workflow event_id t) [
  | none ↦ false
  | some w ↦ allows w.current_state action
]

-- The food pass of a flat that takes part.
unfoldable pub find_participating : ℕ → ℕ → Tables → Option EventFoodPass
find_participating e f t =
    find_first (λ row. is_pass_of e f row && row.is_participating) t.food_passes

-- The event and the flat, of one society, and a performer with the right.
unfoldable pub authorize : String → ℕ → ℕ → ℕ → Exec Event
authorize right event_id flat_id performed_by = do
  event ← require (← query (find_event event_id)) invalid_event_or_flat
  flat ← require (← query (find_flat flat_id)) invalid_event_or_flat
  guard (flat.society_id == event.society_id) society_mismatch
  lift (← query (require_committee_action event.society_id (some performed_by) right))
  pure event

-- `payment.paid_amount += amount` and the assignments that follow.
unfoldable pub credit : ℤ → String → ℕ → ℤ → Payment → Payment
credit amount mode now expected payment = record payment {
  paid_amount = payment.paid_amount +ℤ amount;
  payment_mode = some mode;
  paid_at = some now;
  status = if leb_ℤ expected (payment.paid_amount +ℤ amount) then paid else partial;
}

abbrev pub fresh_payment : ℕ → ℕ → ℤ → Payment
fresh_payment e f expected = record {
  event_id = e;
  flat_id = f;
  expected_amount = expected;
  paid_amount = 0ℤ;
  status = pending;
  payment_mode = none;
  paid_at = none;
}

payment_audit : Event → Identifiers → PaymentInput → AuditLog
payment_audit event ids i = record {
  society_id = event.society_id;
  entity_type = "payment";
  entity_id = ids.flat_id;
  action = "MARK_PAID";
  reason =
      if is_truthy i.override_reason
      then String.◌++◌ "OVERRIDE: " (get_or i.override_reason "")
      else String.◌++◌ "Payment received via " i.payment_mode;
  performed_by = some ids.performed_by;
  source = none;
  performed_at = none;
}

-- From the food pass to the commit.
unfoldable pub write_payment : Event → Identifiers → PaymentInput → Exec Payment
unfolding payment_audit
write_payment event ids i = do
  pass ← require (← query (find_participating ids.event_id ids.flat_id)) pass_not_found
  found ← query (find_payment ids.event_id ids.flat_id)
  let old = get_or found (fresh_payment ids.event_id ids.flat_id pass.total_amount)
  let payment = credit i.amount i.payment_mode i.now pass.total_amount old
  finish
      (λ t.
        add_audit (payment_audit event ids i) (record t {
          payments = save (is_payment_of ids.event_id ids.flat_id) payment t.payments;
        }))
      payment

-- `PaymentService.record_payment`
unfoldable pub record_payment : PaymentInput → Exec Payment
record_payment i = do
  ids ← validate_identifiers i.event_id i.flat_id i.performed_by i.approved_request_id
  guard (not (leb_ℤ i.amount 0ℤ)) amount_not_positive
  needed ← query (approval_request_required request_payment ids.event_id)
  guard
      (not (
        i.require_approved_request_context
        && needed
        && not (is_some i.approved_request_id)
        && not i.approved_service_context))
      approval_required
  event ← authorize "PAY" ids.event_id ids.flat_id ids.performed_by
  ensure_permitted event.society_id ids.event_id "payment" ids.flat_id mark_paid
      (some ids.performed_by) i.override_reason
  write_payment event ids i
