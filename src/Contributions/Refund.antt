-- ===== src/Contributions/Refund.antt =====
-- app/modules/contributions/contribution_refund_service.py
use Prim.Native.String
use society_agent.Prelude.{
  ℕ, zero, String, Bool, ◌&&◌, Option, none, some, [], ◌∷◌, ◌++◌, find_first, get_or, ◌==◌,
  if◌then◌else◌,
}
use society_agent.Prelude.Int.{ℤ, pos, 0ℤ, ◌+ℤ◌, ◌-ℤ◌, leb_ℤ}
use society_agent.Prelude.Sums.{sum_where}
use society_agent.Db.{Event, EventContribution, ContributionRefund, RefundStatus, Tables, AuditLog}
use society_agent.Db.Errors.{
  invalid_event, invalid_sponsor, in_kind_contribution, refund_exceeds_contribution,
}
use society_agent.Db.Session.{Exec, query, guard, require, modify, flush, finish, ◌>>=◌, ◌>>◌}
use society_agent.Db.Query.{find_event, add_audit}
use society_agent.Workflow.Rules.{Action}
use society_agent.Workflow.Permit.{permit, log_override}
use society_agent.Payments.Refund.{is_refunded}

-- The keyword arguments of `process_refund`, and the id that the new row is given.
pub record ContributionRefundInput : Type 0 where
  pub event_id : ℕ
  pub contribution_code : ℕ
  pub amount : ℤ
  pub reason : String
  pub performed_by : Option ℕ
  pub override_reason : Option String
  pub new_id : ℕ

unfoldable pub find_contribution : ℕ → ℕ → Tables → Option EventContribution
find_contribution e code t =
    find_first (λ row. row.event_id == e && row.contribution_code == code) t.contributions

-- The amount of a contribution in money: none, and 0, stand for one in kind.
abbrev truthy_amount : Option ℤ → Option ℤ
truthy_amount none = none
truthy_amount (some (pos zero)) = none
truthy_amount (some x) = some x

unfoldable pub money_of : EventContribution → Option ℤ
money_of c = truthy_amount c.amount

abbrev pub is_repayment_of : ℕ → ContributionRefund → Bool
is_repayment_of c row = row.contribution_id == c && is_refunded row.status

unfoldable pub repaid_total : ℕ → Tables → ℤ
repaid_total c t = sum_where (is_repayment_of c) (λ row. row.amount) t.contribution_refunds

-- `max(0, contribution.amount - total_refunded)`
abbrev pub remaining : ℤ → ℤ → ℤ
remaining amount total = if leb_ℤ 0ℤ (amount -ℤ total) then amount -ℤ total else 0ℤ

abbrev pub new_repayment : ContributionRefundInput → EventContribution → ContributionRefund
new_repayment i c = record {
  id = i.new_id;
  contribution_id = c.id;
  amount = i.amount;
  reason = i.reason;
  status = RefundStatus.refunded;
}

abbrev repayment_audit : Event → ContributionRefundInput → Bool → AuditLog
repayment_audit event i is_override = record {
  society_id = event.society_id;
  entity_type = "contribution_refund";
  entity_id = i.new_id;
  action = "REFUND_CONTRIBUTION";
  reason = if is_override then String.◌++◌ "OVERRIDE: " (get_or i.override_reason "") else i.reason;
  performed_by = i.performed_by;
  source = none;
  performed_at = none;
}

-- From the new row to the commit.
unfoldable pub write_repayment :
    Event → EventContribution → ContributionRefundInput → Bool → Exec ContributionRefund
write_repayment event c i is_override = do
  modify (λ t. record t { contribution_refunds = t.contribution_refunds ++ new_repayment i c ∷ [] })
  flush
  log_override is_override event.society_id "contribution_refund" i.new_id "REFUND_CONTRIBUTION"
      i.override_reason i.performed_by
  finish (add_audit (repayment_audit event i is_override)) (new_repayment i c)

-- `ContributionRefundService.process_refund`
unfoldable pub process_contribution_refund : ContributionRefundInput → Exec ContributionRefund
process_contribution_refund i = do
  event ← require (← query (find_event i.event_id)) invalid_event
  c ← require (← query (find_contribution i.event_id i.contribution_code)) invalid_sponsor
  amount ← require (money_of c) in_kind_contribution
  total ← query (repaid_total c.id)
  guard (leb_ℤ (total +ℤ i.amount) amount) (refund_exceeds_contribution (remaining amount total))
  is_override ← permit i.event_id Action.refund_contribution i.performed_by i.override_reason
  write_repayment event c i is_override
