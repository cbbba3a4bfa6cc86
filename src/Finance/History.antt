-- ===== src/Finance/History.antt =====
-- A history of calls of the services that move money.
use society_agent.Db.{Tables}
use society_agent.Db.Ran.{Ran}
use society_agent.Payments.Record.{PaymentInput, record_payment}
use society_agent.Payments.Refund.{RefundInput, process_refund}
use society_agent.Passes.Service.{PassInput, OptOut, add_or_update_pass, mark_not_participating}
use society_agent.Expenses.Service.{ExpenseInput, add_expense}
use society_agent.Contributions.Service.{ContributionInput, add_contribution}
use society_agent.Contributions.Refund.{ContributionRefundInput, process_contribution_refund}
use society_agent.Ledger.Service.{BalanceInput, calculate_event_balance}

-- One call of a service, whether it returns or raises, from one committed state to the next.
pub data Step (t t' : Tables) : Type 0 where
  pays : (i : PaymentInput) → Ran (record_payment i) t t' → Step t t'
  refunds : (i : RefundInput) → Ran (process_refund i) t t' → Step t t'
  books : (i : PassInput) → Ran (add_or_update_pass i) t t' → Step t t'
  opts_out : (i : OptOut) → Ran (mark_not_participating i) t t' → Step t t'
  spends : (i : ExpenseInput) → Ran (add_expense i) t t' → Step t t'
  contributes : (i : ContributionInput) → Ran (add_contribution i) t t' → Step t t'
  repays : (i : ContributionRefundInput) → Ran (process_contribution_refund i) t t' → Step t t'
  calculates : (i : BalanceInput) → Ran (calculate_event_balance i) t t' → Step t t'

pub data Reach (t : Tables) : Tables → Type 0 where
  here : Reach t t
  next : {u v : Tables} → Reach t u → Step u v → Reach t v
