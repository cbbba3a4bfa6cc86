-- ===== src/Finance/Atomicity.antt =====
-- The services that commit once commit all that they write, or nothing.
use society_agent.Prelude.{ℕ, String, Option}
use society_agent.Prelude.Int.{ℤ}
use society_agent.Validation.{RawId}
use society_agent.Db.Atomic.{Atomic}
use society_agent.Payments.Record.{PaymentInput, record_payment}
use society_agent.Payments.Recorded.{record_payment-Atomic}
use society_agent.Passes.Service.{PassInput, OptOut, add_or_update_pass, mark_not_participating}
use society_agent.Passes.Written.{add_or_update_pass-Atomic, mark_not_participating-Atomic}
use society_agent.Events.Service.{Transition, CloseInput, EventInput, advance, close, create}
use society_agent.Events.Changes.{advance-Atomic, close-Atomic, create-Atomic}
use society_agent.Expenses.Service.{ExpenseInput, add_expense}
use society_agent.Expenses.Effects.{add_expense-Atomic}
use society_agent.Contributions.Service.{ContributionInput, add_contribution}
use society_agent.Contributions.Refund.{ContributionRefundInput, process_contribution_refund}
use society_agent.Contributions.Effects.{
  add_contribution-Atomic, process_contribution_refund-Atomic,
}
use society_agent.Ledger.Service.{BalanceInput, calculate_event_balance}
use society_agent.Ledger.Effects.{calculate_event_balance-Atomic}
use society_agent.Requests.Create.{RequestInput, request_payment}
use society_agent.Requests.Created.{request_payment-Atomic}
use society_agent.RefundRequests.Create.{RefundRequestInput, request_refund}
use society_agent.RefundRequests.Created.{request_refund-Atomic}

-- A payment, a booking or an opt-out, the creation, a transition or the closing of an event, an expense,
-- a contribution or its refund, the calculation of a balance, and a request for a payment or a refund:
-- each that raises, whatever the database answers, leaves every committed table as it was.
pub services-Atomic :
    ((i : PaymentInput) → Atomic (record_payment i))
    × ((i : PassInput) → Atomic (add_or_update_pass i))
    × ((i : OptOut) → Atomic (mark_not_participating i))
    × ((i : EventInput) → Atomic (create i))
    × ((tr : Transition) (e m : RawId) (r : Option String) → Atomic (advance tr e m r))
    × ((i : CloseInput) → Atomic (close i))
    × ((i : ExpenseInput) → Atomic (add_expense i))
    × ((i : ContributionInput) → Atomic (add_contribution i))
    × ((i : ContributionRefundInput) → Atomic (process_contribution_refund i))
    × ((i : BalanceInput) → Atomic (calculate_event_balance i))
    × ((a : ℤ → String) (d : ℕ → String) (i : RequestInput) → Atomic (request_payment a d i))
    × ((a : ℤ → String) (d : ℕ → String) (i : RefundRequestInput) → Atomic (request_refund a d i))
services-Atomic = (
  record_payment-Atomic, add_or_update_pass-Atomic, mark_not_participating-Atomic, create-Atomic,
  advance-Atomic, close-Atomic, add_expense-Atomic, add_contribution-Atomic,
  process_contribution_refund-Atomic, calculate_event_balance-Atomic, request_payment-Atomic,
  request_refund-Atomic,
)
