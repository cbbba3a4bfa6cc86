-- ===== src/Ledger/Closing.antt =====
-- The ledger keeps account of every service that moves money: what one call adds to the closing
-- balance of each event, or takes from it.
use mathlib.Core.Path.{subst}
use society_agent.Prelude.{ℕ, ◌≡◌, refl, arith, ◌==◌}
use society_agent.Prelude.Int.{ℤ, ◌+ℤ◌, ◌-ℤ◌}
use society_agent.Prelude.Sums.{sum_where-add}
use society_agent.Validation.{uuid}
use society_agent.Db.{Payment, Refund, EventExpense, ContributionRefund, Tables}
use society_agent.Db.Errors.{ok}
use society_agent.Db.Session.{Session}
use society_agent.Db.Ran.{IsClean}
use society_agent.Payments.Refunded.{Refunded}
use society_agent.Payments.Record.{Identifiers, PaymentInput, record_payment}
use society_agent.Payments.Recorded.{Recorded, record_payment-ok}
use society_agent.Payments.Refund.{RefundInput, process_refund, new_refund}
use society_agent.Payments.Retries.{Processed, process_refund-ok}
use society_agent.Expenses.Service.{ExpenseInput, add_expense, new_expense}
use society_agent.Expenses.Effects.{Spent, add_expense-ok}
use society_agent.Contributions.Service.{ContributionInput, add_contribution, new_contribution}
use society_agent.Contributions.Effects.{
  Contributed, Repaid, add_contribution-ok, process_contribution_refund-ok,
}
use society_agent.Contributions.Refund.{ContributionRefundInput, process_contribution_refund}
use society_agent.Ledger.Service.{
  flat_payments, contributions, expenses, refunds, closing_balance, amount_or_zero,
}
use society_agent.Ledger.Moves.{
  counted, payments_moved, payments_same, payments_part, contributions_part, expenses_part,
  refunds_part,
}

Recorded-moves :
    {i : PaymentInput} {s : Session} {pay : Payment} {s' : Session} (r : Recorded i s pay s')
    (o : ℤ) (e' : ℕ)
    → closing_balance o e' s'.durable
      ≡ closing_balance o e' s.current +ℤ counted r.ids.event_id e' i.amount
unfolding closing_balance contributions expenses refunds
Recorded-moves {i} {s} r o e' =
    rw r.committed (rw (payments_moved r e') (rw r.written (payments_part o _ _ _ _ _ _ refl)))

-- A payment raises the closing balance of its event by the amount paid, and of no other event.
pub record_payment-moves :
    (i : PaymentInput) (e : ℕ) (s : Session) {pay : Payment} {s' : Session}
    → i.event_id ≡ uuid e
    → record_payment i s ≡ (ok pay, s')
    → (o : ℤ) (e' : ℕ)
    → closing_balance o e' s'.durable ≡ closing_balance o e' s.current +ℤ counted e e' i.amount
record_payment-moves i e s {pay} {s'} eid h o e' =
    let r : Recorded i s pay s' = record_payment-ok i s h in
    let same_event : r.ids.event_id ≡ e = ground (arith, r.event_id) in
    subst
      (λ a.
        closing_balance o e' s'.durable ≡ closing_balance o e' s.current +ℤ counted a e' i.amount)
      same_event (Recorded-moves r o e')

Refunded-moves :
    {ids : Identifiers} {i : RefundInput} {t : Tables} {refund : Refund} {t' : Tables}
    (r : Refunded ids i t refund t') (o : ℤ) (e' : ℕ)
    → closing_balance o e' t' ≡ closing_balance o e' t -ℤ counted ids.event_id e' i.amount
unfolding closing_balance contributions expenses refunds
Refunded-moves {ids} {i} {t} r o e' = rw (payments_same r e') (
    rw r.written (
      refunds_part o _ _ _ _ _ _ (
        sum_where-add (λ row. row.event_id == e') (λ row. row.amount) t.refunds
          (new_refund ids i))))

-- A refund to a flat lowers the closing balance of its event by its amount, once however often it was
-- tried, and that of no other event.
pub process_refund-moves :
    (i : RefundInput) (e : ℕ) (s : Session) {refund : Refund} {s' : Session}
    → IsClean s
    → i.event_id ≡ uuid e
    → process_refund i s ≡ (ok refund, s')
    → (o : ℤ) (e' : ℕ)
    → closing_balance o e' s'.durable ≡ closing_balance o e' s.durable -ℤ counted e e' i.amount
process_refund-moves i e s {refund} {s'} clean eid h o e' =
    let r : Processed i s refund s' = process_refund-ok i s clean h in
    let same_event : r.ids.event_id ≡ e = ground (arith, r.event_id) in
    subst
      (λ a.
        closing_balance o e' s'.durable ≡ closing_balance o e' s.durable -ℤ counted a e' i.amount)
      same_event (Refunded-moves r.refunded o e')

-- An expense lowers the closing balance of its event by its amount, and of no other event.
pub add_expense-moves :
    (i : ExpenseInput) (s : Session) {row : EventExpense} {s' : Session}
    → add_expense i s ≡ (ok row, s')
    → (o : ℤ) (e' : ℕ)
    → closing_balance o e' s'.durable
      ≡ closing_balance o e' s.current -ℤ counted i.event_id e' i.amount
unfolding closing_balance flat_payments contributions expenses refunds
add_expense-moves i s {row} {s'} h o e' =
    let r : Spent i s.current row s'.durable = add_expense-ok i s h in
    rw (r.written, r.row_of)
      (expenses_part o _ _ _ _ _ _ (
        sum_where-add (λ row. row.event_id == e') (λ row. row.amount) s.current.expenses
          (new_expense i _)))

-- A contribution raises the closing balance of its event by its amount, by nothing if it is in kind,
-- and that of no other event.
pub add_contribution-moves :
    (i : ContributionInput) (s : Session) {code : ℕ} {s' : Session}
    → add_contribution i s ≡ (ok code, s')
    → (o : ℤ) (e' : ℕ)
    → closing_balance o e' s'.durable
      ≡ closing_balance o e' s.current +ℤ counted i.event_id e' (amount_or_zero i.amount)
unfolding closing_balance flat_payments contributions expenses refunds
add_contribution-moves i s {code} {s'} h o e' =
    let r : Contributed i s.current code s'.durable = add_contribution-ok i s h in
    rw r.written (
      contributions_part o _ _ _ _ _ _ (
        sum_where-add (λ row. row.event_id == e') (λ row. amount_or_zero row.amount)
          s.current.contributions (new_contribution i code)))

-- A contribution that is paid back leaves every closing balance as it was.
pub process_contribution_refund-moves :
    (i : ContributionRefundInput) (s : Session) {row : ContributionRefund} {s' : Session}
    → process_contribution_refund i s ≡ (ok row, s')
    → (o : ℤ) (e' : ℕ) → closing_balance o e' s'.durable ≡ closing_balance o e' s.current
unfolding closing_balance flat_payments contributions expenses refunds
process_contribution_refund-moves i s {row} {s'} h o e' =
    let r : Repaid i s.current row s'.durable = process_contribution_refund-ok i s h in
    rw r.written refl
