-- ===== src/Ledger/Tests.antt =====
-- Runs of the ledger, and its theorems at runs of the services that move money.
use society_agent.Prelude.{◌≡◌, refl, ℕ, false, none, some, [], ◌∷◌, ◌==◌}
use society_agent.Prelude.Sums.{sum_where}
use society_agent.Prelude.Int.{◌+ℤ◌, ◌-ℤ◌, ℤ, pos}
use society_agent.Db.{EventExpense, SocietyBalance, Tables, AuditLog, active}
use society_agent.Db.Errors.{ok}
use society_agent.Fixtures.{tables_in, session_of}
use society_agent.Runs.{running}
use society_agent.Payments.Tests.{
  payment_input, paid_row, paid_tables, refund_row, record_payment_run, refund_input,
  refunded_tables, busy, process_refund_run,
}
use society_agent.Contributions.Tests.{given_tables}
use society_agent.Expenses.Service.{ExpenseInput, add_expense}
use society_agent.Ledger.Service.{
  BalanceInput, flat_payments, contributions, expenses, refunds, closing_balance, amount_or_zero,
  calculate_event_balance,
}
use society_agent.Ledger.Effects.{find_balance, calculate_event_balance-stores}
use society_agent.Ledger.Account.{
  credits, debits, post_all, History, then_next, nothing, paid, refunded, closing_balance-refines,
}

-- A payment and a refund, which is tried again after a conflict.
abbrev two_calls :
    History (tables_in active) (debits 10 (pos 200) ∷ credits 10 (pos 600) ∷ []) refunded_tables
two_calls =
    then_next
      (then_next nothing (
        paid payment_input 10 refl record {
          session = session_of (tables_in active);
          clean = refl;
          before = refl;
          value = paid_row;
          left = session_of paid_tables;
          ran = record_payment_run;
          after = refl;
        }))
      (refunded refund_input 10 refl record {
        session = busy;
        clean = refl;
        before = refl;
        value = refund_row;
        left = session_of refunded_tables;
        ran = process_refund_run;
        after = refl;
      })

closing_balance-refines_example :
    closing_balance (pos 100) 10 refunded_tables
    ≡ post_all
        (debits 10 (pos 200) ∷ credits 10 (pos 600) ∷ [])
        (λ e. closing_balance (pos 100) e (tables_in active))
        10
closing_balance-refines_example = closing_balance-refines (pos 100) two_calls 10

abbrev expense_input : ExpenseInput
expense_input = record {
  event_id = 10;
  description = "Lights";
  amount = pos 900;
  performed_by = some 30;
  override_reason = none;
}

abbrev expense_row : EventExpense
expense_row = record {
  event_id = 10;
  description = "Lights";
  amount = pos 900;
  is_override = false;
  override_reason = none;
}

abbrev expense_log : AuditLog
expense_log = record {
  society_id = 1;
  entity_type = "expense";
  entity_id = 10;
  action = "ADD_EXPENSE";
  reason = "Lights";
  performed_by = some 30;
  source = none;
  performed_at = none;
}

abbrev spent_tables : Tables
spent_tables = record given_tables { expenses = expense_row ∷ []; audit_logs = expense_log ∷ [] }

abbrev before_expense : Tables
before_expense = record given_tables { audit_logs = [] }

add_expense_run :
    add_expense expense_input (session_of before_expense)
    ≡ (ok expense_row, session_of spent_tables)
unfolding running add_expense
add_expense_run = refl

abbrev balance_input : BalanceInput
balance_input = record {
  event_id = 10;
  opening_balance = pos 100;
  performed_by = some 30;
  override_reason = none;
}

-- 100 + 5000 - 900
abbrev balance : SocietyBalance
balance = record { event_id = 10; opening_balance = pos 100; closing_balance = pos 4200 }

abbrev balanced_tables : Tables
balanced_tables = record spent_tables {
  balances = balance ∷ [];
  audit_logs =
      expense_log
      ∷ record {
        society_id = 1;
        entity_type = "ledger";
        entity_id = 10;
        action = "CALCULATE_BALANCE";
        reason = "Normal ledger calculation";
        performed_by = some 30;
        source = none;
        performed_at = none;
      }
      ∷ [];
}

calculate_event_balance_run :
    calculate_event_balance balance_input (session_of spent_tables)
    ≡ (ok balance, session_of balanced_tables)
unfolding running calculate_event_balance closing_balance flat_payments contributions expenses
    refunds
calculate_event_balance_run = refl

calculate_event_balance-stores_example :
    (balance ≡ record {
      event_id = 10;
      opening_balance = pos 100;
      closing_balance =
          pos 100
          +ℤ sum_where (λ x. x.event_id == 10) (λ x. x.paid_amount) spent_tables.payments
          +ℤ sum_where
              (λ x. x.event_id == 10)
              (λ x. amount_or_zero x.amount)
              spent_tables.contributions
          -ℤ sum_where (λ x. x.event_id == 10) (λ x. x.amount) spent_tables.expenses
          -ℤ sum_where (λ x. x.event_id == 10) (λ x. x.amount) spent_tables.refunds;
    })
    × (find_balance 10 balanced_tables ≡ some balance)
    × ((e : ℕ) → (10 == e) ≡ false → find_balance e balanced_tables ≡ find_balance e spent_tables)
    × ((o : ℤ) (e : ℕ) → closing_balance o e balanced_tables ≡ closing_balance o e spent_tables)
calculate_event_balance-stores_example =
    calculate_event_balance-stores balance_input (session_of spent_tables)
      calculate_event_balance_run
