-- ===== src/Ledger/Service.antt =====
-- app/modules/ledger/ledger_service.py
use Prim.Native.String
use society_agent.Prelude.{ℕ, String, Bool, Option, none, some, save, get_or, ◌==◌, if◌then◌else◌}
use society_agent.Prelude.Int.{ℤ, 0ℤ, ◌+ℤ◌, ◌-ℤ◌}
use society_agent.Prelude.Sums.{sum_where}
use society_agent.Db.{Event, SocietyBalance, Tables, AuditLog}
use society_agent.Db.Errors.{invalid_event}
use society_agent.Db.Session.{Exec, query, require, finish, ◌>>=◌}
use society_agent.Db.Query.{find_event, add_audit}
use society_agent.Workflow.Permit.{is_truthy}

-- The keyword arguments of `calculate_event_balance`.
pub record BalanceInput : Type 0 where
  pub event_id : ℕ
  pub opening_balance : ℤ
  pub performed_by : Option ℕ
  pub override_reason : Option String

unfoldable pub flat_payments : ℕ → Tables → ℤ
flat_payments e t = sum_where (λ row. row.event_id == e) (λ row. row.paid_amount) t.payments

-- SQL's sum leaves out the rows in which the amount is NULL.
abbrev pub amount_or_zero : Option ℤ → ℤ
amount_or_zero none = 0ℤ
amount_or_zero (some x) = x

unfoldable pub contributions : ℕ → Tables → ℤ
contributions e t =
    sum_where (λ row. row.event_id == e) (λ row. amount_or_zero row.amount) t.contributions

unfoldable pub expenses : ℕ → Tables → ℤ
expenses e t = sum_where (λ row. row.event_id == e) (λ row. row.amount) t.expenses

unfoldable pub refunds : ℕ → Tables → ℤ
refunds e t = sum_where (λ row. row.event_id == e) (λ row. row.amount) t.refunds

unfoldable pub closing_balance : ℤ → ℕ → Tables → ℤ
closing_balance opening e t =
    opening +ℤ flat_payments e t +ℤ contributions e t -ℤ expenses e t -ℤ refunds e t

abbrev pub balance_row : BalanceInput → ℤ → SocietyBalance
balance_row i closing = record {
  event_id = i.event_id;
  opening_balance = i.opening_balance;
  closing_balance = closing;
}

abbrev balance_audit : Event → BalanceInput → AuditLog
balance_audit event i = record {
  society_id = event.society_id;
  entity_type = "ledger";
  entity_id = i.event_id;
  action = "CALCULATE_BALANCE";
  reason =
      if is_truthy i.override_reason
      then String.◌++◌ "OVERRIDE: " (get_or i.override_reason "")
      else "Normal ledger calculation";
  performed_by = i.performed_by;
  source = none;
  performed_at = none;
}

abbrev pub is_balance_of : ℕ → SocietyBalance → Bool
is_balance_of e row = row.event_id == e

abbrev pub write_balance : Event → BalanceInput → SocietyBalance → Tables → Tables
write_balance event i row t =
    add_audit (balance_audit event i)
      (record t { balances = save (is_balance_of i.event_id) row t.balances })

-- `LedgerService.calculate_event_balance`
unfoldable pub calculate_event_balance : BalanceInput → Exec SocietyBalance
calculate_event_balance i = do
  event ← require (← query (find_event i.event_id)) invalid_event
  closing ← query (closing_balance i.opening_balance i.event_id)
  finish (write_balance event i (balance_row i closing)) (balance_row i closing)
