-- ===== src/Expenses/Service.antt =====
-- app/modules/expenses/expense_service.py
use Prim.Native.String
use society_agent.Prelude.{ℕ, String, Bool, not, Option, none, [], ◌∷◌, ◌++◌, get_or, if◌then◌else◌}
use society_agent.Prelude.Int.{ℤ, 0ℤ, leb_ℤ}
use society_agent.Db.{Event, EventExpense, Tables, AuditLog}
use society_agent.Db.Errors.{amount_not_positive, invalid_event}
use society_agent.Db.Session.{Exec, query, guard, require, finish, ◌>>=◌, ◌>>◌}
use society_agent.Db.Query.{find_event, add_audit}
use society_agent.Workflow.Rules.{Action}
use society_agent.Workflow.Permit.{permit, log_override}

-- The keyword arguments of `add_expense`.
pub record ExpenseInput : Type 0 where
  pub event_id : ℕ
  pub description : String
  pub amount : ℤ
  pub performed_by : Option ℕ
  pub override_reason : Option String

abbrev pub new_expense : ExpenseInput → Bool → EventExpense
new_expense i is_override = record {
  event_id = i.event_id;
  description = i.description;
  amount = i.amount;
  is_override = is_override;
  override_reason = if is_override then i.override_reason else none;
}

abbrev expense_audit : Event → ExpenseInput → Bool → AuditLog
expense_audit event i is_override = record {
  society_id = event.society_id;
  entity_type = "expense";
  entity_id = i.event_id;
  action = "ADD_EXPENSE";
  reason =
      if is_override then String.◌++◌ "OVERRIDE: " (get_or i.override_reason "") else i.description;
  performed_by = i.performed_by;
  source = none;
  performed_at = none;
}

abbrev pub write_expense : Event → ExpenseInput → Bool → Tables → Tables
write_expense event i is_override t =
    add_audit (expense_audit event i is_override)
      (record t { expenses = t.expenses ++ new_expense i is_override ∷ [] })

-- `ExpenseService.add_expense`
unfoldable pub add_expense : ExpenseInput → Exec EventExpense
add_expense i = do
  guard (not (leb_ℤ i.amount 0ℤ)) amount_not_positive
  event ← require (← query (find_event i.event_id)) invalid_event
  is_override ← permit i.event_id Action.add_expense i.performed_by i.override_reason
  log_override is_override event.society_id "expense" i.event_id "ADD_EXPENSE" i.override_reason
      i.performed_by
  finish (write_expense event i is_override) (new_expense i is_override)
