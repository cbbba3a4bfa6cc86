-- ===== src/Expenses/Effects.antt =====
-- What an expense that is recorded leaves in the tables.
use society_agent.Prelude.{◌≡◌, false, not, [], ◌∷◌, ◌++◌, arith}
use society_agent.Prelude.Int.{0ℤ, leb_ℤ}
use society_agent.Db.{EventExpense, Tables}
use society_agent.Db.Errors.{ok, invalid_event}
use society_agent.Db.Session.{Session}
use society_agent.Db.Query.{find_event}
use society_agent.Db.Atomic.{Atomic, atomic_rules}
use society_agent.Db.Steps.{bind_elim, require_elim, guard_elim, query-ok, finish-ok}
use society_agent.Workflow.Engine.{check_action}
use society_agent.Workflow.Rules.{Action}
use society_agent.Workflow.Permit.{permit-Quiet, log_override-Quiet, permit-ok, log_override-ok}
use society_agent.Expenses.Service.{ExpenseInput, add_expense, new_expense}

-- An expense that is refused leaves every committed table as it was.
pub add_expense-Atomic : (i : ExpenseInput) → Atomic (add_expense i)
unfolding add_expense
add_expense-Atomic i = search (atomic_rules, permit-Quiet, log_override-Quiet) depth 14

-- The tables after an expense.
pub record Spent (i : ExpenseInput) (t : Tables) (row : EventExpense) (t' : Tables) : Type 0 where
  pub positive : leb_ℤ i.amount 0ℤ ≡ false
  pub row_of :
      row
      ≡ new_expense i (
          not
            (check_action t i.event_id Action.add_expense i.performed_by i.override_reason).allowed)
  pub written : t' ≡ record t { expenses = t.expenses ++ row ∷ []; audit_logs = t'.audit_logs }

pub add_expense-ok :
    (i : ExpenseInput) (s : Session) {row : EventExpense} {s' : Session}
    → add_expense i s ≡ (ok row, s')
    → Spent i s.current row s'.durable
unfolding add_expense
add_expense-ok i s h = guard_elim _ _ _ s h λ positive h1.
    require_elim (find_event i.event_id s.current) invalid_event _ s (query-ok _ _ s h1)
      λ event found h2. bind_elim _ _ s h2 λ over t1 permitted h3.
        bind_elim _ _ t1 h3 λ u t2 logged h4.
          let (same, flag, _) = permit-ok _ _ _ _ s permitted in
          let (_, audits, _) = log_override-ok _ _ _ _ _ _ _ t1 logged in
          let (kept, _, stored) = finish-ok _ _ t2 h4 in
          record {
            positive = ground arith;
            row_of = ground (arith, kept, flag);
            written = ground (arith, stored, audits, same, kept);
          }
