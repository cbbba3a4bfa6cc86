-- ===== src/Ledger/Effects.antt =====
-- What the ledger stores.
use society_agent.Prelude.{
  ℕ, Option, ◌≡◌, refl, some, find_first, find_first-save_self, find_first-save_ne, arith, true,
  false, ◌==◌, save,
}
use society_agent.Prelude.Int.{ℤ, ◌+ℤ◌, ◌-ℤ◌}
use society_agent.Prelude.Sums.{sum_where}
use society_agent.Db.{SocietyBalance, Tables}
use society_agent.Db.Errors.{ok, invalid_event}
use society_agent.Db.Session.{Session}
use society_agent.Db.Query.{find_event}
use society_agent.Db.Atomic.{Atomic, atomic_rules}
use society_agent.Db.Steps.{require_elim, query-ok, finish-ok}
use society_agent.Ledger.Service.{
  BalanceInput, calculate_event_balance, closing_balance, balance_row, is_balance_of,
  amount_or_zero, flat_payments, contributions, expenses, refunds,
}

-- A calculation that fails leaves every committed table as it was.
pub calculate_event_balance-Atomic : (i : BalanceInput) → Atomic (calculate_event_balance i)
unfolding calculate_event_balance
calculate_event_balance-Atomic i = search atomic_rules depth 14

-- The tables after a calculation.
pub record Balanced (i : BalanceInput) (t : Tables) (row : SocietyBalance) (t' : Tables)
    : Type 0 where
  pub row_of : row ≡ balance_row i (closing_balance i.opening_balance i.event_id t)
  pub written : t' ≡ record t {
    balances = save (is_balance_of i.event_id) row t.balances;
    audit_logs = t'.audit_logs;
  }

pub calculate_event_balance-ok :
    (i : BalanceInput) (s : Session) {row : SocietyBalance} {s' : Session}
    → calculate_event_balance i s ≡ (ok row, s')
    → Balanced i s.current row s'.durable
unfolding calculate_event_balance
calculate_event_balance-ok i s h =
    require_elim (find_event i.event_id s.current) invalid_event _ s (query-ok _ _ s h)
      λ event found h1.
        let (kept, _, stored) = finish-ok _ _ s (query-ok _ _ s h1) in
        record { row_of = kept; written = ground (arith, stored, kept) }

unfoldable pub find_balance : ℕ → Tables → Option SocietyBalance
find_balance e t = find_first (is_balance_of e) t.balances

is_balance_of-ne :
    (e e' : ℕ) (row : SocietyBalance)
    → (e == e') ≡ false
    → is_balance_of e row ≡ true
    → is_balance_of e' row ≡ false
is_balance_of-ne e e' row h k = ground arith

-- A calculation that returns has stored, as the event's balance, the opening balance that it was given
-- and the closing balance: that plus what flats and contributors have paid, less expenses and refunds;
-- and keeps the balance of every other event. A calculation with the same opening balance would store the same again: nothing that the
-- closing balance depends on has changed.
pub calculate_event_balance-stores :
    (i : BalanceInput) (s : Session) {row : SocietyBalance} {s' : Session}
    → calculate_event_balance i s ≡ (ok row, s')
    → (row ≡ record {
      event_id = i.event_id;
      opening_balance = i.opening_balance;
      closing_balance =
          i.opening_balance
          +ℤ sum_where (λ x. x.event_id == i.event_id) (λ x. x.paid_amount) s.current.payments
          +ℤ sum_where
              (λ x. x.event_id == i.event_id)
              (λ x. amount_or_zero x.amount)
              s.current.contributions
          -ℤ sum_where (λ x. x.event_id == i.event_id) (λ x. x.amount) s.current.expenses
          -ℤ sum_where (λ x. x.event_id == i.event_id) (λ x. x.amount) s.current.refunds;
    })
      × (find_balance i.event_id s'.durable ≡ some row)
      × ((e : ℕ) → (i.event_id == e) ≡ false → find_balance e s'.durable ≡ find_balance e s.current)
      × ((o : ℤ) (e : ℕ) → closing_balance o e s'.durable ≡ closing_balance o e s.current)
unfolding find_balance closing_balance flat_payments contributions expenses refunds
calculate_event_balance-stores i s {row} {s'} h =
    let r : Balanced i s.current row s'.durable = calculate_event_balance-ok i s h in
    let key : is_balance_of i.event_id row ≡ true = ground (arith, r.row_of) in
    (
      r.row_of,
      rw r.written (find_first-save_self (is_balance_of i.event_id) row s.current.balances key),
      λ e ne. rw r.written (
          find_first-save_ne (is_balance_of i.event_id) (is_balance_of e) row s.current.balances
            (is_balance_of-ne i.event_id e row ne key) (λ x. is_balance_of-ne i.event_id e x ne)),
      λ o e. rw r.written refl,
    )
