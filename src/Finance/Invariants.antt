-- ===== src/Finance/Invariants.antt =====
-- What every history of the money services keeps true.
use society_agent.Prelude.{ℕ, ◌≡◌, refl, arith}
use society_agent.Db.{EventFoodPass, Payment, Tables}
use society_agent.Db.Ran.{Ran-keeps}
use society_agent.Payments.Record.{record_payment}
use society_agent.Payments.Recorded.{record_payment-ok, record_payment-Atomic}
use society_agent.Payments.Refund.{process_refund}
use society_agent.Payments.Retries.{process_refund-ok, process_refund-Atomic}
use society_agent.Payments.Invariant.{
  IsSolvent, Recorded-IsSolvent, Processed-IsSolvent, same_money-IsSolvent,
}
use society_agent.Payments.Effects.{paid_of}
use society_agent.Passes.Service.{total_amount, add_or_update_pass, mark_not_participating}
use society_agent.Passes.Written.{add_or_update_pass-Atomic, mark_not_participating-Atomic}
use society_agent.Passes.Effects.{
  Replaced, add_or_update_pass-Replaced, mark_not_participating-Replaced,
}
use society_agent.Expenses.Service.{add_expense}
use society_agent.Expenses.Effects.{add_expense-ok, add_expense-Atomic}
use society_agent.Contributions.Service.{add_contribution}
use society_agent.Contributions.Refund.{process_contribution_refund}
use society_agent.Contributions.Effects.{
  add_contribution-ok, add_contribution-Atomic, process_contribution_refund-ok,
  process_contribution_refund-Atomic,
}
use society_agent.Contributions.Codes.{
  IsNumbered, same_contributions-IsNumbered, Contributed-IsNumbered,
}
use society_agent.Ledger.Service.{calculate_event_balance}
use society_agent.Ledger.Effects.{calculate_event_balance-ok, calculate_event_balance-Atomic}
use society_agent.Finance.Billing.{
  IsBilled, Recorded-IsBilled, Processed-IsBilled, Replaced-IsBilled, Replaced-IsSolvent,
  same_rows-IsBilled, expect-paid, expect-expected, released-paid, released-expected,
}
use society_agent.Finance.History.{
  Step, Reach, here, next, pays, refunds, books, opts_out, spends, contributes, repays, calculates,
}

-- No flat has been refunded more than it has paid, every flat that takes part is asked for the amount
-- of its food pass, and the contributions of each event are numbered from 1.
pub record IsSound (t : Tables) : Type 0 where
  pub solvent : IsSolvent t
  pub billed : IsBilled t
  pub numbered : IsNumbered t

-- A change elsewhere: in the expenses, the contributions' refunds, the balances or the audit log.
elsewhere-IsSound :
    (t t' : Tables)
    → t' ≡ record t {
      expenses = t'.expenses;
      contribution_refunds = t'.contribution_refunds;
      balances = t'.balances;
      audit_logs = t'.audit_logs;
    }
    → IsSound t
    → IsSound t'
elsewhere-IsSound t t' w h = record {
  solvent = same_money-IsSolvent t t' (rw w refl) (rw w refl) h.solvent;
  billed = same_rows-IsBilled t t' (rw w refl) (rw w refl) h.billed;
  numbered = same_contributions-IsNumbered t t' (rw w refl) h.numbered;
}

-- Payments, refunds and passes leave the contributions alone.
numbered_still :
    {t t' : Tables}
    → t'.contributions ≡ t.contributions
    → IsSolvent t'
    → IsBilled t'
    → IsSound t
    → IsSound t'
numbered_still {t} {t'} c solvent billed h = record {
  solvent = solvent;
  billed = billed;
  numbered = same_contributions-IsNumbered t t' c h.numbered;
}

Replaced-IsSound :
    (e f : ℕ) (pass : EventFoodPass) (pay : Payment) (t t' : Tables)
    → Replaced e f pass pay t t'
    → pay.paid_amount ≡ paid_of e f t
    → pay.expected_amount ≡ pass.total_amount
    → t'.contributions ≡ t.contributions
    → IsSound t
    → IsSound t'
Replaced-IsSound e f pass pay t t' r paid asked c h =
    numbered_still c (Replaced-IsSolvent e f pass pay t t' r paid h.solvent)
      (Replaced-IsBilled e f pass pay t t' r asked h.billed) h

Step-IsSound : {t t' : Tables} → Step t t' → IsSound t → IsSound t'
Step-IsSound (pays i run) =
    Ran-keeps IsSound (record_payment i) (record_payment-Atomic i)
      (λ s a s' clean ran h.
        let r = record_payment-ok i s ran in
        let now : IsSound s.current = rw clean h in
        numbered_still (rw (r.committed, r.written) refl) (Recorded-IsSolvent r now.solvent)
          (Recorded-IsBilled r now.billed) now)
      run
Step-IsSound (refunds i run) =
    Ran-keeps IsSound (process_refund i) (process_refund-Atomic i)
      (λ s a s' clean ran h.
        let r = process_refund-ok i s clean ran in
        numbered_still (rw r.refunded.written refl) (Processed-IsSolvent r h.solvent)
          (Processed-IsBilled r h.billed) h)
      run
Step-IsSound (books i run) =
    Ran-keeps IsSound (add_or_update_pass i) (add_or_update_pass-Atomic i)
      (λ s a s' clean ran h.
        let (_, row, r) = add_or_update_pass-Replaced i s ran in
        let asked = expect-expected i.event_id i.flat_id (total_amount i) _ in
        Replaced-IsSound _ _ a _ s.current s'.durable r (expect-paid _ _ _ s.current) (rw row asked)
          r.contributions_kept (rw clean h))
      run
Step-IsSound (opts_out i run) =
    Ran-keeps IsSound (mark_not_participating i) (mark_not_participating-Atomic i)
      (λ s a s' clean ran h.
        let (row, r) = mark_not_participating-Replaced i s ran in
        let asked = released-expected i.event_id i.flat_id _ in
        Replaced-IsSound _ _ a _ s.current s'.durable r (released-paid _ _ s.current) (rw row asked)
          r.contributions_kept (rw clean h))
      run
Step-IsSound (spends i run) =
    Ran-keeps IsSound (add_expense i) (add_expense-Atomic i)
      (λ s a s' clean ran h.
        elsewhere-IsSound s.current s'.durable (ground (arith, (add_expense-ok i s ran).written))
          (rw clean h))
      run
Step-IsSound (contributes i run) =
    Ran-keeps IsSound (add_contribution i) (add_contribution-Atomic i)
      (λ s a s' clean ran h.
        let r = add_contribution-ok i s ran in
        let now : IsSound s.current = rw clean h in
        record {
          solvent =
              same_money-IsSolvent s.current s'.durable (rw r.written refl) (rw r.written refl)
                now.solvent;
          billed =
              same_rows-IsBilled s.current s'.durable (rw r.written refl) (rw r.written refl)
                now.billed;
          numbered = Contributed-IsNumbered i s.current a s'.durable r now.numbered;
        })
      run
Step-IsSound (repays i run) =
    Ran-keeps IsSound (process_contribution_refund i) (process_contribution_refund-Atomic i)
      (λ s a s' clean ran h.
        elsewhere-IsSound s.current s'.durable
          (ground (arith, (process_contribution_refund-ok i s ran).written)) (rw clean h))
      run
Step-IsSound (calculates i run) =
    Ran-keeps IsSound (calculate_event_balance i) (calculate_event_balance-Atomic i)
      (λ s a s' clean ran h.
        elsewhere-IsSound s.current s'.durable
          (ground (arith, (calculate_event_balance-ok i s ran).written)) (rw clean h))
      run

-- However the services that move money are called, one after another, whether each call returns or
-- raises and whatever the database answers to its commits: from tables in which no flat has been
-- refunded more than it has paid, every flat that takes part is asked for the amount of its food
-- pass, and the contributions of each event are numbered from 1, only such tables are reached.
pub Reach-IsSound : {t t' : Tables} → Reach t t' → IsSound t → IsSound t'
Reach-IsSound here h = h
Reach-IsSound (next r st) h = Step-IsSound st (Reach-IsSound r h)
