-- ===== src/Contributions/Effects.antt =====
-- What a contribution and its refund leave in the tables.
use society_agent.Prelude.{
  ◌==◌, ==_refl, ◌&&◌, if◌then◌else◌, ◌≡◌, true, some, Bool, false, [], ◌∷◌, ◌++◌, arith,
}
use society_agent.Prelude.{ℕ}
use society_agent.Prelude.Int.{ℤ, 0ℤ, +ℤ-zero, ◌+ℤ◌, ◌≤ℤ◌, leb_ℤ}
use society_agent.Prelude.Sums.{sum_where-add}
use society_agent.Db.{Event, EventContribution, ContributionRefund, Tables}
use society_agent.Db.Errors.{ok, invalid_event, invalid_sponsor, in_kind_contribution}
use society_agent.Db.Session.{Session}
use society_agent.Db.Query.{find_event}
use society_agent.Db.Atomic.{Atomic, atomic_rules}
use society_agent.Db.Steps.{
  bind_elim, require_elim, guard_elim, flush_elim, query-ok, modify-ok, finish-ok,
}
use society_agent.Workflow.Permit.{permit-Quiet, log_override-Quiet, permit-ok, log_override-ok}
use society_agent.Contributions.Service.{
  ContributionInput, next_code, new_contribution, write_contribution, add_contribution,
}
use society_agent.Contributions.Refund.{
  ContributionRefundInput, find_contribution, money_of, repaid_total, new_repayment,
  write_repayment, is_repayment_of, process_contribution_refund,
}

write_contribution-Atomic :
    (event : Event) (i : ContributionInput) (b : Bool) → Atomic (write_contribution event i b)
unfolding write_contribution
write_contribution-Atomic event i b = search (atomic_rules, log_override-Quiet) depth 14

-- A contribution that is refused leaves every committed table as it was.
pub add_contribution-Atomic : (i : ContributionInput) → Atomic (add_contribution i)
unfolding add_contribution
add_contribution-Atomic i = search (atomic_rules, permit-Quiet, write_contribution-Atomic) depth 14

write_repayment-Atomic :
    (event : Event) (c : EventContribution) (i : ContributionRefundInput) (b : Bool)
    → Atomic (write_repayment event c i b)
unfolding write_repayment
write_repayment-Atomic event c i b = search (atomic_rules, log_override-Quiet) depth 14

-- A refund of a contribution that is refused leaves every committed table as it was.
pub process_contribution_refund-Atomic :
    (i : ContributionRefundInput) → Atomic (process_contribution_refund i)
unfolding process_contribution_refund
process_contribution_refund-Atomic i =
    search (atomic_rules, permit-Quiet, write_repayment-Atomic) depth 14

-- The tables after a contribution.
pub record Contributed (i : ContributionInput) (t : Tables) (code : ℕ) (t' : Tables) : Type 0 where
  pub code_of : code ≡ next_code i.event_id t
  pub written : t' ≡ record t {
    contributions = t.contributions ++ new_contribution i code ∷ [];
    audit_logs = t'.audit_logs;
  }

write_contribution-ok :
    (event : Event) (i : ContributionInput) (b : Bool) (s : Session) {code : ℕ} {s' : Session}
    → write_contribution event i b s ≡ (ok code, s')
    → Contributed i s.current code s'.durable
unfolding write_contribution
write_contribution-ok event i b s h =
    flush_elim _ _ (modify-ok _ _ s (query-ok _ _ s h)) λ t1 seen stored h1.
      bind_elim _ _ t1 h1 λ u t2 logged h2.
        let (_, audits, _) = log_override-ok _ _ _ _ _ _ _ t1 logged in
        let (kept, _, written) = finish-ok _ _ t2 h2 in
        record { code_of = kept; written = ground (arith, written, audits, seen, kept) }

pub add_contribution-ok :
    (i : ContributionInput) (s : Session) {code : ℕ} {s' : Session}
    → add_contribution i s ≡ (ok code, s')
    → Contributed i s.current code s'.durable
unfolding add_contribution
add_contribution-ok i s {code} {s'} h =
    require_elim (find_event i.event_id s.current) invalid_event _ s (query-ok _ _ s h)
      λ event found h1. bind_elim _ _ s h1 λ over t permitted h2.
        let (same, _, _) = permit-ok _ _ _ _ s permitted in
        rw same at (write_contribution-ok event i over t h2)

-- The tables after a refund of a contribution.
pub record Repaid (i : ContributionRefundInput) (t : Tables) (row : ContributionRefund)
    (t' : Tables) : Type 0 where
  pub contribution : EventContribution
  pub amount : ℤ
  pub found : find_contribution i.event_id i.contribution_code t ≡ some contribution
  pub in_money : money_of contribution ≡ some amount
  pub covered : leb_ℤ (repaid_total contribution.id t +ℤ i.amount) amount ≡ true
  pub row_of : row ≡ new_repayment i contribution
  pub written : t' ≡ record t {
    contribution_refunds = t.contribution_refunds ++ row ∷ [];
    audit_logs = t'.audit_logs;
  }

write_repayment-ok :
    (event : Event) (c : EventContribution) (i : ContributionRefundInput) (b : Bool) (s : Session)
    {row : ContributionRefund} {s' : Session}
    → write_repayment event c i b s ≡ (ok row, s')
    → (row ≡ new_repayment i c)
      × (s'.durable ≡ record s.current {
        contribution_refunds = s.current.contribution_refunds ++ row ∷ [];
        audit_logs = s'.durable.audit_logs;
      })
unfolding write_repayment
write_repayment-ok event c i b s h = flush_elim _ _ (modify-ok _ _ s h) λ t1 seen stored h1.
    bind_elim _ _ t1 h1 λ u t2 logged h2.
      let (_, audits, _) = log_override-ok _ _ _ _ _ _ _ t1 logged in
      let (kept, _, written) = finish-ok _ _ t2 h2 in
      (kept, ground (arith, written, audits, seen, kept))

pub process_contribution_refund-ok :
    (i : ContributionRefundInput) (s : Session) {row : ContributionRefund} {s' : Session}
    → process_contribution_refund i s ≡ (ok row, s')
    → Repaid i s.current row s'.durable
unfolding process_contribution_refund
process_contribution_refund-ok i s {row} {s'} h =
    require_elim (find_event i.event_id s.current) invalid_event _ s (query-ok _ _ s h)
      λ event found h1.
        require_elim (find_contribution i.event_id i.contribution_code s.current) invalid_sponsor _
          s (query-ok _ _ s h1)
          λ c contributed h2.
            require_elim (money_of c) in_kind_contribution _ s h2 λ amount in_money h3.
              guard_elim _ _ _ s (query-ok _ _ s h3) λ covered h4.
                bind_elim _ _ s h4 λ over t permitted h5.
                  let (same, _, _) = permit-ok _ _ _ _ s permitted in
                  let (row_of, written) = write_repayment-ok event c i over t h5 in
                  record {
                    contribution = c;
                    amount = amount;
                    found = contributed;
                    in_money = in_money;
                    covered = covered;
                    row_of = row_of;
                    written = rw same at written;
                  }

Repaid-moved :
    {i : ContributionRefundInput} {t : Tables} {row : ContributionRefund} {t' : Tables}
    (r : Repaid i t row t') (id : ℕ)
    → repaid_total id t'
      ≡ repaid_total id t +ℤ (if r.contribution.id == id && true then i.amount else 0ℤ)
unfolding repaid_total
Repaid-moved {i} {t} r id =
    rw (r.written, r.row_of)
      (sum_where-add (is_repayment_of id) (λ x. x.amount) t.contribution_refunds
        (new_repayment i r.contribution))

-- A refund of a contribution raises what the contributor has got back by its amount, within what was
-- given in money, and what no other contributor has got back.
pub process_contribution_refund-repays :
    (i : ContributionRefundInput) (s : Session) {row : ContributionRefund} {s' : Session}
    → process_contribution_refund i s ≡ (ok row, s')
    → (c : EventContribution) × (amount : ℤ) × (find_contribution i.event_id i.contribution_code
          s.current
        ≡ some c)
      × (money_of c ≡ some amount)
      × (repaid_total c.id s'.durable ≡ repaid_total c.id s.current +ℤ i.amount)
      × (repaid_total c.id s'.durable ≤ℤ amount)
      × ((id : ℕ) → (c.id == id) ≡ false → repaid_total id s'.durable ≡ repaid_total id s.current)
process_contribution_refund-repays i s {row} {s'} h =
    let r : Repaid i s.current row s'.durable = process_contribution_refund-ok i s h in
    let raised : repaid_total r.contribution.id s'.durable
        ≡ repaid_total r.contribution.id s.current +ℤ i.amount =
      rw (==_refl r.contribution.id) at (Repaid-moved r r.contribution.id) in
    (
      r.contribution,
      r.amount,
      r.found,
      r.in_money,
      raised,
      rw raised (ground (arith, r.covered)),
      λ id ne. rw (Repaid-moved r id) (rw ne (+ℤ-zero _)),
    )
