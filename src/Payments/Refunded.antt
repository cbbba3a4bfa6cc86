-- ===== src/Payments/Refunded.antt =====
-- What `process_refund` does, whatever the database answers, and how its retries end.
use society_agent.Prelude.{◌≡◌, true, some, [], ◌∷◌, ◌++◌, save, arith}
use society_agent.Prelude.Int.{◌+ℤ◌, leb_ℤ}
use society_agent.Db.{Event, Payment, PaymentStatus, Refund, Tables}
use society_agent.Db.Errors.{ok}
use society_agent.Db.Session.{Session}
use society_agent.Db.Steps.{
  bind_elim, require_elim, query-ok, modify-ok, guard_elim, flush_elim, finish-ok,
}
use society_agent.Db.Atomic.{Atomic, atomic_rules}
use society_agent.Db.Query.{find_payment, is_payment_of}
use society_agent.Workflow.Permit.{ensure_permitted-Quiet, ensure_permitted-ok}
use society_agent.Payments.Record.{Identifiers}
use society_agent.Payments.Recorded.{authorize-ok, authorize-Quiet}
use society_agent.Payments.Refund.{
  RefundInput, refunded_total, new_refund, write_refund, refund_once,
}

-- A refund that was written: from the tables `t` to the committed tables `t'`.
pub record Refunded (ids : Identifiers) (i : RefundInput) (t : Tables) (refund : Refund)
    (t' : Tables) : Type 0 where
  pub payment : Payment
  pub paid_before : find_payment ids.event_id ids.flat_id t ≡ some payment
  pub covered :
      leb_ℤ (i.amount +ℤ refunded_total ids.event_id ids.flat_id t) payment.paid_amount ≡ true
  pub returned : refund ≡ new_refund ids i
  pub written : t' ≡ record t {
    refunds = t.refunds ++ new_refund ids i ∷ [];
    payments =
        save
          (is_payment_of ids.event_id ids.flat_id)
          (record payment { status = PaymentStatus.refunded })
          t.payments;
    audit_logs = t'.audit_logs;
  }

write_refund-ok :
    (event : Event) (ids : Identifiers) (i : RefundInput) (s : Session) {refund : Refund}
    {s' : Session}
    → write_refund event ids i s ≡ (ok refund, s')
    → Refunded ids i s.current refund s'.durable
unfolding write_refund
write_refund-ok event ids i s h = require_elim _ _ _ s (query-ok _ _ s h) λ payment found h1.
    guard_elim _ _ _ s h1 λ some_paid h2. guard_elim _ _ _ s (query-ok _ _ s h2) λ covered h3.
      flush_elim _ _ (modify-ok _ _ s h3) λ t seen kept h4.
        guard_elim _ _ _ t (query-ok _ _ t h4) λ covered_after h5.
          let (returned, current, durable) = finish-ok _ _ t h5 in
          record {
            payment = payment;
            paid_before = found;
            covered = covered;
            returned = returned;
            written = ground arith;
          }

-- Rows that were only added to the audit log before do not matter.
Refunded-before :
    (ids : Identifiers) (i : RefundInput) {t u : Tables} {refund : Refund} {t' : Tables}
    → u ≡ record t { audit_logs = u.audit_logs }
    → Refunded ids i u refund t'
    → Refunded ids i t refund t'
unfolding find_payment refunded_total
Refunded-before ids i e r = record {
  payment = r.payment;
  paid_before = rw e at (r.paid_before);
  covered = rw e at (r.covered);
  returned = r.returned;
  written = rw e at (r.written);
}

pub refund_once-ok :
    (ids : Identifiers) (i : RefundInput) (s : Session) {refund : Refund} {s' : Session}
    → refund_once ids i s ≡ (ok refund, s')
    → Refunded ids i s.current refund s'.durable
unfolding refund_once
refund_once-ok ids i s h = bind_elim _ _ s h λ event t authorized h1.
    bind_elim _ _ t h1 λ u t1 logged h2.
      let (flat, same, _, _, _, _) = authorize-ok _ _ _ _ s authorized in
      let (audits, _) = ensure_permitted-ok _ _ _ _ _ _ _ t logged in
      Refunded-before ids i (ground arith) (write_refund-ok event ids i t1 h2)

write_refund-Atomic :
    (event : Event) (ids : Identifiers) (i : RefundInput) → Atomic (write_refund event ids i)
unfolding write_refund
write_refund-Atomic event ids i = search atomic_rules depth 20

pub refund_once-Atomic : (ids : Identifiers) (i : RefundInput) → Atomic (refund_once ids i)
unfolding refund_once
refund_once-Atomic ids i =
    search (atomic_rules, authorize-Quiet, ensure_permitted-Quiet, write_refund-Atomic) depth 14
