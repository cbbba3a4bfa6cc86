-- ===== src/Payments/Solvency.antt =====
-- No flat is refunded more than it has paid: what a refund changes, flat by flat, and the invariant
-- that payments and refunds keep together.
use mathlib.Core.Path.{subst₂}
use society_agent.Prelude.{
  ℕ, ◌≡◌, true, false, ◌&&◌, some, arith, find_first-save_self, find_first-save_ne,
  find_first_sound, ◌==◌,
}
use society_agent.Prelude.Int.{ℤ, ◌+ℤ◌, ◌≤ℤ◌, +ℤ-zero, +ℤ_comm}
use society_agent.Prelude.Sums.{sum_where-add}
use society_agent.Validation.{uuid}
use society_agent.Db.{Payment, PaymentStatus, Refund, Tables}
use society_agent.Db.Errors.{ok}
use society_agent.Db.Session.{Session}
use society_agent.Db.Ran.{IsClean}
use society_agent.Db.Query.{find_payment, is_payment_of}
use society_agent.Payments.Record.{Identifiers}
use society_agent.Payments.Effects.{paid_of, is_payment_of-ne}
use society_agent.Payments.Refund.{
  RefundInput, refunded_total, is_refund_of, new_refund, process_refund,
}
use society_agent.Payments.Refunded.{Refunded}
use society_agent.Payments.Retries.{Processed, process_refund-ok}

-- What a refund of `amount` to a flat leaves behind.
pub record Debited (e f : ℕ) (amount : ℤ) (t t' : Tables) : Type 0 where
  pub raised : refunded_total e f t' ≡ refunded_total e f t +ℤ amount
  pub covered : refunded_total e f t' ≤ℤ paid_of e f t'
  pub payment : Payment
  pub row : find_payment e f t ≡ some payment
  pub marked : find_payment e f t' ≡ some (record payment { status = PaymentStatus.refunded })
  pub others :
      (e' f' : ℕ)
      → (e == e' && f == f') ≡ false
      → (find_payment e' f' t' ≡ find_payment e' f' t)
        × (refunded_total e' f' t' ≡ refunded_total e' f' t)

module _ {ids : Identifiers} {i : RefundInput} {t : Tables} {refund : Refund} {t' : Tables}
    (r : Refunded ids i t refund t') where
  row_key : is_payment_of ids.event_id ids.flat_id r.payment ≡ true
  unfolding find_payment
  row_key = find_first_sound (is_payment_of ids.event_id ids.flat_id) t.payments r.paid_before

  refund_raised :
      refunded_total ids.event_id ids.flat_id t'
      ≡ refunded_total ids.event_id ids.flat_id t +ℤ i.amount
  unfolding refunded_total
  refund_raised = rw r.written (
      rw
        (sum_where-add (is_refund_of ids.event_id ids.flat_id) (λ row. row.amount) t.refunds
          (new_refund ids i))
        (ground arith))

  refund_other :
      (e f : ℕ)
      → (ids.event_id == e && ids.flat_id == f) ≡ false
      → refunded_total e f t' ≡ refunded_total e f t
  unfolding refunded_total
  refund_other e f ne =
      let not_of : is_refund_of e f (new_refund ids i) ≡ false = ground arith in
      rw r.written (
        rw (sum_where-add (is_refund_of e f) (λ row. row.amount) t.refunds (new_refund ids i))
          (rw not_of (+ℤ-zero _)))

  marked_row :
      find_payment ids.event_id ids.flat_id t'
      ≡ some (record r.payment { status = PaymentStatus.refunded })
  unfolding find_payment
  marked_row =
      rw r.written
        (find_first-save_self (is_payment_of ids.event_id ids.flat_id) _ t.payments row_key)

  payment_other :
      (e f : ℕ)
      → (ids.event_id == e && ids.flat_id == f) ≡ false
      → find_payment e f t' ≡ find_payment e f t
  unfolding find_payment
  payment_other e f ne = rw r.written (
      find_first-save_ne (is_payment_of ids.event_id ids.flat_id) (is_payment_of e f) _ t.payments
        (is_payment_of-ne ids.event_id ids.flat_id e f r.payment ne row_key)
        (λ p. is_payment_of-ne ids.event_id ids.flat_id e f p ne))

  pub refund_Debited : Debited ids.event_id ids.flat_id i.amount t t'
  unfolding paid_of
  refund_Debited = record {
    raised = refund_raised;
    covered = rw (refund_raised, marked_row) (rw (+ℤ_comm _ i.amount) (ground (arith, r.covered)));
    payment = r.payment;
    row = r.paid_before;
    marked = marked_row;
    others = λ e f ne. (payment_other e f ne, refund_other e f ne);
  }

-- A refund that goes through, after any number of retries, raises what the flat has been refunded by
-- its amount and no further, leaves the total within what the flat has paid, marks the payment
-- refunded, and changes the payment and the refunds of no other event or flat. It starts in a
-- session with no uncommitted change.
pub process_refund-debits :
    (i : RefundInput) (e f : ℕ) (s : Session) {refund : Refund} {s' : Session}
    → IsClean s
    → i.event_id ≡ uuid e
    → i.flat_id ≡ uuid f
    → process_refund i s ≡ (ok refund, s')
    → Debited e f i.amount s.durable s'.durable
process_refund-debits i e f s {refund} {s'} clean eid fid h =
    let r : Processed i s refund s' = process_refund-ok i s clean h in
    let same_event : r.ids.event_id ≡ e = ground (arith, r.event_id) in
    let same_flat : r.ids.flat_id ≡ f = ground (arith, r.flat_id) in
    subst₂ (λ a b. Debited a b i.amount s.durable s'.durable) same_event same_flat
      (refund_Debited r.refunded)
