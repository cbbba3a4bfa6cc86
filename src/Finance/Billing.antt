-- ===== src/Finance/Billing.antt =====
-- What a flat is asked for, and what it has paid, through bookings, payments and refunds.
use society_agent.Prelude.{
  ℕ, ◌≡◌, refl, true, Option, none, some, inl, inr, Option-cases, by_key, arith,
}
use society_agent.Prelude.Int.{ℤ, 0ℤ, ◌≤ℤ◌}
use society_agent.Db.{EventFoodPass, Payment, PaymentStatus, Refund, Tables}
use society_agent.Db.Session.{Session}
use society_agent.Db.Query.{find_pass, find_payment}
use society_agent.Payments.Record.{PaymentInput, credit}
use society_agent.Payments.Recorded.{Recorded}
use society_agent.Payments.Effects.{paid_of, Credited, saved-Credited}
use society_agent.Payments.Refund.{RefundInput, refunded_total}
use society_agent.Payments.Retries.{Processed}
use society_agent.Payments.Solvency.{Debited, refund_Debited}
use society_agent.Payments.Invariant.{IsSolvent}
use society_agent.Passes.Service.{expect, released}
use society_agent.Passes.Effects.{Replaced}

-- The flat's payment row, and what it asks for.
pub record Billed (e f : ℕ) (pass : EventFoodPass) (t : Tables) : Type 0 where
  pub payment : Payment
  pub row : find_payment e f t ≡ some payment
  pub expected : payment.expected_amount ≡ pass.total_amount

abbrev BilledAt : Tables → ℕ → ℕ → Type 0
BilledAt t e f =
    (pass : EventFoodPass)
    → find_pass e f t ≡ some pass
    → pass.is_participating ≡ true
    → Billed e f pass t

-- Every flat that takes part in an event is asked for the amount of its food pass.
abbrev pub IsBilled : Tables → Type 0
IsBilled t = (e f : ℕ) → BilledAt t e f

-- Neither the flat's pass nor its payment row has changed.
unchanged-BilledAt :
    (t t' : Tables) (e f : ℕ)
    → find_pass e f t' ≡ find_pass e f t
    → find_payment e f t' ≡ find_payment e f t
    → BilledAt t e f
    → BilledAt t' e f
unchanged-BilledAt t t' e f p q h pass found part =
    let b = h pass (rw p at found) part in
    record { payment = b.payment; row = rw q b.row; expected = b.expected }

pub same_rows-IsBilled :
    (t t' : Tables)
    → t'.payments ≡ t.payments
    → t'.food_passes ≡ t.food_passes
    → IsBilled t
    → IsBilled t'
unfolding find_pass find_payment
same_rows-IsBilled t t' p q h e f = unchanged-BilledAt t t' e f (rw q refl) (rw p refl) (h e f)

module _ {i : PaymentInput} {s : Session} {pay : Payment} {s' : Session}
    (r : Recorded i s pay s') where
  open r use {ids}

  passes_same : (e f : ℕ) → find_pass e f s'.durable ≡ find_pass e f s.current
  unfolding find_pass
  passes_same e f = rw (r.committed, r.written) refl

  -- A payment on an old row does not change what is expected.
  expected_same :
      (old : Payment)
      → find_payment ids.event_id ids.flat_id s.current ≡ some old
      → pay.expected_amount ≡ old.expected_amount
  unfolding credit
  expected_same old found = ground (arith, r.payment, found)

  pub Recorded-IsBilled : IsBilled s.current → IsBilled s'.durable
  Recorded-IsBilled h =
      let c : Credited ids.event_id ids.flat_id i.amount s.current pay s'.durable =
        saved-Credited r in
      by_key (BilledAt s'.durable) ids.event_id ids.flat_id
        (λ pass found part.
          let b = h ids.event_id ids.flat_id pass (rw (passes_same _ _) at found) part in
          record {
            payment = pay;
            row = c.row;
            expected = rw (expected_same b.payment b.row) b.expected;
          })
        (λ e f ne.
          unchanged-BilledAt s.current s'.durable e f (passes_same e f) (c.others e f ne) (h e f))

-- A refund changes the status of the payment row only.
pub Processed-IsBilled :
    {i : RefundInput} {s : Session} {refund : Refund} {s' : Session} (r : Processed i s refund s')
    → IsBilled s.durable
    → IsBilled s'.durable
unfolding find_pass
Processed-IsBilled {i} {s} {refund} {s'} r h =
    let d : Debited r.ids.event_id r.ids.flat_id i.amount s.durable s'.durable =
      refund_Debited r.refunded in
    let kept : s'.durable.food_passes ≡ s.durable.food_passes = rw r.refunded.written refl in
    by_key (BilledAt s'.durable) r.ids.event_id r.ids.flat_id
      (λ pass found part.
        let b = h r.ids.event_id r.ids.flat_id pass (rw kept at found) part in
        let same : b.payment ≡ d.payment = ground (arith, b.row, d.row) in
        record {
          payment = record d.payment { status = PaymentStatus.refunded };
          row = d.marked;
          expected = rw same at b.expected;
        })
      (λ e f ne.
        unchanged-BilledAt s.durable s'.durable e f (rw kept refl) (d.others e f ne).0 (h e f))

-- A booking or an opt-out that asks for the amount of the pass.
pub Replaced-IsBilled :
    (e f : ℕ) (pass : EventFoodPass) (pay : Payment) (t t' : Tables)
    → Replaced e f pass pay t t'
    → pay.expected_amount ≡ pass.total_amount
    → IsBilled t
    → IsBilled t'
Replaced-IsBilled e f pass pay t t' r asked h =
    by_key (BilledAt t') e f
      (λ row found part.
        let same : pass ≡ row = ground (arith, found, r.pass_row) in
        record { payment = pay; row = r.payment_row; expected = rw same at asked })
      (λ a b ne. unchanged-BilledAt t t' a b (r.others a b ne).0 (r.others a b ne).1 (h a b))

-- What has been paid stays.
pub Replaced-IsSolvent :
    (e f : ℕ) (pass : EventFoodPass) (pay : Payment) (t t' : Tables)
    → Replaced e f pass pay t t'
    → pay.paid_amount ≡ paid_of e f t
    → IsSolvent t
    → IsSolvent t'
unfolding paid_of refunded_total
Replaced-IsSolvent e f pass pay t t' r kept h =
    by_key (λ a b. refunded_total a b t' ≤ℤ paid_of a b t') e f
      (rw (r.payment_row, kept, r.refunds_kept) (h e f))
      (λ a b ne. rw ((r.others a b ne).1, r.refunds_kept) (h a b))

pub expect-paid :
    (e f : ℕ) (x : ℤ) (t : Tables) → (expect e f x (find_payment e f t)).paid_amount ≡ paid_of e f t
unfolding paid_of
expect-paid e f x t = elim (Option-cases (find_payment e f t)) [
  | inl fresh ↦ rw fresh refl
  | inr (p, old) ↦ rw old refl
]

pub expect-expected : (e f : ℕ) (x : ℤ) (o : Option Payment) → (expect e f x o).expected_amount ≡ x
expect-expected e f x none = refl
expect-expected e f x (some p) = refl

pub released-paid :
    (e f : ℕ) (t : Tables) → (released e f (find_payment e f t)).paid_amount ≡ paid_of e f t
unfolding paid_of
released-paid e f t = elim (Option-cases (find_payment e f t)) [
  | inl fresh ↦ rw fresh refl
  | inr (p, old) ↦ rw old refl
]

pub released-expected : (e f : ℕ) (o : Option Payment) → (released e f o).expected_amount ≡ 0ℤ
released-expected e f none = refl
released-expected e f (some p) = refl
