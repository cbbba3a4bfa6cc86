-- ===== src/Ledger/Moves.antt =====
-- How each service that moves money moves the closing balance that the ledger would calculate.
use society_agent.Prelude.{
  ℕ, ◌≡◌, true, some, inl, inr, find_first, find_first_sound, Option-cases, ap, Bool-cases, arith,
  ◌==◌, if◌then◌else◌,
}
use society_agent.Prelude.Int.{ℤ, 0ℤ, ◌+ℤ◌, ◌-ℤ◌, pos_part, neg_part, int_laws}
use society_agent.Prelude.Sums.{share, sum_where-save}
use society_agent.Db.{Payment, PaymentStatus, Refund, Tables}
use society_agent.Db.Session.{Session}
use society_agent.Db.Query.{find_payment, is_payment_of}
use society_agent.Payments.Refund.{RefundInput}
use society_agent.Payments.Refunded.{Refunded}
use society_agent.Payments.Record.{Identifiers, PaymentInput}
use society_agent.Payments.Recorded.{Recorded}
use society_agent.Payments.Effects.{paid_of, saved_key, saved_amount}
use society_agent.Ledger.Service.{flat_payments}

-- The part of an amount of event `e` that is counted for the event `e'`.
abbrev pub counted : ℕ → ℕ → ℤ → ℤ
counted e e' x = if e == e' then x else 0ℤ

-- The row that a flat has paid on counts with what it holds.
share_paid :
    (e f e' : ℕ) (t : Tables)
    → share
        (λ row. row.event_id == e')
        (λ row. row.paid_amount)
        (find_first (is_payment_of e f) t.payments)
      ≡ counted e e' (paid_of e f t)
unfolding find_payment paid_of
share_paid e f e' t = elim (Option-cases (find_first (is_payment_of e f) t.payments)) [
  | inl fresh ↦ rw fresh (ground arith)
  | inr (p, old) ↦
      let key : is_payment_of e f p ≡ true = find_first_sound (is_payment_of e f) t.payments old in
      rw old (ground arith)
]

cancel : (a b x y : ℤ) → a +ℤ x ≡ b +ℤ (x +ℤ y) → a ≡ b +ℤ y
cancel a b x y h = omega (int_laws, ap pos_part h, ap neg_part h)

cancel_counted :
    (e e' : ℕ) (a b x y : ℤ)
    → a +ℤ counted e e' x ≡ b +ℤ counted e e' (x +ℤ y)
    → a ≡ b +ℤ counted e e' y
cancel_counted e e' a b x y h = elim (Bool-cases (e == e')) [
  | inl same ↦ rw same (cancel a b x y (rw same at h))
  | inr other ↦
      rw other (omega (int_laws, ap pos_part (rw other at h), ap neg_part (rw other at h)))
]

module _ {i : PaymentInput} {s : Session} {pay : Payment} {s' : Session}
    (r : Recorded i s pay s') where
  open r use {ids}

  share_new :
      (e' : ℕ)
      → share (λ row. row.event_id == e') (λ row. row.paid_amount) (some pay)
        ≡ counted ids.event_id e' (paid_of ids.event_id ids.flat_id s.current +ℤ i.amount)
  share_new e' = ground (arith, saved_key r, saved_amount r)

  pub payments_moved :
      (e' : ℕ)
      → flat_payments e' s'.current ≡ flat_payments e' s.current +ℤ counted ids.event_id e' i.amount
  unfolding flat_payments
  payments_moved e' =
      let swap =
        sum_where-save (is_payment_of ids.event_id ids.flat_id) (λ row. row.event_id == e')
          (λ row. row.paid_amount) pay s.current.payments in
      let before = rw (share_paid ids.event_id ids.flat_id e' s.current) at swap in
      let after = rw (share_new e') at before in
      rw r.written (
        cancel_counted ids.event_id e' _ _ (paid_of ids.event_id ids.flat_id s.current) i.amount
          after)

pub payments_part :
    (o p p' c x r d : ℤ) → p' ≡ p +ℤ d → o +ℤ p' +ℤ c -ℤ x -ℤ r ≡ o +ℤ p +ℤ c -ℤ x -ℤ r +ℤ d
payments_part o p p' c x r d h = rw h (omega int_laws)

pub contributions_part :
    (o p c c' x r d : ℤ) → c' ≡ c +ℤ d → o +ℤ p +ℤ c' -ℤ x -ℤ r ≡ o +ℤ p +ℤ c -ℤ x -ℤ r +ℤ d
contributions_part o p c c' x r d h = rw h (omega int_laws)

pub expenses_part :
    (o p c x x' r d : ℤ) → x' ≡ x +ℤ d → o +ℤ p +ℤ c -ℤ x' -ℤ r ≡ o +ℤ p +ℤ c -ℤ x -ℤ r -ℤ d
expenses_part o p c x x' r d h = rw h (omega int_laws)

pub refunds_part :
    (o p c x r r' d : ℤ) → r' ≡ r +ℤ d → o +ℤ p +ℤ c -ℤ x -ℤ r' ≡ o +ℤ p +ℤ c -ℤ x -ℤ r -ℤ d
refunds_part o p c x r r' d h = rw h (omega int_laws)

cancel_same : (a b x : ℤ) → a +ℤ x ≡ b +ℤ x → a ≡ b
cancel_same a b x h = omega (int_laws, ap pos_part h, ap neg_part h)

-- A refund changes the status of the payment row only.
pub payments_same :
    {ids : Identifiers} {i : RefundInput} {t : Tables} {refund : Refund} {t' : Tables}
    (r : Refunded ids i t refund t') (e' : ℕ)
    → flat_payments e' t' ≡ flat_payments e' t
unfolding flat_payments find_payment
payments_same {ids} {i} {t} r e' =
    let swap =
      sum_where-save (is_payment_of ids.event_id ids.flat_id) (λ row. row.event_id == e')
        (λ row. row.paid_amount) (record r.payment { status = PaymentStatus.refunded })
        t.payments in
    rw r.written (cancel_same _ _ _ (rw r.paid_before at swap))
