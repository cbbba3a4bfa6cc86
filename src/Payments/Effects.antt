-- ===== src/Payments/Effects.antt =====
-- What a recorded payment changes, seen flat by flat.
use society_agent.Prelude.{
  ℕ, ◌≡◌, true, false, ◌&&◌, Option, none, some, inl, inr, arith, get_or, Option-cases, find_first,
  find_first-save_self, find_first-save_ne, find_first_sound, ◌==◌, if◌then◌else◌,
}
use society_agent.Prelude.Int.{ℤ, 0ℤ, ◌+ℤ◌, leb_ℤ}
use mathlib.Core.Path.{subst₂}
use society_agent.Validation.{uuid}
use society_agent.Db.{EventFoodPass, Payment, Tables, paid, partial}
use society_agent.Db.Errors.{ok}
use society_agent.Db.Session.{Session}
use society_agent.Db.Query.{find_payment, is_payment_of}
use society_agent.Payments.Record.{
  PaymentInput, record_payment, credit, fresh_payment, find_participating,
}
use society_agent.Payments.Recorded.{Recorded, record_payment-ok}

-- What a flat has paid for an event.
abbrev paid_in : Option Payment → ℤ
paid_in none = 0ℤ
paid_in (some p) = p.paid_amount

unfoldable pub paid_of : ℕ → ℕ → Tables → ℤ
paid_of e f t = paid_in (find_payment e f t)

-- The payment row keeps the columns by which it is found.
get_or-key :
    (e f : ℕ) (x : ℤ) (t : Tables)
    → is_payment_of e f (get_or (find_payment e f t) (fresh_payment e f x)) ≡ true
unfolding find_payment
get_or-key e f x t = elim (Option-cases (find_first (is_payment_of e f) t.payments)) [
  | inl fresh ↦ rw fresh (ground arith)
  | inr (p, old) ↦ rw old (find_first_sound (is_payment_of e f) t.payments old)
]

-- Rows with another event or flat.
pub is_payment_of-ne :
    (e f e' f' : ℕ) (p : Payment)
    → (e == e' && f == f') ≡ false
    → is_payment_of e f p ≡ true
    → is_payment_of e' f' p ≡ false
is_payment_of-ne e f e' f' p h k = ground arith

module _ {i : PaymentInput} {s : Session} {pay : Payment} {s' : Session}
    (r : Recorded i s pay s') where
  open r use {ids, pass}

  pub saved_key : is_payment_of ids.event_id ids.flat_id pay ≡ true
  unfolding credit
  saved_key =
      ground (arith, r.payment, get_or-key ids.event_id ids.flat_id pass.total_amount s.current)

  pub saved_found : find_payment ids.event_id ids.flat_id s'.current ≡ some pay
  unfolding find_payment
  saved_found = rw r.written (
      find_first-save_self (is_payment_of ids.event_id ids.flat_id) pay s.current.payments
        saved_key)

  saved_other :
      (e f : ℕ)
      → (ids.event_id == e && ids.flat_id == f) ≡ false
      → find_payment e f s'.current ≡ find_payment e f s.current
  unfolding find_payment
  saved_other e f ne = rw r.written (
      find_first-save_ne (is_payment_of ids.event_id ids.flat_id) (is_payment_of e f) pay
        s.current.payments (is_payment_of-ne ids.event_id ids.flat_id e f pay ne saved_key)
        (λ p. is_payment_of-ne ids.event_id ids.flat_id e f p ne))

  pub saved_amount : pay.paid_amount ≡ paid_of ids.event_id ids.flat_id s.current +ℤ i.amount
  unfolding credit paid_of
  saved_amount = ground (arith, r.payment)

-- What a payment of `amount` for a flat leaves behind.
pub record Credited (e f : ℕ) (amount : ℤ) (t : Tables) (pay : Payment) (t' : Tables) : Type 0 where
  pub row : find_payment e f t' ≡ some pay
  pub raised : paid_of e f t' ≡ paid_of e f t +ℤ amount
  pub pass : EventFoodPass
  pub taking_part : find_participating e f t ≡ some pass
  pub status : pay.status ≡ (if leb_ℤ pass.total_amount (paid_of e f t') then paid else partial)
  pub others :
      (e' f' : ℕ) → (e == e' && f == f') ≡ false → find_payment e' f' t' ≡ find_payment e' f' t

pub saved-Credited :
    {i : PaymentInput} {s : Session} {pay : Payment} {s' : Session} (r : Recorded i s pay s')
    → Credited r.ids.event_id r.ids.flat_id i.amount s.current pay s'.durable
unfolding paid_of
saved-Credited {i} {s} {pay} {s'} r = rw r.committed (record {
  row = saved_found r;
  raised = rw (saved_found r) (saved_amount r);
  pass = r.pass;
  taking_part = r.pass_found;
  status = rw (saved_found r) (unfold credit in ground (arith, r.payment));
  others = saved_other r;
})

-- A payment that is recorded for a flat raises what the flat has paid by its amount, also in the
-- committed tables, is marked paid exactly when that reaches the amount of the flat's food pass and
-- partial otherwise, and leaves the payment row of every other event or flat as it was.
pub record_payment-credits :
    (i : PaymentInput) (e f : ℕ) (s : Session) {pay : Payment} {s' : Session}
    → i.event_id ≡ uuid e
    → i.flat_id ≡ uuid f
    → record_payment i s ≡ (ok pay, s')
    → Credited e f i.amount s.current pay s'.durable
record_payment-credits i e f s {pay} {s'} eid fid h =
    let r : Recorded i s pay s' = record_payment-ok i s h in
    let same_event : r.ids.event_id ≡ e = ground (arith, r.event_id) in
    let same_flat : r.ids.flat_id ≡ f = ground (arith, r.flat_id) in
    subst₂ (λ a b. Credited a b i.amount s.current pay s'.durable) same_event same_flat
      (saved-Credited r)
