-- ===== src/Payments/Invariant.antt =====
-- No flat is refunded more than it has paid: payments and refunds keep it so.
use society_agent.Prelude.{ℕ, ◌≡◌, refl, false, by_key, arith}
use society_agent.Prelude.Int.{ℤ, 0ℤ, ◌+ℤ◌, ◌≤ℤ◌, leb_ℤ, +ℤ_parts}
use society_agent.Db.{Payment, Refund, Tables}
use society_agent.Db.Session.{Session}
use society_agent.Db.Query.{find_payment}
use society_agent.Payments.Record.{PaymentInput}
use society_agent.Payments.Recorded.{Recorded}
use society_agent.Payments.Effects.{paid_of, Credited, saved-Credited}
use society_agent.Payments.Refund.{RefundInput, refunded_total}
use society_agent.Payments.Retries.{Processed}
use society_agent.Payments.Solvency.{Debited, refund_Debited}

-- In every event no flat has been refunded more than it has paid.
abbrev pub IsSolvent : Tables → Type 0
IsSolvent t = (e f : ℕ) → refunded_total e f t ≤ℤ paid_of e f t

-- A payment leaves the refunds alone.
Recorded-refunds :
    {i : PaymentInput} {s : Session} {pay : Payment} {s' : Session} (r : Recorded i s pay s')
    (e f : ℕ)
    → refunded_total e f s'.durable ≡ refunded_total e f s.current
unfolding refunded_total
Recorded-refunds r e f = rw (r.committed, r.written) refl

le_after_credit : (x y a : ℤ) → leb_ℤ a 0ℤ ≡ false → x ≤ℤ y → x ≤ℤ y +ℤ a
le_after_credit x y a positive h = ground (arith, +ℤ_parts y a)

Credited-IsSolvent :
    {e f : ℕ} {amount : ℤ} {t : Tables} {pay : Payment} {t' : Tables}
    → Credited e f amount t pay t'
    → leb_ℤ amount 0ℤ ≡ false
    → ((e' f' : ℕ) → refunded_total e' f' t' ≡ refunded_total e' f' t)
    → IsSolvent t
    → IsSolvent t'
unfolding paid_of
Credited-IsSolvent {e} {f} {amount} {t} {pay} {t'} c positive same h =
    by_key (λ a b. refunded_total a b t' ≤ℤ paid_of a b t') e f
      (rw (same e f, c.raised) (le_after_credit _ _ amount positive (h e f)))
      (λ a b ne. rw (same a b, c.others a b ne) (h a b))

Debited-IsSolvent :
    {e f : ℕ} {amount : ℤ} {t t' : Tables} → Debited e f amount t t' → IsSolvent t → IsSolvent t'
unfolding paid_of
Debited-IsSolvent {e} {f} {amount} {t} {t'} d h =
    by_key (λ a b. refunded_total a b t' ≤ℤ paid_of a b t') e f d.covered
      (λ a b ne. rw ((d.others a b ne).0, (d.others a b ne).1) (h a b))

pub Recorded-IsSolvent :
    {i : PaymentInput} {s : Session} {pay : Payment} {s' : Session} (r : Recorded i s pay s')
    → IsSolvent s.current
    → IsSolvent s'.durable
Recorded-IsSolvent r = Credited-IsSolvent (saved-Credited r) r.positive (Recorded-refunds r)

pub Processed-IsSolvent :
    {i : RefundInput} {s : Session} {refund : Refund} {s' : Session} (r : Processed i s refund s')
    → IsSolvent s.durable
    → IsSolvent s'.durable
Processed-IsSolvent r = Debited-IsSolvent (refund_Debited r.refunded)

-- Tables with the same payments and refunds.
pub same_money-IsSolvent :
    (t t' : Tables) → t'.payments ≡ t.payments → t'.refunds ≡ t.refunds → IsSolvent t → IsSolvent t'
unfolding paid_of refunded_total find_payment
same_money-IsSolvent t t' p r h e f = rw (p, r) (h e f)
