-- ===== src/Passes/Booked.antt =====
-- What a booking and an opt-out of the food pass service write, amount by amount.
use society_agent.Prelude.{
  refl, ◌⊎◌, inl, inr, ℕ, ◌≡◌, ap, true, false, Option, none, some, if◌then◌else◌,
}
use society_agent.Prelude.Int.{ℤ, 0ℤ, ◌+ℤ◌, ◌*ℤ◌, leb_ℤ, ltb_ℤ}
use society_agent.Db.{EventFoodPass, Payment, Tables, pending, partial, paid, refunded}
use society_agent.Db.Errors.{ok}
use society_agent.Db.Session.{Session}
use society_agent.Db.Query.{find_payment}
use society_agent.Passes.Service.{
  PassInput, OptOut, add_or_update_pass, mark_not_participating, expect, released, total_amount,
}
use society_agent.Passes.Effects.{
  Replaced, add_or_update_pass-Replaced, mark_not_participating-Replaced,
}

-- The amount of a pass: adults pay one charge, children another.
abbrev pub price : (veg jain kids charge_per_adult charge_per_child : ℤ) → ℤ
price veg jain kids charge_per_adult charge_per_child =
    (veg +ℤ jain) *ℤ charge_per_adult +ℤ kids *ℤ charge_per_child

-- The payment row `pay` of a flat from which `amount` is expected, by the row before: a new row is
-- pending; an old one keeps what was paid, and is paid, partial or pending by that amount.
abbrev pub IsExpected : ℕ → ℕ → ℤ → Option Payment → Payment → Type 0
IsExpected e f amount before pay =
    ((before ≡ none)
      × (pay ≡ record {
        event_id = e;
        flat_id = f;
        expected_amount = amount;
        paid_amount = 0ℤ;
        status = pending;
        payment_mode = none;
        paid_at = none;
      }))
    ⊎ ((p : Payment) × (before ≡ some p)
        × (pay ≡ record p {
          expected_amount = amount;
          status =
              if leb_ℤ amount p.paid_amount
              then paid
              else if ltb_ℤ 0ℤ p.paid_amount
              then partial
              else pending;
        }))

-- The payment row `pay` of a flat that opted out, by the row before: nothing is expected, and an old
-- row keeps what was paid, which is to be refunded.
abbrev pub IsReleased : ℕ → ℕ → Option Payment → Payment → Type 0
IsReleased e f before pay =
    ((before ≡ none)
      × (pay ≡ record {
        event_id = e;
        flat_id = f;
        expected_amount = 0ℤ;
        paid_amount = 0ℤ;
        status = pending;
        payment_mode = none;
        paid_at = none;
      }))
    ⊎ ((p : Payment) × (before ≡ some p)
        × (pay ≡ record p {
          expected_amount = 0ℤ;
          status = if ltb_ℤ 0ℤ p.paid_amount then refunded else pending;
        }))

-- The tables after a booking.
pub record Booked (i : PassInput) (t : Tables) (pass : EventFoodPass) (t' : Tables) : Type 0 where
  pub persons : ltb_ℤ 0ℤ (i.veg_count +ℤ i.jain_count +ℤ i.kids_count) ≡ true
  pub veg : pass.veg_count ≡ i.veg_count
  pub jain : pass.jain_count ≡ i.jain_count
  pub kids : pass.kids_count ≡ i.kids_count
  pub amount :
      pass.total_amount
      ≡ price i.veg_count i.jain_count i.kids_count i.charge_per_adult i.charge_per_child
  pub takes_part : pass.is_participating ≡ true
  pub payment : Payment
  pub expected :
      IsExpected i.event_id i.flat_id pass.total_amount
        (find_payment i.event_id i.flat_id t)
        payment
  pub replaced : Replaced i.event_id i.flat_id pass payment t t'

-- The tables after an opt-out.
pub record OptedOut (i : OptOut) (t : Tables) (pass : EventFoodPass) (t' : Tables) : Type 0 where
  pub veg : pass.veg_count ≡ 0ℤ
  pub jain : pass.jain_count ≡ 0ℤ
  pub kids : pass.kids_count ≡ 0ℤ
  pub amount : pass.total_amount ≡ 0ℤ
  pub takes_part : pass.is_participating ≡ false
  pub payment : Payment
  pub released_row : IsReleased i.event_id i.flat_id (find_payment i.event_id i.flat_id t) payment
  pub replaced : Replaced i.event_id i.flat_id pass payment t t'

expect-IsExpected :
    (e f : ℕ) (amount : ℤ) (before : Option Payment)
    → IsExpected e f amount before (expect e f amount before)
expect-IsExpected e f amount none = inl (refl, refl)
expect-IsExpected e f amount (some p) = inr (p, refl, refl)

released-IsReleased :
    (e f : ℕ) (before : Option Payment) → IsReleased e f before (released e f before)
released-IsReleased e f none = inl (refl, refl)
released-IsReleased e f (some p) = inr (p, refl, refl)

-- A booking that returns is for at least one person. In the committed tables the flat's pass has the
-- counts asked for, takes part, and costs the adults, vegetarian or Jain, at one charge and the
-- children at the other; the flat's payment row expects that amount and is as new, or keeps what was
-- paid and is judged by it; and the pass and the payment row of every other flat or event, the refunds
-- and the contributions are as before.
pub add_or_update_pass-books :
    (i : PassInput) (s : Session) {pass : EventFoodPass} {s' : Session}
    → add_or_update_pass i s ≡ (ok pass, s')
    → Booked i s.current pass s'.durable
add_or_update_pass-books i s {pass} {s'} h =
    let (persons, row, replaced) = add_or_update_pass-Replaced i s h in
    let charged : pass.total_amount ≡ total_amount i =
      ap (λ (x : EventFoodPass). x.total_amount) row in
    record {
      persons = persons;
      veg = ap (λ (x : EventFoodPass). x.veg_count) row;
      jain = ap (λ (x : EventFoodPass). x.jain_count) row;
      kids = ap (λ (x : EventFoodPass). x.kids_count) row;
      amount = charged;
      takes_part = ap (λ (x : EventFoodPass). x.is_participating) row;
      payment =
          expect i.event_id i.flat_id (total_amount i)
            (find_payment i.event_id i.flat_id s.current);
      expected = rw charged (expect-IsExpected i.event_id i.flat_id (total_amount i) _);
      replaced = replaced;
    }

-- An opt-out that returns has emptied the flat's pass: no person, no amount, no part taken. In the
-- committed tables the flat's payment row expects nothing, and keeps what was paid, marked refunded
-- where that is more than 0 and pending where not; and the pass and the payment row of every other
-- flat or event, the refunds and the contributions are as before.
pub mark_not_participating-releases :
    (i : OptOut) (s : Session) {pass : EventFoodPass} {s' : Session}
    → mark_not_participating i s ≡ (ok pass, s')
    → OptedOut i s.current pass s'.durable
mark_not_participating-releases i s {pass} {s'} h =
    let (row, replaced) = mark_not_participating-Replaced i s h in
    record {
      veg = ap (λ (x : EventFoodPass). x.veg_count) row;
      jain = ap (λ (x : EventFoodPass). x.jain_count) row;
      kids = ap (λ (x : EventFoodPass). x.kids_count) row;
      amount = ap (λ (x : EventFoodPass). x.total_amount) row;
      takes_part = ap (λ (x : EventFoodPass). x.is_participating) row;
      payment = released i.event_id i.flat_id (find_payment i.event_id i.flat_id s.current);
      released_row = released-IsReleased i.event_id i.flat_id _;
      replaced = replaced;
    }
