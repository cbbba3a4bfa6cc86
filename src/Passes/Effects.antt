-- ===== src/Passes/Effects.antt =====
-- What a booking and an opt-out change, seen flat by flat.
use society_agent.Prelude.{
  ℕ, ◌≡◌, refl, true, false, ◌&&◌, some, inl, inr, arith, Option-cases, get_or, find_first,
  find_first-save_self, find_first-save_ne, find_first_sound, ◌==◌,
}
use society_agent.Prelude.Int.{ℤ, 0ℤ, ltb_ℤ}
use society_agent.Db.{EventFoodPass, Payment, Tables}
use society_agent.Db.Errors.{ok}
use society_agent.Db.Session.{Session}
use society_agent.Db.Query.{find_pass, find_payment, is_pass_of, is_payment_of}
use society_agent.Payments.Effects.{is_payment_of-ne}
use society_agent.Passes.Service.{
  PassInput, OptOut, add_or_update_pass, mark_not_participating, booked_pass, blank_pass, expect,
  emptied_pass, released, total_amount, total_persons,
}
use society_agent.Passes.Written.{Written, add_or_update_pass-ok, mark_not_participating-ok}

-- The flat's pass and its payment row are the given ones, and all else that money depends on is as
-- before.
pub record Replaced (e f : ℕ) (pass : EventFoodPass) (pay : Payment) (t t' : Tables) : Type 0 where
  pub pass_row : find_pass e f t' ≡ some pass
  pub payment_row : find_payment e f t' ≡ some pay
  pub others :
      (e' f' : ℕ)
      → (e == e' && f == f') ≡ false
      → (find_pass e' f' t' ≡ find_pass e' f' t) × (find_payment e' f' t' ≡ find_payment e' f' t)
  pub refunds_kept : t'.refunds ≡ t.refunds
  pub contributions_kept : t'.contributions ≡ t.contributions

is_pass_of-ne :
    (e f e' f' : ℕ) (p : EventFoodPass)
    → (e == e' && f == f') ≡ false
    → is_pass_of e f p ≡ true
    → is_pass_of e' f' p ≡ false
is_pass_of-ne e f e' f' p h k = ground arith

Written-Replaced :
    (e f : ℕ) (pass : EventFoodPass) (pay : Payment) (t : Tables) (s' : Session)
    → is_pass_of e f pass ≡ true
    → is_payment_of e f pay ≡ true
    → Written e f pass pay t s'
    → Replaced e f pass pay t s'.durable
unfolding find_pass find_payment
Written-Replaced e f pass pay t s' pk qk w =
    rw (w.committed, w.written)
      (record {
        pass_row = find_first-save_self (is_pass_of e f) pass t.food_passes pk;
        payment_row = find_first-save_self (is_payment_of e f) pay t.payments qk;
        others = λ e' f' ne. (
          find_first-save_ne (is_pass_of e f) (is_pass_of e' f') pass t.food_passes
              (is_pass_of-ne e f e' f' pass ne pk) (λ p. is_pass_of-ne e f e' f' p ne),
          find_first-save_ne (is_payment_of e f) (is_payment_of e' f') pay t.payments
              (is_payment_of-ne e f e' f' pay ne qk) (λ p. is_payment_of-ne e f e' f' p ne),
        );
        refunds_kept = refl;
        contributions_kept = refl;
      })

found_pass-key :
    (e f : ℕ) (t : Tables) → is_pass_of e f (get_or (find_pass e f t) (blank_pass e f)) ≡ true
unfolding find_pass
found_pass-key e f t = elim (Option-cases (find_first (is_pass_of e f) t.food_passes)) [
  | inl fresh ↦ rw fresh (ground arith)
  | inr (p, old) ↦ rw old (find_first_sound (is_pass_of e f) t.food_passes old)
]

expect-key :
    (e f : ℕ) (x : ℤ) (t : Tables) → is_payment_of e f (expect e f x (find_payment e f t)) ≡ true
unfolding find_payment
expect-key e f x t = elim (Option-cases (find_first (is_payment_of e f) t.payments)) [
  | inl fresh ↦ rw fresh (ground arith)
  | inr (p, old) ↦ rw old (find_first_sound (is_payment_of e f) t.payments old)
]

released-key : (e f : ℕ) (t : Tables) → is_payment_of e f (released e f (find_payment e f t)) ≡ true
unfolding find_payment
released-key e f t = elim (Option-cases (find_first (is_payment_of e f) t.payments)) [
  | inl fresh ↦ rw fresh (ground arith)
  | inr (p, old) ↦ rw old (find_first_sound (is_payment_of e f) t.payments old)
]

-- The pass and the payment row that a booking leaves.
pub add_or_update_pass-Replaced :
    (i : PassInput) (s : Session) {pass : EventFoodPass} {s' : Session}
    → add_or_update_pass i s ≡ (ok pass, s')
    → (ltb_ℤ 0ℤ (total_persons i) ≡ true)
      × (pass ≡ booked_pass i (find_pass i.event_id i.flat_id s.current))
      × Replaced i.event_id i.flat_id pass
          (expect i.event_id i.flat_id
            (total_amount i)
            (find_payment i.event_id i.flat_id s.current))
          s.current
          s'.durable
add_or_update_pass-Replaced i s {pass} {s'} h =
    let (persons, row, written) = add_or_update_pass-ok i s h in
    (
      persons,
      row,
      Written-Replaced _ _ pass _ s.current s'
          (rw row (found_pass-key i.event_id i.flat_id s.current))
          (expect-key _ _ (total_amount i) s.current) written,
    )

-- The pass and the payment row that an opt-out leaves.
pub mark_not_participating-Replaced :
    (i : OptOut) (s : Session) {pass : EventFoodPass} {s' : Session}
    → mark_not_participating i s ≡ (ok pass, s')
    → (pass ≡ emptied_pass i (find_pass i.event_id i.flat_id s.current))
      × Replaced i.event_id i.flat_id pass
          (released i.event_id i.flat_id (find_payment i.event_id i.flat_id s.current))
          s.current
          s'.durable
mark_not_participating-Replaced i s {pass} {s'} h =
    let (row, written) = mark_not_participating-ok i s h in
    (
      row,
      Written-Replaced _ _ pass _ s.current s'
          (rw row (found_pass-key i.event_id i.flat_id s.current)) (released-key _ _ s.current)
          written,
    )
