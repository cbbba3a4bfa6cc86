-- ===== src/Announcements/Machine.antt =====
-- The life of a delivery as an abstract machine: an attempt answers it or leaves it waiting for the
-- next one, which is within the limit.
use society_agent.Prelude.{
  ℕ, suc, ◌+◌, ◌<◌, ◌≤◌, ◌≡◌, ◌≢◌, refl, ◌∙◌, ap, ◌⊎◌, inl, inr, arith, if◌then◌else◌,
}
use society_agent.Announcements.Models.{
  DeliveryStatus, pending, processing, sent, failed, skipped, AnnouncementDelivery, is_done,
}

pub data Verdict : Type 0 where
  waiting delivered left_out given_up : Verdict

-- Attempts made, and what came of them.
pub record Phase : Type 0 where
  pub attempts : ℕ
  pub verdict : Verdict

-- A delivered message stays so. Any other call is one attempt, after which the delivery waits only when
-- attempts are left.
pub record Move (limit : ℕ) (p q : Phase) : Type 0 where
  pub rests : p.verdict ≡ delivered → q ≡ p
  pub counts : p.verdict ≢ delivered → q.attempts ≡ suc p.attempts
  pub waits : p.verdict ≢ delivered → q.verdict ≡ waiting → q.attempts < limit

-- A run of `n` moves.
pub data Run (limit : ℕ) (p : Phase) : ℕ → Phase → Type 0 where
  start : Run limit p 0 p
  next : {n : ℕ} {q r : Phase} → Run limit p n q → Move limit q r → Run limit p (suc n) r

abbrev pub verdict_of : DeliveryStatus → Verdict
verdict_of pending = waiting
verdict_of processing = waiting
verdict_of sent = delivered
verdict_of failed = given_up
verdict_of skipped = left_out

abbrev pub phase : AnnouncementDelivery → Phase
phase d = record {
  attempts = d.attempts;
  verdict = if is_done d then delivered else verdict_of d.status;
}

-- Every move was an attempt, unless the delivery is delivered.
Counted : ℕ → Phase → ℕ → Phase → Type 0
Counted limit p n q =
    (q.verdict ≡ delivered)
    ⊎ ((q.attempts ≡ p.attempts + n) × (0 < n → q.verdict ≡ waiting → q.attempts < limit))

verdict-cases : (v : Verdict) → (v ≡ delivered) ⊎ (v ≢ delivered)
verdict-cases waiting = inr (λ h. cc)
verdict-cases delivered = inl refl
verdict-cases left_out = inr (λ h. cc)
verdict-cases given_up = inr (λ h. cc)

Run-Counted : (limit : ℕ) (p : Phase) {n : ℕ} {q : Phase} → Run limit p n q → Counted limit p n q
unfolding Counted
Run-Counted limit p start = inr (omega arith, λ h w. absurd (omega (arith, h)))
Run-Counted limit p (next {n} {q} {r} run m) = elim (verdict-cases q.verdict) [
  | inl done ↦ inl (ap (λ (x : Phase). x.verdict) (m.rests done) ∙ done)
  | inr going ↦ elim (Run-Counted limit p run) [
    | inl done ↦ absurd (going done)
    | inr (made, _) ↦ inr (ground (arith, made, m.counts going), λ _ w. m.waits going w)
  ]
]

-- When the attempts made and the moves of the run reach the limit, the delivery does not wait.
pub Run-answers :
    (limit : ℕ) (p : Phase) {n : ℕ} {q : Phase}
    → Run limit p n q
    → 0 < n
    → limit ≤ p.attempts + n
    → q.verdict ≢ waiting
unfolding Counted
Run-answers limit p {n} {q} run some_moves enough still = elim (Run-Counted limit p run) [
  | inl done ↦ cc
  | inr (made, room) ↦ omega (arith, made, room some_moves still, enough)
]
