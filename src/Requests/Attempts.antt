-- ===== src/Requests/Attempts.antt =====
-- app/modules/payments/payment_request_service.py and refund_request_service.py: the loop that draws a
-- code for a new request until the database takes it.
use mathlib.Core.Path.{subst}
use society_agent.Prelude.{
  ℕ, zero, suc, ◌≡◌, refl, ap, sym, ◌∙◌, Bool-cases, inl, inr, arith, if◌then◌else◌,
}
use society_agent.Db.{Tables}
use society_agent.Db.Errors.{is_integrity, Result, ok, err, codes_exhausted}
use society_agent.Db.Session.{Session, Exec, rolled_back}
use society_agent.Db.Ran.{IsClean}
use society_agent.Db.Atomic.{Quiet}

-- `MAX_REQUEST_CODE_GENERATION_ATTEMPTS`
abbrev pub attempt_limit : ℕ
attempt_limit = 8

module _ {R : Type 0} where
  -- `except IntegrityError`
  abbrev pub retry : Result R × Session → Result R × Session → Result R × Session
  retry (ok r, s) again = (ok r, s)
  retry (err e, s) again = if is_integrity e then again else (err e, s)

  -- The loop over the attempts that are left.
  unfoldable pub create_attempts : (R → Exec R) → ℕ → (ℕ → R) → Exec R
  create_attempts add zero new s = (err codes_exhausted, s)
  create_attempts add (suc n) new s =
      let first = add (new n) s in
      let again = create_attempts add n new (rolled_back first.1) in retry first again

  retry-ok :
      (first again : Result R × Session) {r : R} {s' : Session} (P : Type 0)
      → retry first again ≡ (ok r, s')
      → (first ≡ (ok r, s') → P)
      → (again ≡ (ok r, s') → P)
      → P
  retry-ok (ok x, t) again P h now later = now h
  retry-ok (err e, t) again P h now later = elim (Bool-cases (is_integrity e)) [
    | inl again_now ↦ later (rw again_now at h)
    | inr given_up ↦ absurd (ground arith)
  ]

  retry_durable :
      (d : Tables) (first again : Result R × Session)
      → first.1.durable ≡ d
      → again.1.durable ≡ d
      → (retry first again).1.durable ≡ d
  retry_durable d (ok x, t) again p q = p
  retry_durable d (err e, t) again p q = elim (Bool-cases (is_integrity e)) [
    | inl again_now ↦ rw again_now q
    | inr given_up ↦ rw given_up p
  ]

-- What the attempts leave, when one that is taken changes the tables by `put`.
pub record Added {R : Type 0} (put : R → Tables → Tables) (new : ℕ → R) (t : Tables) (r : R)
    (s' : Session) : Type 0 where
  pub drawn : ℕ
  pub row : r ≡ new drawn
  pub current : s'.current ≡ put r t
  pub durable : s'.durable ≡ t

module _ {R : Type 0} (add : R → Exec R) (add-Quiet : (r : R) → Quiet (add r)) where
  pub create_attempts-Quiet : (n : ℕ) (new : ℕ → R) → Quiet (create_attempts add n new)
  unfolding create_attempts
  create_attempts-Quiet zero new = record { at = λ s. refl }
  create_attempts-Quiet (suc n) new = record {
    at = λ s.
        let kept = (add-Quiet (new n)).at s in
        let first = add (new n) s in
        retry_durable s.durable first (create_attempts add n new (rolled_back first.1)) kept
          ((create_attempts-Quiet n new).at (rolled_back first.1) ∙ kept);
  }

  module _ (put : R → Tables → Tables)
      (add-ok : (new : R) (s : Session) (r : R) (s' : Session)
        → add new s ≡ (ok r, s')
        → (r ≡ new) × (s'.current ≡ put new s.current) × (s'.durable ≡ s.durable)) where
    first-Added :
        (n : ℕ) (new : ℕ → R) (s : Session) (r : R) (s' : Session)
        → IsClean s
        → add (new n) s ≡ (ok r, s')
        → Added put new s.durable r s'
    first-Added n new s r s' clean first =
        let (same, seen, kept) = add-ok (new n) s r s' first in
        record {
          drawn = n;
          row = same;
          current = seen ∙ ap (put (new n)) clean ∙ ap (λ x. put x s.durable) (sym same);
          durable = kept;
        }

    pub create_attempts-Added :
        (n : ℕ) (new : ℕ → R) (s : Session) {r : R} {s' : Session}
        → IsClean s
        → create_attempts add n new s ≡ (ok r, s')
        → Added put new s.durable r s'
    unfolding create_attempts
    create_attempts-Added zero new s clean h = cc
    create_attempts-Added (suc n) new s {r} {s'} clean h =
        retry-ok (add (new n) s) _ (Added put new s.durable r s') h (first-Added n new s r s' clean)
          (λ again.
            let kept = (add-Quiet (new n)).at s in
            let later = create_attempts-Added n new (rolled_back (add (new n) s).1) refl again in
            subst (λ t. Added put new t r s') kept later)
