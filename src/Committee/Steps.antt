-- ===== src/Committee/Steps.antt =====
-- An active chairman of a society, through the steps of an action.
use mathlib.Core.Path.{subst}
use society_agent.Prelude.{ℕ, ◌≤◌, String, ◌≡◌, refl, sym, Bool, true, false, arith, if◌then◌else◌}
use society_agent.Validation.{RawId}
use society_agent.Db.{Tables}
use society_agent.Db.Errors.{Error, Result, ok, err}
use society_agent.Db.Session.{Session, Exec, pure, lift, query, guard, require, continue, ◌>>=◌}
use society_agent.Committee.Service.{
  chairman_count, ensure_actor_authorized, normalize_phone, validate_role,
}

-- The tables that the transaction sees hold an active chairman of the society.
abbrev pub HasChairman : ℕ → Session → Type 0
HasChairman soc s = 1 ≤ chairman_count soc s.current

module _ {A B : Type 0} (soc : ℕ) where
  continue-HasChairman :
      (r : Result A × Session) (f : A → Exec B) (s : Session)
      → r.1 ≡ s
      → HasChairman soc s
      → ((a : A) → HasChairman soc (f a s).1)
      → HasChairman soc (continue r.0 f r.1).1
  continue-HasChairman (ok a, t) f s same now later =
      subst (λ x. HasChairman soc (f a x).1) (sym same) (later a)
  continue-HasChairman (err e, t) f s same now later = subst (HasChairman soc) (sym same) now

  -- A step that leaves the session as it was hands the property on.
  pub then-HasChairman :
      (m : Exec A) (f : A → Exec B) (s : Session)
      → (m s).1 ≡ s
      → HasChairman soc s
      → ((a : A) → HasChairman soc (f a s).1)
      → HasChairman soc ((m >>= f) s).1
  unfolding ◌>>=◌
  then-HasChairman m f s same now later = continue-HasChairman (m s) f s same now later

module _ {B : Type 0} (soc : ℕ) where
  pub guard-HasChairman :
      (b : Bool) (e : Error) (f : Unit {0} → Exec B) (s : Session)
      → HasChairman soc s
      → (b ≡ true → HasChairman soc (f tt s).1)
      → HasChairman soc ((guard b e >>= f) s).1
  unfolding ◌>>=◌ guard
  guard-HasChairman true e f s now later = later refl
  guard-HasChairman false e f s now later = now

  pub query-HasChairman :
      {A : Type 0} (g : Tables → A) (f : A → Exec B) (s : Session)
      → HasChairman soc (f (g s.current) s).1
      → HasChairman soc ((query g >>= f) s).1
  unfolding ◌>>=◌ query
  query-HasChairman g f s later = later

  pub if-HasChairman :
      (b : Bool) (m n : Exec B) (s : Session)
      → (b ≡ true → HasChairman soc (m s).1)
      → (b ≡ false → HasChairman soc (n s).1)
      → HasChairman soc ((if b then m else n) s).1
  if-HasChairman true m n s one other = one refl
  if-HasChairman false m n s one other = other refl

module _ {A B : Type 0} (soc : ℕ) where
  kept_on :
      (r : Result A × Session) (f : A → Exec B)
      → HasChairman soc r.1
      → ((a : A) (t : Session) → HasChairman soc t → HasChairman soc (f a t).1)
      → HasChairman soc (continue r.0 f r.1).1
  kept_on (ok a, t) f now later = later a t now
  kept_on (err e, t) f now later = now

  pub bind-HasChairman :
      (m : Exec A) (f : A → Exec B) (s : Session)
      → HasChairman soc (m s).1
      → ((a : A) (t : Session) → HasChairman soc t → HasChairman soc (f a t).1)
      → HasChairman soc ((m >>= f) s).1
  unfolding ◌>>=◌
  bind-HasChairman m f s now later = kept_on (m s) f now later

pub ensure_actor_authorized-same :
    (soc : ℕ) (p : RawId) (s : Session) → (ensure_actor_authorized soc p s).1 ≡ s
unfolding ensure_actor_authorized ◌>>=◌ lift query require guard pure
ensure_actor_authorized-same soc p s = ground arith

pub validate_role-same : (role : String) (s : Session) → (validate_role role s).1 ≡ s
unfolding validate_role ◌>>=◌ guard pure
validate_role-same role s = ground arith

pub normalize_phone-same : (phone : String) (s : Session) → (normalize_phone phone s).1 ≡ s
unfolding normalize_phone ◌>>=◌ guard pure
normalize_phone-same phone s = ground arith
