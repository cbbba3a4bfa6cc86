-- ===== src/Db/Atomic.antt =====
-- Which actions write to the committed tables, by rules that follow how an action is built.
use society_agent.Prelude.{
  ◌≡◌, refl, ◌∙◌, Bool, true, false, Option, none, some, List, [], ◌∷◌, if◌then◌else◌,
}
use society_agent.Db.Models.{Tables}
use society_agent.Db.Errors.{Error, Result, ok, err}
use society_agent.Db.Session.{
  Outcome, succeeds, fails, Session, Exec, pure, raise, lift, query, guard, require, modify, flush,
  commit, rollback, flush_with, commit_with, continue, finish, rollback_on_error, or_rollback,
  ◌>>=◌,
}

-- The action commits nothing, whether it returns or raises.
pub record Quiet {A : Type 0} (m : Exec A) : Type 0 where
  pub at : (s : Session) → (m s).1.durable ≡ s.durable

-- What is committed after a run that ended so.
abbrev pub Ended : {A : Type 0} → Session → Result A × Session → Type 0
Ended s (ok _, s') = Unit
Ended s (err _, s') = s'.durable ≡ s.durable

-- An action that raises has committed nothing.
pub record Atomic {A : Type 0} (m : Exec A) : Type 0 where
  pub at : (s : Session) → Ended s (m s)

module _ {A : Type 0} where
  pub Quiet-pure : (a : A) → Quiet (pure a)
  unfolding pure
  Quiet-pure a = record { at = λ s. refl }

  pub Quiet-raise : (e : Error) → Quiet (raise {A = A} e)
  unfolding raise
  Quiet-raise e = record { at = λ s. refl }

  pub Quiet-lift : (r : Result A) → Quiet (lift r)
  unfolding lift
  Quiet-lift r = record { at = λ s. refl }

  pub Quiet-query : (f : Tables → A) → Quiet (query f)
  unfolding query
  Quiet-query f = record { at = λ s. refl }

  require_durable : (o : Option A) (e : Error) (s : Session) → (require o e s).1.durable ≡ s.durable
  unfolding require
  require_durable none e s = refl
  require_durable (some a) e s = refl

  pub Quiet-require : (o : Option A) (e : Error) → Quiet (require o e)
  Quiet-require o e = record { at = require_durable o e }

  pub Quiet-if : (b : Bool) (m n : Exec A) → Quiet m → Quiet n → Quiet (if b then m else n)
  Quiet-if true m n km kn = km
  Quiet-if false m n km kn = kn

  pub Atomic-if : (b : Bool) (m n : Exec A) → Atomic m → Atomic n → Atomic (if b then m else n)
  Atomic-if true m n km kn = km
  Atomic-if false m n km kn = kn

pub Quiet-guard : (b : Bool) (e : Error) → Quiet (guard b e)
unfolding guard
Quiet-guard b e = record { at = λ s. refl }

pub Quiet-modify : (f : Tables → Tables) → Quiet (modify f)
unfolding modify
Quiet-modify f = record { at = λ s. refl }

flush_durable : (os : List Outcome) (s : Session) → (flush_with os s).1.durable ≡ s.durable
unfolding flush_with
flush_durable [] s = refl
flush_durable (succeeds ∷ os) s = refl
flush_durable (fails f ∷ os) s = refl

pub Quiet-flush : Quiet flush
unfolding flush
Quiet-flush = record { at = λ s. flush_durable s.outcomes s }

pub Quiet-rollback : Quiet rollback
unfolding rollback
Quiet-rollback = record { at = λ s. refl }

pub Ended-from :
    {B : Type 0} (r : Result B × Session) (s s' : Session)
    → s'.durable ≡ s.durable
    → Ended s' r
    → Ended s r
Ended-from (ok b, t) s s' e h = tt
Ended-from (err x, t) s s' e h = h ∙ e

module _ {A B : Type 0} where
  continue_durable :
      (r : Result A) (f : A → Exec B) (s : Session)
      → ((a : A) → Quiet (f a))
      → (continue r f s).1.durable ≡ s.durable
  continue_durable (ok a) f s k = (k a).at s
  continue_durable (err e) f s k = refl

  pub Quiet-bind :
      (m : Exec A) (f : A → Exec B) → Quiet m → ((a : A) → Quiet (f a)) → Quiet (m >>= f)
  unfolding ◌>>=◌
  Quiet-bind m f km kf = record {
    at = λ s. let (r, s') = m s in continue_durable r f s' kf ∙ km.at s;
  }

  continue-Ended :
      (r : Result A) (f : A → Exec B) (s s' : Session)
      → s'.durable ≡ s.durable
      → ((a : A) → Atomic (f a))
      → Ended s (continue r f s')
  continue-Ended (ok a) f s s' e k = Ended-from (f a s') s s' e ((k a).at s')
  continue-Ended (err _) f s s' e k = e

  -- Nothing may be committed before the last part that can raise.
  pub Atomic-bind :
      (m : Exec A) (f : A → Exec B) → Quiet m → ((a : A) → Atomic (f a)) → Atomic (m >>= f)
  unfolding ◌>>=◌
  Atomic-bind m f km kf = record {
    at = λ s. let (r, s') = m s in continue-Ended r f s s' (km.at s) kf;
  }

commit_pure-Ended :
    {B : Type 0} (b : B) (os : List Outcome) (s : Session)
    → Ended s (let (r, s') = commit_with os s in continue r (λ _. pure b) s')
unfolding commit_with pure
commit_pure-Ended b [] s = tt
commit_pure-Ended b (succeeds ∷ os) s = tt
commit_pure-Ended b (fails f ∷ os) s = refl

-- The last step of a service: a commit that fails has committed nothing.
pub Atomic-finish : {B : Type 0} (f : Tables → Tables) (b : B) → Atomic (finish f b)
unfolding finish commit ◌>>=◌ modify
Atomic-finish f b = record {
  at = λ s. commit_pure-Ended b s.outcomes (record s { current = f s.current });
}

pub Atomic-raise : {B : Type 0} (e : Error) → Atomic (raise {A = B} e)
unfolding raise
Atomic-raise e = record { at = λ s. refl }

rollback-Ended :
    {B : Type 0} (s : Session) (r : Result B × Session) → Ended s r → Ended s (rollback_on_error r)
rollback-Ended s (ok b, t) h = tt
rollback-Ended s (err e, t) h = h

pub Atomic-or_rollback : {B : Type 0} (m : Exec B) → Atomic m → Atomic (or_rollback m)
unfolding or_rollback
Atomic-or_rollback m h = record { at = λ s. rollback-Ended s (m s) (h.at s) }

pub ruleset quiet_rules = (
  Quiet-bind, Quiet-pure, Quiet-raise, Quiet-lift, Quiet-query, Quiet-require, Quiet-if,
  Quiet-guard, Quiet-modify, Quiet-flush, Quiet-rollback,
)

pub ruleset atomic_rules =
    (quiet_rules, Atomic-bind, Atomic-finish, Atomic-raise, Atomic-if, Atomic-or_rollback)
