-- ===== src/Db/Keeps.antt =====
-- Actions that keep a predicate on the tables, what is committed and what the transaction sees alike,
-- whether they return or raise: rules that follow how an action is built.
use society_agent.Prelude.{
  ◌≡◌, refl, Bool, true, false, Option, none, some, List, [], ◌∷◌, if◌then◌else◌,
}
use society_agent.Db.Models.{Tables}
use society_agent.Db.Errors.{Error, Result, ok, err}
use society_agent.Db.Session.{
  Outcome, succeeds, fails, Session, Exec, pure, raise, lift, query, guard, require, modify, flush,
  commit, flush_with, commit_with, continue, finish, ◌>>=◌,
}

-- The predicate holds of the committed tables and of those that the transaction sees.
abbrev pub Both : (Tables → Type 0) → Session → Type 0
Both P s = P s.durable × P s.current

-- What `m` leaves of such a session, whether it returns or raises.
pub record Keeps (P : Tables → Type 0) {A : Type 0} (m : Exec A) : Type 0 where
  pub left : (s : Session) → Both P s → Both P (m s).1

require-same : {A : Type 0} (o : Option A) (e : Error) (s : Session) → (require o e s).1 ≡ s
unfolding require
require-same none e s = refl
require-same (some a) e s = refl

flush-Both :
    (P : Tables → Type 0) (os : List Outcome) (s : Session) → Both P s → Both P (flush_with os s).1
unfolding flush_with
flush-Both P [] s both = both
flush-Both P (succeeds ∷ os) s both = both
flush-Both P (fails f ∷ os) s both = both

commit-Both :
    (P : Tables → Type 0) (os : List Outcome) (s : Session) → Both P s → Both P (commit_with os s).1
unfolding commit_with
commit-Both P [] s (_, seen) = (seen, seen)
commit-Both P (succeeds ∷ os) s (_, seen) = (seen, seen)
commit-Both P (fails f ∷ os) s both = both

module _ (P : Tables → Type 0) where
  pub modify-Keeps : (f : Tables → Tables) → ((t : Tables) → P t → P (f t)) → Keeps P (modify f)
  unfolding modify
  modify-Keeps f step = record { left = λ s (stored, seen). (stored, step s.current seen) }

  pub commit-Keeps : Keeps P commit
  unfolding commit
  commit-Keeps = record { left = λ s. commit-Both P s.outcomes s }

  pub flush-Keeps : Keeps P flush
  unfolding flush
  flush-Keeps = record { left = λ s. flush-Both P s.outcomes s }

  -- An action that leaves the session as it was.
  same-Keeps : {A : Type 0} (m : Exec A) → ((s : Session) → (m s).1 ≡ s) → Keeps P m
  same-Keeps m same = record { left = λ s both. rw (same s) both }

  pub guard-Keeps : (b : Bool) (e : Error) → Keeps P (guard b e)
  unfolding guard
  guard-Keeps b e = same-Keeps (guard b e) (λ s. refl)

  module _ {A : Type 0} where
    pub query-Keeps : (f : Tables → A) → Keeps P (query f)
    unfolding query
    query-Keeps f = same-Keeps (query f) (λ s. refl)

    pub require-Keeps : (o : Option A) (e : Error) → Keeps P (require o e)
    require-Keeps o e = same-Keeps (require o e) (require-same o e)

    pub lift-Keeps : (r : Result A) → Keeps P (lift r)
    unfolding lift
    lift-Keeps r = same-Keeps (lift r) (λ s. refl)

    pub raise-Keeps : (e : Error) → Keeps P (raise {A = A} e)
    unfolding raise
    raise-Keeps e = same-Keeps (raise {A = A} e) (λ s. refl)

    pub pure-Keeps : (a : A) → Keeps P (pure a)
    unfolding pure
    pure-Keeps a = same-Keeps (pure a) (λ s. refl)

    pub if-Keeps : (b : Bool) (m n : Exec A) → Keeps P m → Keeps P n → Keeps P (if b then m else n)
    if-Keeps false m n first other = other
    if-Keeps true m n first other = first

    continue-Both :
        {B : Type 0} (r : Result A) (f : A → Exec B) (s : Session)
        → ((a : A) → Keeps P (f a))
        → Both P s
        → Both P (continue r f s).1
    continue-Both (err e) f s rest both = both
    continue-Both (ok a) f s rest both = (rest a).left s both

    pub bind-Keeps :
        {B : Type 0} (m : Exec A) (f : A → Exec B)
        → Keeps P m
        → ((a : A) → Keeps P (f a))
        → Keeps P (m >>= f)
    unfolding ◌>>=◌
    bind-Keeps m f first rest = record {
      left = λ s both. continue-Both (m s).0 f (m s).1 rest (first.left s both);
    }

pub finish-Keeps :
    (P : Tables → Type 0) {A : Type 0} (f : Tables → Tables) (a : A)
    → ((t : Tables) → P t → P (f t))
    → Keeps P (finish f a)
unfolding finish
finish-Keeps P f a step =
    let last = bind-Keeps P _ _ (commit-Keeps P) (λ _. pure-Keeps P a) in
    bind-Keeps P _ _ (modify-Keeps P f step) (λ _. last)

pub ruleset keeps_rules = (
  modify-Keeps, commit-Keeps, flush-Keeps, guard-Keeps, query-Keeps, require-Keeps, lift-Keeps,
  raise-Keeps, pure-Keeps, if-Keeps, bind-Keeps, finish-Keeps,
)
