-- ===== src/Db/Ran.antt =====
-- One call of a service, from one committed state to the next.
use society_agent.Prelude.{◌≡◌, refl, sym}
use mathlib.Core.Path.{subst}
use society_agent.Db.Models.{Tables}
use society_agent.Db.Errors.{Result, ok, err}
use society_agent.Db.Session.{Session, Exec}
use society_agent.Db.Atomic.{Atomic}

-- A session with no uncommitted change.
abbrev pub IsClean : Session → Type 0
IsClean s = s.current ≡ s.durable

-- The call is made in a session of its own, with any answers of the database, and returns or raises.
pub record Ran {A : Type 0} (m : Exec A) (t t' : Tables) : Type 0 where
  pub session : Session
  pub clean : IsClean session
  pub before : session.durable ≡ t
  pub after : (m session).1.durable ≡ t'

-- What a call that returns keeps true is kept true by every call, if it does nothing when it raises.
module _ {A : Type 0} (P : Tables → Type 0) (m : Exec A) (atomic : Atomic m)
    (keeps : (s : Session) (a : A) (s' : Session)
      → IsClean s
      → m s ≡ (ok a, s')
      → P s.durable
      → P s'.durable) where
  ended-Predicate :
      (s : Session) (r : Result A × Session) → m s ≡ r → IsClean s → P s.durable → P r.1.durable
  ended-Predicate s (ok a, s') run clean h = keeps s a s' clean run h
  ended-Predicate s (err e, s') run clean h = subst P (sym (rw run at (atomic.at s))) h

  pub Ran-keeps : {t t' : Tables} → Ran m t t' → P t → P t'
  Ran-keeps r h =
      subst P r.after
        (ended-Predicate r.session (m r.session) refl r.clean (subst P (sym r.before) h))
