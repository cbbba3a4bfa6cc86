-- ===== src/Db/Session.antt =====
-- A SQLAlchemy session: what is committed, what the transaction sees, and how the database will
-- answer the flushes and commits to come. A service is an action on the session; what it wrote
-- before an exception stays in the transaction. The session is made with `autoflush=False`
-- (app/db/session.py), so a query does not see a row that was added and not flushed: where a service
-- queries a table to which it has just added, the query stands before the `modify`.
use society_agent.Prelude.{Bool, Option, none, some, List, [], ◌∷◌, if◌then◌else◌}
use society_agent.Db.Models.{Tables}
use society_agent.Db.Errors.{DbFault, Error, database, Result, ok, err}

pub data Outcome : Type 0 where
  succeeds : Outcome
  fails : DbFault → Outcome

-- After the listed outcomes every flush and commit succeeds.
pub record Session : Type 0 where
  pub durable : Tables
  pub current : Tables
  pub outcomes : List Outcome

abbrev pub Exec : Type 0 → Type 0
Exec A = Session → Result A × Session

module _ {A : Type 0} where
  unfoldable pub pure : A → Exec A
  pure a s = (ok a, s)

  unfoldable pub raise : Error → Exec A
  raise e s = (err e, s)

  unfoldable pub lift : Result A → Exec A
  lift r s = (r, s)

  -- A query on what the transaction sees.
  unfoldable pub query : (Tables → A) → Exec A
  query f s = (ok (f s.current), s)

-- `if not ok: raise e`
unfoldable pub guard : Bool → Error → Exec (Unit {0})
guard b e s = (if b then ok tt else err e, s)

module _ {A B : Type 0} where
  abbrev pub continue : Result A → (A → Exec B) → Session → Result B × Session
  continue (ok a) f s = f a s
  continue (err e) f s = (err e, s)

  infixl 10 ◌>>=◌ ◌>>◌
  unfoldable pub ◌>>=◌ : Exec A → (A → Exec B) → Exec B
  unfolding pure raise lift query guard
  ◌>>=◌ m f s = let (r, s') = m s in continue r f s'

  abbrev pub ◌>>◌ : Exec A → Exec B → Exec B
  m >> n = m >>= λ _. n

-- `if not found: raise e`
unfoldable pub require : {A : Type 0} → Option A → Error → Exec A
require none e s = (err e, s)
require (some a) e s = (ok a, s)

-- `db.add`, and assignments to rows
unfoldable pub modify : (Tables → Tables) → Exec (Unit {0})
modify f s = (ok tt, record s { current = f s.current })

unfoldable pub flush_with : List Outcome → Exec (Unit {0})
flush_with [] s = (ok tt, s)
flush_with (succeeds ∷ rest) s = (ok tt, record s { outcomes = rest })
flush_with (fails f ∷ rest) s = (err (database f), record s { outcomes = rest })

unfoldable pub flush : Exec (Unit {0})
unfolding flush_with
flush s = flush_with s.outcomes s

unfoldable pub commit_with : List Outcome → Exec (Unit {0})
commit_with [] s = (ok tt, record s { durable = s.current })
commit_with (succeeds ∷ rest) s = (ok tt, record s { durable = s.current; outcomes = rest })
commit_with (fails f ∷ rest) s = (err (database f), record s { outcomes = rest })

unfoldable pub commit : Exec (Unit {0})
unfolding commit_with
commit s = commit_with s.outcomes s

unfoldable pub rollback : Exec (Unit {0})
rollback s = (ok tt, record s { current = s.durable })

-- The writes of a service, `db.commit()`, and what it returns.
unfoldable pub finish : {A : Type 0} → (Tables → Tables) → A → Exec A
finish f a = do modify f; commit; pure a

abbrev pub rolled_back : Session → Session
rolled_back s = record s { current = s.durable }

-- `except Exception: db.rollback(); raise` around an action.
abbrev pub rollback_on_error : {A : Type 0} → Result A × Session → Result A × Session
rollback_on_error (ok a, s) = (ok a, s)
rollback_on_error (err e, s) = (err e, rolled_back s)

unfoldable pub or_rollback : {A : Type 0} → Exec A → Exec A
or_rollback m s = rollback_on_error (m s)
