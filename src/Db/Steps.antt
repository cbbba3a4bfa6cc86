-- ===== src/Db/Steps.antt =====
-- What a run that returned tells of its first step: one lemma for each kind of step.
use society_agent.Prelude.{◌≡◌, refl, Bool, true, false, Option, none, some, List, [], ◌∷◌, arith}
use society_agent.Db.Models.{Tables}
use society_agent.Db.Errors.{Error, Result, ok, err}
use society_agent.Db.Session.{
  Outcome, succeeds, fails, Session, Exec, pure, lift, query, guard, require, modify, flush,
  flush_with, commit, commit_with, continue, finish, rollback_on_error, or_rollback, ◌>>=◌,
}

module _ {A B P : Type 0} where
  bind_from :
      (r : Result A × Session) (f : A → Exec B) {b : B} {s' : Session}
      → continue r.0 f r.1 ≡ (ok b, s')
      → ((a : A) (t : Session) → r ≡ (ok a, t) → f a t ≡ (ok b, s') → P)
      → P
  bind_from (ok a, t) f h k = k a t refl h
  bind_from (err e, t) f h k = cc

  pub bind_elim :
      (m : Exec A) (f : A → Exec B) (s : Session) {b : B} {s' : Session}
      → (m >>= f) s ≡ (ok b, s')
      → ((a : A) (t : Session) → m s ≡ (ok a, t) → f a t ≡ (ok b, s') → P)
      → P
  unfolding ◌>>=◌
  bind_elim m f s h k = bind_from (m s) f h k

  pub require_elim :
      (o : Option A) (e : Error) (f : A → Exec B) (s : Session) {b : B} {s' : Session}
      → (require o e >>= f) s ≡ (ok b, s')
      → ((a : A) → o ≡ some a → f a s ≡ (ok b, s') → P)
      → P
  unfolding require ◌>>=◌
  require_elim none e f s h k = cc
  require_elim (some a) e f s h k = k a refl h

  pub lift_elim :
      (r : Result A) (f : A → Exec B) (s : Session) {b : B} {s' : Session}
      → (lift r >>= f) s ≡ (ok b, s')
      → ((a : A) → r ≡ ok a → f a s ≡ (ok b, s') → P)
      → P
  unfolding lift ◌>>=◌
  lift_elim (ok a) f s h k = k a refl h
  lift_elim (err e) f s h k = cc

module _ {A B : Type 0} where
  pub lift-ok :
      (a : A) (f : A → Exec B) (s : Session) {r : Result B × Session}
      → (lift (ok a) >>= f) s ≡ r
      → f a s ≡ r
  unfolding lift ◌>>=◌
  lift-ok a f s h = h

  pub query-ok :
      (g : Tables → A) (f : A → Exec B) (s : Session) {r : Result B × Session}
      → (query g >>= f) s ≡ r
      → f (g s.current) s ≡ r
  unfolding query ◌>>=◌
  query-ok g f s h = h

module _ {B : Type 0} where
  pub modify-ok :
      (g : Tables → Tables) (f : Unit {0} → Exec B) (s : Session) {r : Result B × Session}
      → (modify g >>= f) s ≡ r
      → f tt (record s { current = g s.current }) ≡ r
  unfolding modify ◌>>=◌
  modify-ok g f s h = h

module _ {B P : Type 0} where
  pub guard_elim :
      (c : Bool) (e : Error) (f : Unit {0} → Exec B) (s : Session) {b : B} {s' : Session}
      → (guard c e >>= f) s ≡ (ok b, s')
      → (c ≡ true → f tt s ≡ (ok b, s') → P)
      → P
  unfolding guard ◌>>=◌
  guard_elim true e f s h k = k refl h
  guard_elim false e f s h k = cc

  flush_from :
      (os : List Outcome) (s : Session) (f : Unit {0} → Exec B) {b : B} {s' : Session}
      → continue (flush_with os s).0 f (flush_with os s).1 ≡ (ok b, s')
      → ((t : Session) → t.current ≡ s.current → t.durable ≡ s.durable → f tt t ≡ (ok b, s') → P)
      → P
  unfolding flush_with
  flush_from [] s f h k = k s refl refl h
  flush_from (succeeds ∷ os) s f h k = k (record s { outcomes = os }) refl refl h
  flush_from (fails x ∷ os) s f h k = cc

  -- A flush that succeeds changes no table.
  pub flush_elim :
      (f : Unit {0} → Exec B) (s : Session) {b : B} {s' : Session}
      → (flush >>= f) s ≡ (ok b, s')
      → ((t : Session) → t.current ≡ s.current → t.durable ≡ s.durable → f tt t ≡ (ok b, s') → P)
      → P
  unfolding ◌>>=◌ flush
  flush_elim f s h k = flush_from s.outcomes s f h k

module _ {A : Type 0} where
  commit_from :
      (os : List Outcome) (s : Session) (a : A) {b : A} {s' : Session}
      → continue (commit_with os s).0 (λ _. pure a) (commit_with os s).1 ≡ (ok b, s')
      → (b ≡ a) × (s'.current ≡ s.current) × (s'.durable ≡ s.current)
  unfolding commit_with pure
  commit_from [] s a h = ground arith
  commit_from (succeeds ∷ os) s a h = ground arith
  commit_from (fails f ∷ os) s a h = cc

  -- A commit that succeeds makes the transaction's tables the committed ones.
  pub finish-ok :
      (f : Tables → Tables) (a : A) (s : Session) {b : A} {s' : Session}
      → finish f a s ≡ (ok b, s')
      → (b ≡ a) × (s'.current ≡ f s.current) × (s'.durable ≡ f s.current)
  unfolding finish ◌>>=◌ commit modify
  finish-ok f a s h = commit_from s.outcomes (record s { current = f s.current }) a h

  rollback_from :
      (r : Result A × Session) {b : A} {s' : Session}
      → rollback_on_error r ≡ (ok b, s')
      → r ≡ (ok b, s')
  rollback_from (ok a, t) h = h
  rollback_from (err e, t) h = cc

  pub or_rollback-ok :
      (m : Exec A) (s : Session) {b : A} {s' : Session}
      → or_rollback m s ≡ (ok b, s')
      → m s ≡ (ok b, s')
  unfolding or_rollback
  or_rollback-ok m s h = rollback_from (m s) h
