-- ===== src/Events/Consistency.antt =====
-- Events that are created, advanced and closed in any order: the event row and the workflow row
-- keep telling the same state.
use mathlib.Core.Path.{subst}
use society_agent.Prelude.{
  ℕ, String, ◌≡◌, refl, sym, ◌∙◌, false, inl, inr, Option, none, some, List, [], ◌∷◌, ◌++◌, arith,
  find_first-add_self, find_first-add_ne, ==_refl, Bool-cases, ◌==◌,
}
use society_agent.Validation.{RawId}
use society_agent.Db.{Event, EventState, WorkflowState, Tables}
use society_agent.Db.Errors.{Result, ok, err}
use society_agent.Db.Session.{Session}
use society_agent.Db.Query.{find_event, find_workflow}
use society_agent.Workflow.Rules.{Action}
use society_agent.Events.Service.{
  Transition, advance, CloseInput, close, EventInput, new_event, new_workflow, create,
}
use society_agent.Events.Changes.{
  Moved, Closed, advance-ids, advance-ok, close-ok, create-ok, advance-Atomic, close-Atomic,
  create-Atomic,
}
use society_agent.Events.Lifecycle.{moved_event, moved_workflow, event_other, workflow_other}

-- An event row and a workflow row of the same event tell the same state.
abbrev pub IsConsistent : Tables → Type 0
IsConsistent t =
    (e : ℕ) (event : Event) (w : WorkflowState)
    → find_event e t ≡ some event
    → find_workflow e t ≡ some w
    → event.status ≡ w.current_state

Moved-IsConsistent :
    {e : ℕ} {a : Action} {p : Option ℕ} {r : Option String} {st : EventState} {ns : List String}
    {t t' : Tables}
    → Moved e a p r st ns t t'
    → IsConsistent t
    → IsConsistent t'
Moved-IsConsistent {e} {t = t} {t' = t'} m h e' event w fe fw = elim (Bool-cases (e == e')) [
  | inl eq ↦
      let same : e ≡ e' = ground arith in
      let fe' : find_event e t' ≡ some event = rw same fe in
      let fw' : find_workflow e t' ≡ some w = rw same fw in
      ground (arith, moved_event m, moved_workflow m)
  | inr ne ↦ h e' event w (sym (event_other m e' ne) ∙ fe) (sym (workflow_other m e' ne) ∙ fw)
]

-- A fresh identifier names no event yet, and no workflow row.
abbrev pub IsFresh : ℕ → Tables → Type 0
IsFresh n t = (find_event n t ≡ none) × (find_workflow n t ≡ none)

-- The tables after an event was added.
abbrev Created : EventInput → ℕ → Tables → Tables → Type 0
Created i p t t' = t' ≡ record t {
  events = t.events ++ new_event i p ∷ [];
  workflow_states = t.workflow_states ++ new_workflow i.new_id ∷ [];
  audit_logs = t'.audit_logs;
}

Created-self :
    (i : EventInput) (p : ℕ) (t t' : Tables)
    → Created i p t t'
    → IsFresh i.new_id t
    → (find_event i.new_id t' ≡ some (new_event i p))
      × (find_workflow i.new_id t' ≡ some (new_workflow i.new_id))
unfolding find_event find_workflow
Created-self i p t t' written fresh = (
  rw written (find_first-add_self _ t.events (new_event i p) fresh.0 (==_refl i.new_id)),
  rw written
      (find_first-add_self _ t.workflow_states (new_workflow i.new_id) fresh.1 (==_refl i.new_id)),
)

Created-other :
    (i : EventInput) (p : ℕ) (t t' : Tables) (e : ℕ)
    → Created i p t t'
    → (i.new_id == e) ≡ false
    → (find_event e t' ≡ find_event e t) × (find_workflow e t' ≡ find_workflow e t)
unfolding find_event find_workflow
Created-other i p t t' e written ne = (
  rw written (find_first-add_ne _ t.events (new_event i p) ne),
  rw written (find_first-add_ne _ t.workflow_states (new_workflow i.new_id) ne),
)

Created-IsConsistent :
    (i : EventInput) (p : ℕ) (t t' : Tables)
    → Created i p t t'
    → IsFresh i.new_id t
    → IsConsistent t
    → IsConsistent t'
Created-IsConsistent i p t t' written fresh h e event w fe fw = elim (Bool-cases (i.new_id == e)) [
  | inl eq ↦
      let same : i.new_id ≡ e = ground arith in
      let fe' : find_event i.new_id t' ≡ some event = rw same fe in
      let fw' : find_workflow i.new_id t' ≡ some w = rw same fw in
      ground (arith, Created-self i p t t' written fresh)
  | inr ne ↦
      let other : (find_event e t' ≡ find_event e t) × (find_workflow e t' ≡ find_workflow e t) =
        Created-other i p t t' e written ne in
      h e event w (sym other.0 ∙ fe) (sym other.1 ∙ fw)
]

-- One call of the event service in a session with no uncommitted change, whether it returns or
-- raises. A new event has an identifier that names nothing yet.
pub data Step (t t' : Tables) : Type 0 where
  creates :
      (i : EventInput) (s : Session)
      → s.current ≡ t
      → s.durable ≡ t
      → IsFresh i.new_id t
      → (create i s).1.durable ≡ t'
      → Step t t'
  advances :
      (tr : Transition) (e m : RawId) (r : Option String) (s : Session)
      → s.current ≡ t
      → s.durable ≡ t
      → (advance tr e m r s).1.durable ≡ t'
      → Step t t'
  closes :
      (i : CloseInput) (s : Session)
      → s.current ≡ t
      → s.durable ≡ t
      → (close i s).1.durable ≡ t'
      → Step t t'

pub data Reach (t : Tables) : Tables → Type 0 where
  here : Reach t t
  next : {u v : Tables} → Reach t u → Step u v → Reach t v

create-IsConsistent :
    (i : EventInput) (s : Session) (r : Result Event × Session)
    → create i s ≡ r
    → IsFresh i.new_id s.current
    → IsConsistent s.current
    → s.current ≡ s.durable
    → IsConsistent r.1.durable
create-IsConsistent i s (err e, s') run fresh h clean =
    rw (rw run at ((create-Atomic i).at s)) (rw (sym clean) h)
create-IsConsistent i s (ok event, s') run fresh h clean =
    let (p, _, _, written) = create-ok i s run in
    Created-IsConsistent i p s.current s'.durable written fresh h

advance-IsConsistent :
    (tr : Transition) (e m : RawId) (reason : Option String) (s : Session)
    (r : Result (Unit {0}) × Session)
    → advance tr e m reason s ≡ r
    → IsConsistent s.current
    → s.current ≡ s.durable
    → IsConsistent r.1.durable
advance-IsConsistent tr e m reason s (err x, s') run h clean =
    rw (rw run at ((advance-Atomic tr e m reason).at s)) (rw (sym clean) h)
advance-IsConsistent tr e m reason s (ok u, s') run h clean =
    let (e', m', is_e, is_m) = advance-ids tr e m reason s run in
    Moved-IsConsistent (advance-ok tr e' m' reason s (rw (is_e, is_m) at run)) h

close-IsConsistent :
    (i : CloseInput) (s : Session) (r : Result (Unit {0}) × Session)
    → close i s ≡ r
    → IsConsistent s.current
    → s.current ≡ s.durable
    → IsConsistent r.1.durable
close-IsConsistent i s (err x, s') run h clean =
    rw (rw run at ((close-Atomic i).at s)) (rw (sym clean) h)
close-IsConsistent i s (ok u, s') run h clean =
    let c : Closed i s.current s'.durable = close-ok i s run in Moved-IsConsistent c.moved h

Step-IsConsistent : {t t' : Tables} → Step t t' → IsConsistent t → IsConsistent t'
Step-IsConsistent (creates i s seen kept fresh to) h =
    subst IsConsistent to
      (create-IsConsistent i s (create i s) refl (rw seen fresh) (rw seen h) (seen ∙ sym kept))
Step-IsConsistent (advances tr e m r s seen kept to) h =
    subst IsConsistent to
      (advance-IsConsistent tr e m r s (advance tr e m r s) refl (rw seen h) (seen ∙ sym kept))
Step-IsConsistent (closes i s seen kept to) h =
    subst IsConsistent to (close-IsConsistent i s (close i s) refl (rw seen h) (seen ∙ sym kept))

-- However events are created, advanced and closed, with or without overrides, and whether each call
-- returns or raises: where every event row and workflow row of one event tell the same state, they
-- go on doing so.
pub Reach-IsConsistent : {t t' : Tables} → Reach t t' → IsConsistent t → IsConsistent t'
Reach-IsConsistent here h = h
Reach-IsConsistent (next r st) h = Step-IsConsistent st (Reach-IsConsistent r h)
