-- ===== src/Workflow/Permit.antt =====
-- How the services act on a workflow decision: the lines that follow each call of `check_action`.
use text.Mathlib.Text.{◌==◌ as str_eq}
use society_agent.Prelude.{
  ℕ, String, ◌≡◌, Bool, true, false, not, ◌||◌, Option, none, some, arith, get_or, if◌then◌else◌,
}
use society_agent.Db.Errors.{workflow, ok}
use society_agent.Db.Session.{Session, Exec, pure, raise, query, modify, ◌>>=◌}
use society_agent.Db.Atomic.{Quiet, quiet_rules}
use society_agent.Workflow.Rules.{Action, action_text}
use society_agent.Workflow.Engine.{Decision, check_action, apply_override}

-- Python's truth value of an optional text.
abbrev pub is_truthy : Option String → Bool
is_truthy none = false
is_truthy (some s) = not (str_eq s "")

settle : Decision → Option String → Exec Bool
settle d reason =
    if d.allowed
    then pure false
    else if not d.requires_override
    then raise (workflow d.message)
    else if not (is_truthy reason)
    then raise (workflow d.message)
    else pure true

-- The result tells whether the action goes on as an override.
unfoldable pub permit : ℕ → Action → Option ℕ → Option String → Exec Bool
unfolding settle
permit event_id action performed_by reason = do
  d ← query (λ t. check_action t event_id action performed_by reason)
  settle d reason

unfoldable pub log_override :
    Bool → ℕ → String → ℕ → String → Option String → Option ℕ → Exec (Unit {0})
log_override is_override society_id entity_type entity_id action reason performed_by =
    if is_override
    then apply_override society_id entity_type entity_id action (get_or reason "") performed_by
    else pure tt

-- The same, with the audit row of an override written at once.
unfoldable pub ensure_permitted :
    ℕ → ℕ → String → ℕ → Action → Option ℕ → Option String → Exec (Unit {0})
unfolding log_override
ensure_permitted society_id event_id entity_type entity_id action performed_by reason = do
  is_override ← permit event_id action performed_by reason
  log_override is_override society_id entity_type entity_id (action_text action) reason performed_by

settle-Quiet : (d : Decision) (r : Option String) → Quiet (settle d r)
unfolding settle
settle-Quiet d r = search quiet_rules depth 8

pub permit-Quiet : (e : ℕ) (a : Action) (p : Option ℕ) (r : Option String) → Quiet (permit e a p r)
unfolding permit
permit-Quiet e a p r = search (quiet_rules, settle-Quiet)

pub log_override-Quiet :
    (b : Bool) (soc : ℕ) (et : String) (en : ℕ) (a : String) (r : Option String) (p : Option ℕ)
    → Quiet (log_override b soc et en a r p)
unfolding log_override apply_override
log_override-Quiet b soc et en a r p = search quiet_rules

pub ensure_permitted-Quiet :
    (soc e : ℕ) (et : String) (en : ℕ) (a : Action) (p : Option ℕ) (r : Option String)
    → Quiet (ensure_permitted soc e et en a p r)
unfolding ensure_permitted
ensure_permitted-Quiet soc e et en a p r = search (quiet_rules, permit-Quiet, log_override-Quiet)

-- A step that goes on has left the session as it was, but for rows added to the audit log.
abbrev pub OnlyAudits : Session → Session → Type 0
OnlyAudits s s' =
    (s'.durable ≡ s.durable)
    × (s'.current ≡ record s.current { audit_logs = s'.current.audit_logs })
    × (s'.outcomes ≡ s.outcomes)

pub permit-ok :
    (e : ℕ) (a : Action) (p : Option ℕ) (r : Option String) {b : Bool} (s : Session) {s' : Session}
    → permit e a p r s ≡ (ok b, s')
    → (s' ≡ s)
      × (b ≡ not (check_action s.current e a p r).allowed)
      × (((check_action s.current e a p r).allowed
            || (check_action s.current e a p r).requires_override)
          ≡ true)
unfolding permit ◌>>=◌
permit-ok e a p r s h = ground arith

pub log_override-ok :
    (b : Bool) (soc : ℕ) (et : String) (en : ℕ) (a : String) (r : Option String) (p : Option ℕ)
    {u : Unit {0}} (s : Session) {s' : Session}
    → log_override b soc et en a r p s ≡ (ok u, s')
    → OnlyAudits s s'
unfolding log_override apply_override modify ◌>>=◌
log_override-ok b soc et en a r p s h = ground arith

pub ensure_permitted-ok :
    (soc e : ℕ) (et : String) (en : ℕ) (a : Action) (p : Option ℕ) (r : Option String)
    {u : Unit {0}} (s : Session) {s' : Session}
    → ensure_permitted soc e et en a p r s ≡ (ok u, s')
    → OnlyAudits s s'
      × (((check_action s.current e a p r).allowed
            || (check_action s.current e a p r).requires_override)
          ≡ true)
unfolding ensure_permitted permit apply_override modify ◌>>=◌
ensure_permitted-ok soc e et en a p r s h = ground arith
