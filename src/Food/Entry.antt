-- ===== src/Food/Entry.antt =====
-- app/modules/events/food_collection_service.py: what every operation on food tokens asks first.
use Prim.Native.String
use society_agent.Prelude.{
  none, ◌⊎◌, ◌≡◌, arith, ℕ, String, not, Option, List, [], ◌∷◌, get_or, if◌then◌else◌,
}
use society_agent.Db.Keeps.{Keeps, keeps_rules}
use society_agent.Db.{Event, AuditLog, Tables}
use society_agent.Db.Errors.{ok, Error, workflow, invalid_event}
use society_agent.Db.Session.{
  Session, modify, Exec, pure, raise, lift, query, require, finish, ◌>>=◌, ◌>>◌,
}
use society_agent.Db.Query.{find_event, add_audit}
use society_agent.Workflow.Rules.{Action, action_text}
use society_agent.Workflow.Engine.{Decision, check_action, apply_override, is_missing}
use society_agent.Security.Access.{require_committee_roles}

-- `_FOOD_OPERATION_ALLOWED_ROLES`
abbrev pub food_roles : List String
food_roles = "chairman" ∷ "secretary" ∷ "treasurer" ∷ "committee_member" ∷ []

-- The event, and a performer of its society with one of the roles.
unfoldable pub require_event_roles : ℕ → Option ℕ → Exec Event
require_event_roles event_id performed_by = do
  event ← require (← query (find_event event_id)) invalid_event
  lift (← query (require_committee_roles event.society_id performed_by food_roles))
  pure event

follow : Decision → Event → ℕ → Action → Option ℕ → Option String → Exec (Unit {0})
follow d event event_id action performed_by reason =
    if d.allowed
    then pure tt
    else if not d.requires_override
    then raise (workflow d.message)
    else if is_missing reason
    then raise (workflow d.message)
    else apply_override event.society_id "food_collection" event_id (action_text action)
        (get_or reason "") performed_by

-- `_ensure_workflow_action_allowed`
unfoldable pub ensure_workflow_action_allowed :
    Event → ℕ → Action → Option ℕ → Option String → Exec (Unit {0})
unfolding follow
ensure_workflow_action_allowed event event_id action performed_by reason = do
  d ← query (λ t. check_action t event_id action performed_by reason)
  follow d event event_id action performed_by reason

pub ensure_workflow_action_allowed-Keeps :
    (P : Tables → Type 0)
    → ((row : AuditLog) (t : Tables) → P t → P (add_audit row t))
    → (event : Event) (e : ℕ) (a : Action) (p : Option ℕ) (r : Option String)
    → Keeps P (ensure_workflow_action_allowed event e a p r)
unfolding ensure_workflow_action_allowed follow apply_override
ensure_workflow_action_allowed-Keeps P k event e a p r = search (keeps_rules, k) depth 14

-- The row that `apply_override` writes.
abbrev pub override_row : Event → ℕ → Action → Option ℕ → Option String → AuditLog
override_row event event_id action performed_by reason = record {
  society_id = event.society_id;
  entity_type = "food_collection";
  entity_id = event_id;
  action = String.◌++◌ "OVERRIDE_" (action_text action);
  reason = get_or reason "";
  source = none;
  performed_by = performed_by;
  performed_at = none;
}

-- A call that returns has written nothing, or the row of an override.
pub ensure_workflow_action_allowed-ok :
    (event : Event) (e : ℕ) (a : Action) (p : Option ℕ) (r : Option String) (s : Session)
    {u : Unit {0}} {s' : Session}
    → ensure_workflow_action_allowed event e a p r s ≡ (ok u, s')
    → (s' ≡ s) ⊎ (s' ≡ record s { current = add_audit (override_row event e a p r) s.current })
unfolding ensure_workflow_action_allowed follow apply_override modify ◌>>=◌
ensure_workflow_action_allowed-ok event e a p r s h = ground arith

-- `db.add(AuditLog(…)); db.commit(); raise …`
unfoldable pub reject_with : {A : Type 0} → AuditLog → Error → Exec A
reject_with row e = do finish (add_audit row) tt; raise e
