-- ===== src/Workflow/Engine.antt =====
-- app/workflows/engine.py
use Prim.Native.String
use society_agent.Prelude.{
  ℕ, String, Bool, true, false, not, ◌&&◌, Option, none, some, List, [], ◌∷◌, if◌then◌else◌,
}
use society_agent.Text.{is_blank, contains}
use society_agent.Db.{EventState, CommitteeMember, WorkflowState, Tables, closed}
use society_agent.Db.Errors.{
  Message, state_missing, performer_required, role_required, reason_required, override_required,
}
use society_agent.Db.Session.{Exec, modify}
use society_agent.Db.Query.{find_workflow, find_member, add_audit}
use society_agent.Workflow.Rules.{Action, action_text, allows}

-- `WorkflowDecision`
pub record Decision : Type 0 where
  pub allowed : Bool
  pub requires_override : Bool
  pub message : Message

abbrev pub override_roles : List String
override_roles = "chairman" ∷ "secretary" ∷ "treasurer" ∷ []

-- `current_state == "CLOSED"`
abbrev pub is_closed : EventState → Bool
is_closed closed = true
is_closed _ = false

-- `not override_reason or not override_reason.strip()`
abbrev pub is_missing : Option String → Bool
is_missing none = true
is_missing (some s) = is_blank s

-- `member and member.is_active and member.role in OVERRIDE_ROLES`; the role is compared as stored.
unfoldable pub may_override : Option CommitteeMember → Bool
may_override none = false
may_override (some m) = m.is_active && contains m.role override_roles

deny : Message → Decision
deny m = record { allowed = false; requires_override = false; message = m }

-- What follows when the state does not list the action.
decide_override : Tables → EventState → Action → Option ℕ → Option String → Decision
unfolding deny
decide_override t st a none reason = deny (performer_required (is_closed st))
decide_override t st a (some m) reason =
    if not (may_override (find_member m t))
    then deny (role_required (is_closed st))
    else if is_missing reason
    then deny (reason_required (is_closed st))
    else record {
      allowed = false;
      requires_override = true;
      message = override_required (action_text a) st;
    }

decide_in : Tables → EventState → Action → Option ℕ → Option String → Decision
unfolding decide_override
decide_in t st a performer reason =
    if allows st a
    then record { allowed = true; requires_override = false; message = Message.allowed }
    else decide_override t st a performer reason

decide_row : Tables → Option WorkflowState → Action → Option ℕ → Option String → Decision
unfolding decide_in deny
decide_row t none a performer reason = deny state_missing
decide_row t (some w) a performer reason = decide_in t w.current_state a performer reason

-- `WorkflowEngine.check_action`; the performer is an identifier or `None`.
unfoldable pub check_action : Tables → ℕ → Action → Option ℕ → Option String → Decision
unfolding decide_row
check_action t event_id a performer reason =
    decide_row t (find_workflow event_id t) a performer reason

-- `WorkflowEngine.apply_override`
unfoldable pub apply_override : ℕ → String → ℕ → String → String → Option ℕ → Exec (Unit {0})
apply_override society_id entity_type entity_id action reason performed_by = modify (
    add_audit (record {
      society_id = society_id;
      entity_type = entity_type;
      entity_id = entity_id;
      action = String.◌++◌ "OVERRIDE_" action;
      reason = reason;
      performed_by = performed_by;
      source = none;
      performed_at = none;
    }))
