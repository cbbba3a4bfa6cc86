-- ===== src/Workflow/Decisions.antt =====
-- What `check_action` decides, on every branch.
use text.Mathlib.TextEquality.{eq_iff}
use society_agent.Prelude.{
  ℕ, String, ◌≡◌, refl, ap, ◌⊎◌, ◌↔◌, ◌==◌, true, false, Option, none, some, arith,
  find_first_sound,
}
use society_agent.Text.{is_blank, contains}
use society_agent.Db.{CommitteeMember, WorkflowState, Tables, closed}
use society_agent.Db.Query.{find_workflow, find_member}
use society_agent.Workflow.Rules.{Action, allows}
use society_agent.Workflow.Engine.{is_missing, may_override, check_action}

-- An action is allowed exactly when the event has a workflow row whose state lists the action.
pub check_action-allowed :
    (t : Tables) (e : ℕ) (a : Action) (p : Option ℕ) (r : Option String)
    → ((check_action t e a p r).allowed ≡ true)
      ↔ ((w : WorkflowState) × (find_workflow e t ≡ some w) × (allows w.current_state a ≡ true))
unfolding check_action
check_action-allowed t e a p r = (λ h. ground arith, λ h. ground arith)

-- The members who may override.
abbrev pub IsOverrider : CommitteeMember → Type 0
IsOverrider member =
    (member.is_active ≡ true)
    × ((member.role ≡ "chairman") ⊎ (member.role ≡ "secretary") ⊎ (member.role ≡ "treasurer"))

may_override_iff :
    (o : Option CommitteeMember)
    → (may_override o ≡ true)
      ↔ ((member : CommitteeMember) × (o ≡ some member) × IsOverrider member)
unfolding may_override contains
may_override_iff none = (λ h. cc, λ h. ground arith)
may_override_iff (some x) = (
  λ h. (
    x,
    refl,
    (
      ground arith,
      ground
          (arith, eq_iff x.role "chairman", eq_iff x.role "secretary", eq_iff x.role "treasurer"),
    ),
  ),
  λ h.
      let (member, same, (is_active, role)) = h in
      let it : x ≡ member = ground arith in
      ground (
        arith,
        eq_iff x.role "chairman",
        eq_iff x.role "secretary",
        eq_iff x.role "treasurer",
        ap (λ (y : CommitteeMember). y.role) it,
        ap (λ (y : CommitteeMember). y.is_active) it,
      ),
)

find_member_sound :
    (m : ℕ) (t : Tables) {member : CommitteeMember} → find_member m t ≡ some member → member.id ≡ m
unfolding find_member
find_member_sound m t {member} h =
    ground (arith, find_first_sound (λ row. row.id == m) t.committee_members h)

pub override_guards :
    (t : Tables) (e : ℕ) (a : Action) (p : Option ℕ) (r : Option String)
    → ((check_action t e a p r).requires_override ≡ true) ↔ (
        (w : WorkflowState) × (m : ℕ) × (find_workflow e t ≡ some w)
        × (allows w.current_state a ≡ false)
        × (p ≡ some m)
        × (may_override (find_member m t) ≡ true)
        × (is_missing r ≡ false))
unfolding check_action
override_guards t e a p r = (λ h. ground arith, λ h. ground arith)

given_iff :
    (r : Option String)
    → (is_missing r ≡ false) ↔ ((text : String) × (r ≡ some text) × (is_blank text ≡ false))
given_iff none = (λ h. cc, λ h. ground arith)
given_iff (some s) = (λ h. (s, refl, h), λ h. ground arith)

-- An override is offered exactly when the workflow row does not list the action, the row of the
-- performer in the member table is active and has the role "chairman", "secretary" or "treasurer", and
-- a reason is given that is not blank.
pub check_action-requires_override :
    (t : Tables) (e : ℕ) (a : Action) (p : Option ℕ) (r : Option String)
    → ((check_action t e a p r).requires_override ≡ true) ↔ (
        (w : WorkflowState) × (m : ℕ) × (find_workflow e t ≡ some w)
        × (allows w.current_state a ≡ false)
        × (p ≡ some m)
        × ((member : CommitteeMember) × (find_member m t ≡ some member)
            × (member.id ≡ m)
            × IsOverrider member)
        × ((text : String) × (r ≡ some text) × (is_blank text ≡ false)))
check_action-requires_override t e a p r =
    let (to, from) = override_guards t e a p r in
    (
      λ h.
          let (w, m, row, unlisted, performer, permitted, given) = to h in
          let (member, found, overrides) = (may_override_iff (find_member m t)).0 permitted in
          (
            w,
            m,
            row,
            unlisted,
            performer,
            (member, found, find_member_sound m t found, overrides),
            (given_iff r).0 given,
          ),
      λ h.
          let (w, m, row, unlisted, performer, (member, found, _, overrides), given) = h in
          from (
            w,
            m,
            row,
            unlisted,
            performer,
            (may_override_iff (find_member m t)).1 (member, found, overrides),
            (given_iff r).1 given,
          ),
    )

-- No decision both allows the action and asks for an override.
pub check_action-exclusive :
    (t : Tables) (e : ℕ) (a : Action) (p : Option ℕ) (r : Option String)
    → (check_action t e a p r).allowed ≡ true
    → (check_action t e a p r).requires_override ≡ false
unfolding check_action
check_action-exclusive t e a p r h = ground arith

-- An event that is closed allows no action: whatever is asked, the decision is an override at most.
pub check_action-closed :
    (t : Tables) (e : ℕ) (a : Action) (p : Option ℕ) (r : Option String) (w : WorkflowState)
    → find_workflow e t ≡ some w
    → w.current_state ≡ closed
    → (check_action t e a p r).allowed ≡ false
unfolding check_action allows
check_action-closed t e a p r w h k = ground arith
