-- ===== src/Security/Guarantees.antt =====
-- What passing the access checks means, and the role table read as a policy.
use text.Mathlib.Text.{◌==◌ as str_eq}
use text.Mathlib.TextEquality.{eq_iff}
use society_agent.Prelude.{
  ℕ, String, ◌≡◌, refl, ◌↔◌, ◌⊎◌, inl, inr, true, false, Option, some, List, [], arith, ◌==◌, ◌&&◌,
  find_first_sound, find_first,
}
use society_agent.Text.{contains, strip, lower}
use society_agent.Db.{CommitteeMember, Tables}
use society_agent.Db.Errors.{ok}
use society_agent.Security.Roles.{role_actions, is_action_allowed}
use society_agent.Security.Access.{
  find_active_member, normal_role, require_committee_action, require_committee_roles,
}

pub require_committee_action-granted :
    (society_id : ℕ) (p : Option ℕ) (action : String) (t : Tables)
    → (require_committee_action society_id p action t ≡ ok tt) ↔ (
        (id : ℕ) × (m : CommitteeMember) × (p ≡ some id)
        × (find_active_member society_id id t ≡ some m)
        × (str_eq (normal_role m) "" ≡ false)
        × (is_action_allowed (normal_role m) action ≡ true))
unfolding require_committee_action
require_committee_action-granted society_id p action t = (λ h. ground arith, λ h. ground arith)

-- The check on a set of roles passes exactly for a performer who is an active committee member of
-- that society, with a role that is not blank and stands in the set.
pub require_committee_roles-ok :
    (society_id : ℕ) (p : Option ℕ) (roles : List String) (t : Tables)
    → (require_committee_roles society_id p roles t ≡ ok tt) ↔ (
        (id : ℕ) × (m : CommitteeMember) × (p ≡ some id)
        × (find_active_member society_id id t ≡ some m)
        × (str_eq (normal_role m) "" ≡ false)
        × (contains (normal_role m) roles ≡ true))
unfolding require_committee_roles
require_committee_roles-ok society_id p roles t = (λ h. ground arith, λ h. ground arith)

pub find_active_member_sound :
    (society_id id : ℕ) (t : Tables) {m : CommitteeMember}
    → find_active_member society_id id t ≡ some m
    → (m.id ≡ id) × (m.society_id ≡ society_id) × (m.is_active ≡ true)
unfolding find_active_member
find_active_member_sound society_id id t {m} h =
    let key =
      find_first_sound (λ row. row.id == id && row.society_id == society_id && row.is_active)
        t.committee_members h in
    (ground (arith, key), ground (arith, key), ground (arith, key))

-- The four roles of the table, or none of them.
Role-cases :
    (role : String)
    → (role ≡ "chairman")
      ⊎ (role ≡ "secretary")
      ⊎ (role ≡ "treasurer")
      ⊎ (role ≡ "committee_member")
      ⊎ ((role_actions role ≡ [])
          × (str_eq role "chairman" ≡ false)
          × (str_eq role "treasurer" ≡ false))
unfolding role_actions
Role-cases role = ground (
  arith,
  eq_iff role "chairman",
  eq_iff role "secretary",
  eq_iff role "treasurer",
  eq_iff role "committee_member",
)

-- What a role of the table may do: the chairman everything, the other roles the actions that are listed
-- for them.
abbrev pub IsPermitted : String → String → Type 0
IsPermitted role action =
    (role ≡ "chairman")
    ⊎ (((role ≡ "secretary") ⊎ (role ≡ "treasurer") ⊎ (role ≡ "committee_member"))
        × (contains action (role_actions role) ≡ true))

allowed_iff :
    (role action : String) → (is_action_allowed role action ≡ true) ↔ IsPermitted role action
unfolding is_action_allowed role_actions contains
allowed_iff role action = (
  λ h. ground (
    arith,
    eq_iff role "chairman",
    eq_iff role "secretary",
    eq_iff role "treasurer",
    eq_iff role "committee_member",
  ),
  λ h. ground (
    arith,
    eq_iff role "chairman",
    eq_iff role "secretary",
    eq_iff role "treasurer",
    eq_iff role "committee_member",
  ),
)

abbrev pub IsMoneyAction : String → String → Type 0
IsMoneyAction action role =
    (is_action_allowed role action ≡ true) ↔ ((role ≡ "chairman") ⊎ (role ≡ "treasurer"))

IsMoneyAction-other :
    (action role : String)
    → str_eq role "chairman" ≡ false
    → str_eq role "treasurer" ≡ false
    → is_action_allowed role action ≡ false
    → IsMoneyAction action role
IsMoneyAction-other action role c t h =
    ground (arith, eq_iff role "chairman", eq_iff role "treasurer")

money_role :
    (action : String)
    → IsMoneyAction action "chairman"
    → IsMoneyAction action "treasurer"
    → is_action_allowed "secretary" action ≡ false
    → is_action_allowed "committee_member" action ≡ false
    → (role : String) → IsMoneyAction action role
unfolding is_action_allowed contains
money_role action c t s m role = elim (Role-cases role) [
  | inl e ↦ rw e c
  | inr (inl e) ↦ rw e (IsMoneyAction-other action "secretary" refl refl s)
  | inr (inr (inl e)) ↦ rw e t
  | inr (inr (inr (inl e))) ↦ rw e (IsMoneyAction-other action "committee_member" refl refl m)
  | inr (inr (inr (inr e))) ↦
      IsMoneyAction-other action role e.1 e.2 (rw (is_action_allowed, e.0) refl)
]

-- The actions "PAY" and "REFUND" are allowed to exactly the roles "chairman" and "treasurer".
pub money_roles : (role : String) → IsMoneyAction "PAY" role × IsMoneyAction "REFUND" role
unfolding is_action_allowed role_actions contains
money_roles role = (
  money_role "PAY" (ground arith) (ground arith) refl refl role,
  money_role "REFUND" (ground arith) (ground arith) refl refl role,
)

IsPermitted-named : (role action : String) → IsPermitted role action → str_eq role "" ≡ false
IsPermitted-named role action (inl e) = rw e refl
IsPermitted-named role action (inr (inl e, _)) = rw e refl
IsPermitted-named role action (inr (inr (inl e), _)) = rw e refl
IsPermitted-named role action (inr (inr (inr e), _)) = rw e refl

-- The check on an action passes exactly for a performer with a row in the member table that is active
-- and of that society, the first such row, whose role, lower-cased and without white space around it,
-- is "chairman", or one of the other three roles of the table with the action listed for it.
pub require_committee_action-ok :
    (society_id : ℕ) (p : Option ℕ) (action : String) (t : Tables)
    → (require_committee_action society_id p action t ≡ ok tt) ↔ (
        (id : ℕ) × (m : CommitteeMember) × (p ≡ some id)
        × (find_first
              (λ row. row.id == id && row.society_id == society_id && row.is_active)
              t.committee_members
            ≡ some m)
        × (m.id ≡ id)
        × (m.society_id ≡ society_id)
        × (m.is_active ≡ true)
        × IsPermitted (lower (strip m.role)) action)
unfolding find_active_member normal_role
require_committee_action-ok society_id p action t =
    let (to, from) = require_committee_action-granted society_id p action t in
    (
      λ h.
          let (id, m, performer, found, _, allowed) = to h in
          let (same_id, same_society, is_active) = find_active_member_sound society_id id t found in
          (
            id,
            m,
            performer,
            found,
            same_id,
            same_society,
            is_active,
            (allowed_iff (normal_role m) action).0 allowed,
          ),
      λ h.
          let (id, m, performer, found, _, _, _, permitted) = h in
          from (
            id,
            m,
            performer,
            found,
            IsPermitted-named (normal_role m) action permitted,
            (allowed_iff (normal_role m) action).1 permitted,
          ),
    )
