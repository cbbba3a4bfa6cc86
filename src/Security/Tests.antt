-- ===== src/Security/Tests.antt =====
-- The theorems on access, at the members of the test society.
use society_agent.Text.{strip, lower}
use society_agent.Prelude.{find_first, ◌==◌, ◌&&◌, ◌≡◌, ◌↔◌, ℕ, true, some}
use society_agent.Db.{CommitteeMember, active}
use society_agent.Db.Errors.{ok}
use society_agent.Fixtures.{tables_in}
use society_agent.Security.Access.{require_committee_action}
use society_agent.Security.Guarantees.{
  IsPermitted, IsMoneyAction, require_committee_action-ok, money_roles,
}

require_committee_action-ok_example :
    (require_committee_action 1 (some 30) "PAY" (tables_in active) ≡ ok tt) ↔ (
      (id : ℕ) × (m : CommitteeMember) × (some 30 ≡ some id)
      × (find_first
            (λ row. row.id == id && row.society_id == 1 && row.is_active)
            (tables_in active).committee_members
          ≡ some m)
      × (m.id ≡ id)
      × (m.society_id ≡ 1)
      × (m.is_active ≡ true)
      × IsPermitted (lower (strip m.role)) "PAY")
require_committee_action-ok_example =
    require_committee_action-ok 1 (some 30) "PAY" (tables_in active)

money_roles_example : IsMoneyAction "PAY" "secretary" × IsMoneyAction "REFUND" "secretary"
money_roles_example = money_roles "secretary"
