-- ===== src/Committee/Authority.antt =====
-- Who may change the committee.
use text.Mathlib.Text.{◌==◌ as str_eq}
use society_agent.Prelude.{ℕ, String, ◌≡◌, true, some, find_first, find_first_sound, arith}
use society_agent.Text.{lower}
use society_agent.Validation.{RawId, uuid, validate_uuid}
use society_agent.Db.{CommitteeMember, Tables}
use society_agent.Db.Errors.{ok, only_active_chairman}
use society_agent.Db.Session.{Session}
use society_agent.Db.Steps.{bind_elim, lift_elim, guard_elim, require_elim, query-ok}
use society_agent.Committee.Service.{
  MemberInput, is_active_in, ensure_actor_authorized, add_member, remove_member, change_role,
}

-- The performer is a member of the society, in an active row with the role chairman.
pub record Chaired (soc : ℕ) (performed_by : RawId) (t : Tables) : Type 0 where
  pub id : ℕ
  pub given : performed_by ≡ uuid id
  pub actor : CommitteeMember
  pub found : find_first (is_active_in soc id) t.committee_members ≡ some actor
  pub of_society : (actor.id ≡ id) × (actor.society_id ≡ soc) × (actor.is_active ≡ true)
  pub chairman : str_eq (lower actor.role) "chairman" ≡ true

given_id : (p : RawId) (name : String) {n : ℕ} → validate_uuid p name ≡ ok n → p ≡ uuid n
unfolding validate_uuid
given_id p name h = ground arith

active_row :
    (soc n : ℕ) (t : Tables) {m : CommitteeMember}
    → find_first (is_active_in soc n) t.committee_members ≡ some m
    → (m.id ≡ n) × (m.society_id ≡ soc) × (m.is_active ≡ true)
active_row soc n t {m} h =
    let key = find_first_sound (is_active_in soc n) t.committee_members h in
    (ground (arith, key), ground (arith, key), ground (arith, key))

authorized-Chaired :
    (soc : ℕ) (p : RawId) (s : Session) {actor : CommitteeMember} {s' : Session}
    → ensure_actor_authorized soc p s ≡ (ok actor, s')
    → Chaired soc p s.current
unfolding ensure_actor_authorized
authorized-Chaired soc p s h = lift_elim _ _ s h λ n given h1.
    require_elim (find_first (is_active_in soc n) s.current.committee_members) only_active_chairman
      _ s (query-ok _ _ s h1)
      λ actor found h2. guard_elim _ _ _ s h2 λ chairman h3. record {
        id = n;
        given = given_id p "member_id" given;
        actor = actor;
        found = found;
        of_society = active_row soc n s.current found;
        chairman = chairman;
      }

add_member-Chaired :
    (i : MemberInput) (s : Session) {m : CommitteeMember} {s' : Session}
    → add_member i s ≡ (ok m, s')
    → Chaired i.society_id i.performed_by s.current
unfolding add_member
add_member-Chaired i s h =
    bind_elim _ _ s h λ actor t entered h1. authorized-Chaired i.society_id i.performed_by s entered

remove_member-Chaired :
    (soc : ℕ) (id p : RawId) (s : Session) {m : CommitteeMember} {s' : Session}
    → remove_member soc id p s ≡ (ok m, s')
    → Chaired soc p s.current
unfolding remove_member
remove_member-Chaired soc id p s h =
    lift_elim _ _ s h
      λ n given h1. bind_elim _ _ s h1 λ actor t entered h2. authorized-Chaired soc p s entered

change_role-Chaired :
    (soc : ℕ) (id : RawId) (role : String) (p : RawId) (s : Session) {m : CommitteeMember}
    {s' : Session}
    → change_role soc id role p s ≡ (ok m, s')
    → Chaired soc p s.current
unfolding change_role
change_role-Chaired soc id role p s h =
    lift_elim _ _ s h
      λ n given h1. bind_elim _ _ s h1 λ actor t entered h2. authorized-Chaired soc p s entered

-- An addition, a removal and a change of role that returns was made by a member of the society, found
-- by the given id, whose row is active and whose role is chairman.
pub changes-Chaired :
    ((i : MemberInput) (s : Session) (m : CommitteeMember) (s' : Session)
      → add_member i s ≡ (ok m, s')
      → Chaired i.society_id i.performed_by s.current)
    × ((soc : ℕ) (id p : RawId) (s : Session) (m : CommitteeMember) (s' : Session)
        → remove_member soc id p s ≡ (ok m, s')
        → Chaired soc p s.current)
    × ((soc : ℕ) (id : RawId) (role : String) (p : RawId) (s : Session) (m : CommitteeMember)
          (s' : Session)
        → change_role soc id role p s ≡ (ok m, s')
        → Chaired soc p s.current)
changes-Chaired = (
  (λ i s m s' h. add_member-Chaired i s h),
  (λ soc id p s m s' h. remove_member-Chaired soc id p s h),
  (λ soc id role p s m s' h. change_role-Chaired soc id role p s h),
)
