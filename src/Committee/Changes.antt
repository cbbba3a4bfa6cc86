-- ===== src/Committee/Changes.antt =====
-- The changes of the committee leave a society its chairman.
use mathlib.Core.Path.{subst}
use Prim.Native.String
use text.Mathlib.Text.{◌==◌ as str_eq}
use text.Mathlib.TextEquality.{eq_iff}
use society_agent.Prelude.{
  ℕ, ◌+◌, ◌≤◌, String, ◌≡◌, refl, sym, true, false, Option, none, some, List, [], ◌∷◌, ◌++◌,
  find_first, find_first_sound, find_all, length, length-find_all-save, ◌==◌, arith, if◌then◌else◌,
}
use society_agent.Text.{lower}
use society_agent.Validation.{RawId}
use society_agent.Db.{CommitteeMember, Tables}
use society_agent.Db.Session.{
  Session, Outcome, succeeds, fails, pure, raise, query, guard, modify, flush, flush_with, ◌>>=◌,
}
use society_agent.Committee.Service.{
  MemberInput, is_in, is_active_row, has_phone_in, reactivated, new_member, write_member,
  add_with_phone, is_active_chairman, chairman_count, change_member, deactivate, remove_found,
  set_role, change_found, validate_role, role_or_unknown,
}
use society_agent.Committee.Steps.{
  HasChairman, then-HasChairman, guard-HasChairman, query-HasChairman, if-HasChairman,
  bind-HasChairman, validate_role-same,
}

-- The row that is changed is the first one with its key, so the count changes by that row.
change-count :
    (w soc id : ℕ) (target row : CommitteeMember) (action reason : String) (p : RawId) (t : Tables)
    → find_first (is_in soc id) t.committee_members ≡ some target
    → chairman_count w (change_member soc target row action reason p t)
        + (if is_active_chairman w target then 1 else 0)
      ≡ chairman_count w t + (if is_active_chairman w row then 1 else 0)
unfolding chairman_count
change-count w soc id target row action reason p t found =
    let mine : is_in soc id target ≡ true =
      find_first_sound (is_in soc id) t.committee_members found in
    let same : target.id ≡ id = ground (arith, mine) in
    let here : find_first (is_in soc target.id) t.committee_members ≡ some target =
      subst (λ x. find_first (is_in soc x) t.committee_members ≡ some target) (sym same) found in
    length-find_all-save (is_in soc target.id) (is_active_chairman w) row t.committee_members here

-- A role "chairman" is one in lower case too.
lower-chairman : (r : String) → str_eq r "chairman" ≡ true → str_eq (lower r) "chairman" ≡ true
unfolding lower
lower-chairman r h = let same : r ≡ "chairman" = ground (arith, eq_iff r "chairman") in rw same refl

same_society :
    (w soc : ℕ) (t : Tables) → (w == soc) ≡ true → chairman_count w t ≡ chairman_count soc t
same_society w soc t same = let eq : w ≡ soc = ground (arith, same) in rw eq refl

deactivate-HasChairman :
    (w soc id : ℕ) (p : RawId) (target : CommitteeMember) (s : Session)
    → find_first (is_in soc id) s.current.committee_members ≡ some target
    → HasChairman w s
    → HasChairman w (deactivate soc p target s).1
unfolding deactivate ◌>>=◌ query modify pure guard
deactivate-HasChairman w soc id p target s found now =
    let reason = String.◌++◌ "Removed committee member " target.name in
    let count =
      change-count w soc id target (record target { is_active = false }) "REMOVE_MEMBER" reason p
        s.current found in
    let there = find_first_sound (is_in soc id) s.current.committee_members found in
    ground (arith, now, count, lower-chairman target.role, there, same_society w soc s.current)

set_role-HasChairman :
    (w soc id : ℕ) (p : RawId) (target : CommitteeMember) (role : String) (s : Session)
    → find_first (is_in soc id) s.current.committee_members ≡ some target
    → target.is_active ≡ true
    → HasChairman w s
    → HasChairman w (set_role soc p target role s).1
unfolding set_role ◌>>=◌ query modify pure guard
set_role-HasChairman w soc id p target role s found active now =
    let reason =
      String.◌++◌ "Changed role from "
        (String.◌++◌ (role_or_unknown (lower target.role)) (String.◌++◌ " to " role)) in
    let count =
      change-count w soc id target (record target { role = role }) "CHANGE_MEMBER_ROLE" reason p
        s.current found in
    let there = find_first_sound (is_in soc id) s.current.committee_members found in
    ground
      (arith, now, count, active, lower-chairman target.role, there, same_society w soc s.current)

pub remove_found-HasChairman :
    (w soc id : ℕ) (p : RawId) (o : Option CommitteeMember) (s : Session)
    → find_first (is_in soc id) s.current.committee_members ≡ o
    → HasChairman w s
    → HasChairman w (remove_found soc p o s).1
unfolding remove_found raise pure
remove_found-HasChairman w soc id p none s found now = now
remove_found-HasChairman w soc id p (some target) s found now =
    if-HasChairman w target.is_active _ _ s
      (λ _. deactivate-HasChairman w soc id p target s found now) (λ _. now)

pub change_found-HasChairman :
    (w soc id : ℕ) (p : RawId) (role : String) (o : Option CommitteeMember) (s : Session)
    → find_first (is_in soc id) s.current.committee_members ≡ o
    → HasChairman w s
    → HasChairman w (change_found soc p role o s).1
unfolding change_found raise
change_found-HasChairman w soc id p role none s found now = now
change_found-HasChairman w soc id p role (some target) s found now =
    guard-HasChairman w target.is_active _ _ s now λ active.
      then-HasChairman w (validate_role role) _ s (validate_role-same role s) now
        λ next_role. set_role-HasChairman w soc id p target next_role s found active now

-- A row that is added, and a row that was not active, take no chairman away.
add-count :
    (soc : ℕ) (row : CommitteeMember) (rows : List CommitteeMember)
    → length (find_all (is_active_chairman soc) rows)
      ≤ length (find_all (is_active_chairman soc) (rows ++ row ∷ []))
unfolding find_all
add-count soc row [] = ground arith
add-count soc row (x ∷ rows) = ground (arith, add-count soc row rows)

flush-HasChairman :
    (soc : ℕ) (os : List Outcome) (s : Session)
    → HasChairman soc s
    → HasChairman soc (flush_with os s).1
unfolding flush_with
flush-HasChairman soc [] s now = now
flush-HasChairman soc (succeeds ∷ os) s now = now
flush-HasChairman soc (fails f ∷ os) s now = now

reactivate-HasChairman :
    (i : MemberInput) (phone role : String) (m : CommitteeMember) (soc : ℕ) (s : Session)
    → find_first (has_phone_in i.society_id phone) s.current.committee_members ≡ some m
    → m.is_active ≡ false
    → HasChairman soc s
    → HasChairman soc (write_member i phone role (some m) s).1
unfolding write_member ◌>>=◌ modify pure chairman_count
reactivate-HasChairman i phone role m soc s found inactive now =
    let count =
      length-find_all-save (has_phone_in i.society_id phone) (is_active_chairman soc)
        (reactivated i role m) s.current.committee_members found in
    ground (arith, now, count, inactive)

modify-HasChairman :
    (soc : ℕ) (g : Tables → Tables) (s : Session)
    → chairman_count soc s.current ≤ chairman_count soc (g s.current)
    → HasChairman soc s
    → HasChairman soc (modify g s).1
unfolding modify
modify-HasChairman soc g s more now = omega (arith, more, now)

new-HasChairman :
    (i : MemberInput) (phone role : String) (soc : ℕ) (s : Session)
    → HasChairman soc s
    → HasChairman soc (write_member i phone role none s).1
unfolding write_member pure chairman_count flush
new-HasChairman i phone role soc s now =
    bind-HasChairman soc _ _ s
      (modify-HasChairman soc _ s
        (add-count soc (new_member i phone role) s.current.committee_members) now)
      λ u t1 now1.
        bind-HasChairman soc flush _ t1 (flush-HasChairman soc t1.outcomes t1 now1) λ v t2 now2.
          bind-HasChairman soc _ _ t2 (modify-HasChairman soc _ t2 (omega arith) now2)
            λ x t3 now3. now3

write_member-HasChairman :
    (i : MemberInput) (phone role : String) (o : Option CommitteeMember) (soc : ℕ) (s : Session)
    → find_first (has_phone_in i.society_id phone) s.current.committee_members ≡ o
    → is_active_row o ≡ false
    → HasChairman soc s
    → HasChairman soc (write_member i phone role o s).1
write_member-HasChairman i phone role (some m) soc s found inactive now =
    reactivate-HasChairman i phone role m soc s found inactive now
write_member-HasChairman i phone role none soc s found inactive now =
    new-HasChairman i phone role soc s now

pub add_with_phone-HasChairman :
    (i : MemberInput) (phone role : String) (soc : ℕ) (s : Session)
    → HasChairman soc s
    → HasChairman soc (add_with_phone i phone role s).1
unfolding add_with_phone
add_with_phone-HasChairman i phone role soc s now = query-HasChairman soc _ _ s (
    guard-HasChairman soc _ _ _ s now λ inactive. query-HasChairman soc _ _ s (
      guard-HasChairman soc _ _ _ s now
        λ here. write_member-HasChairman i phone role _ soc s refl (ground (arith, inactive)) now))
