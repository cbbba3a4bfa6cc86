-- ===== src/Food/Generated.antt =====
-- What `generate_tokens_for_event` leaves in the tables when it returns.
use mathlib.Core.Path.{subst}
use society_agent.Prelude.{
  ◌≡◌, refl, Bool, true, false, inl, inr, Bool-cases, List, [], ◌++◌, find_all, length, arith, ◌∙◌,
}
use society_agent.Db.{Event, EventFoodToken, Tables, AuditLog}
use society_agent.Db.Errors.{Error, Result, ok, err, is_integrity}
use society_agent.Db.Session.{Session}
use society_agent.Db.Query.{add_audit}
use society_agent.Db.Steps.{bind_elim, guard_elim, lift_elim, query-ok, finish-ok}
use society_agent.Workflow.Rules.{Action}
use society_agent.Food.Entry.{ensure_workflow_action_allowed-ok, override_row}
use society_agent.Food.Serving.{require_event_roles-ok, reject_with-never}
use society_agent.Food.Generate.{
  TokensInput, is_taking_part, tokens_for, none_made, insert_tokens, reject_conflict, on_conflict,
  insert_or_reject, generate_tokens_for_event,
}
use society_agent.Food.Plan.{
  Follows, plan_of, meals, codes_of, AllDistinct, AllNew, tokens_of_passes-Follows,
}

-- The new tokens: one for each meal of the passes that take part, with codes that differ, not served.
pub record Issued (i : TokensInput) (t : Tables) (rows : List EventFoodToken) (t' : Tables)
    : Type 0 where
  pub first_time : length (tokens_for i.event_id t) ≡ 0
  pub planned : meals rows ≡ plan_of (find_all (is_taking_part i.event_id) t.food_passes)
  pub distinct : AllDistinct (codes_of rows)
  pub new : AllNew i.event_id rows
  pub written : t' ≡ record t { food_tokens = t.food_tokens ++ rows; audit_logs = t'.audit_logs }

start-Follows : (i : TokensInput) → Follows i [] none_made
start-Follows i = record { meals_of = refl; distinct = tt; in_use = λ c. refl; new = tt }

insert_tokens-ok :
    (event : Event) (i : TokensInput) (s : Session) {rows : List EventFoodToken} {s' : Session}
    → insert_tokens event i s ≡ (ok rows, s')
    → Issued i s.current rows s'.durable
unfolding insert_tokens
insert_tokens-ok event i s h = guard_elim _ _ _ s (query-ok _ _ s h) λ none_yet h1.
    lift_elim _ _ s (query-ok _ _ s h1) λ made planned h2.
      let (same, seen, stored) = finish-ok _ _ s h2 in
      let f = tokens_of_passes-Follows i _ [] none_made (start-Follows i) planned in
      record {
        first_time = ground (arith, none_yet);
        planned = rw same f.meals_of;
        distinct = rw same f.distinct;
        new = rw same f.new;
        written = rw same (ground (arith, stored));
      }

reject_conflict-never :
    (event : Event) (i : TokensInput) (b : Bool) (e : Error) (s : Session)
    {rows : List EventFoodToken} {s' : Session} {P : Type 0}
    → reject_conflict event i b e s ≡ (ok rows, s')
    → P
unfolding reject_conflict
reject_conflict-never event i false e s h = cc
reject_conflict-never event i true e s h = reject_with-never _ _ s h

on_conflict-ok :
    (event : Event) (i : TokensInput) (r : Result (List EventFoodToken) × Session)
    {rows : List EventFoodToken} {s' : Session}
    → on_conflict event i r ≡ (ok rows, s')
    → r ≡ (ok rows, s')
unfolding on_conflict
on_conflict-ok event i (ok x, s) h = h
on_conflict-ok event i (err e, s) h = elim (Bool-cases (is_integrity e)) [
  | inr other ↦ absurd (ground (arith, rw (on_conflict, other) at h))
  | inl found ↦
      reject_conflict-never event i i.is_unique_conflict e _ (rw (on_conflict, found) at h)
]

Issued-before :
    (i : TokensInput) (row : AuditLog) (t : Tables) {rows : List EventFoodToken} {t' : Tables}
    → Issued i (add_audit row t) rows t'
    → Issued i t rows t'
unfolding tokens_for
Issued-before i row t r = record {
  first_time = r.first_time;
  planned = r.planned;
  distinct = r.distinct;
  new = r.new;
  written = r.written;
}

-- A generation that returns is the first for the event, and adds to the committed tables, for each
-- flat that takes part, one token for each vegetarian, Jain and child's meal that it has booked; no two
-- have the same code, and none is served. Nothing else changes but the audit log.
pub generate_tokens_for_event-issues :
    (i : TokensInput) (s : Session) {rows : List EventFoodToken} {s' : Session}
    → generate_tokens_for_event i s ≡ (ok rows, s')
    → Issued i s.current rows s'.durable
unfolding generate_tokens_for_event insert_or_reject
generate_tokens_for_event-issues i s {rows} {s'} h = bind_elim _ _ s h λ event t entered h1.
    guard_elim _ _ _ t h1 λ long_enough h2. bind_elim _ _ t h2 λ u t1 allowed h3.
      let (same, _) = require_event_roles-ok _ _ s entered in
      let issued =
        insert_tokens-ok event i t1 (on_conflict-ok event i (insert_tokens event i t1) h3) in
      elim (ensure_workflow_action_allowed-ok event _ _ _ _ t allowed) [
        | inl same1 ↦ rw (same1 ∙ same) at issued
        | inr over ↦
            let row =
              override_row event i.event_id Action.generate_food_tokens i.performed_by
                i.override_reason in
            let moved : t1.current ≡ add_audit row s.current = ground (arith, over, same) in
            Issued-before i row s.current (subst (λ x. Issued i x rows s'.durable) moved issued)
      ]
