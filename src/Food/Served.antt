-- ===== src/Food/Served.antt =====
-- A token that is served stays served: no operation changes its row again.
use text.Mathlib.Text.{◌==◌ as str_eq}
use society_agent.Prelude.{
  ℕ, String, ◌≡◌, refl, Bool, true, false, ◌&&◌, Option, none, some, List, [], ◌∷◌, ◌++◌, inl, inr,
  Bool-cases, save, find_first, find_first-append, update_where, is_some, arith, ◌==◌,
  if◌then◌else◌,
}
use society_agent.Db.{EventFoodToken, EventFoodCounter, Tables, AuditLog, Event}
use society_agent.Db.Query.{add_audit}
use society_agent.Workflow.Rules.{Action}
use society_agent.Db.Errors.{Error, Result, ok, err, is_integrity, tokens_exist}
use society_agent.Db.Session.{Session, rolled_back}
use society_agent.Db.Keeps.{Both, Keeps, if-Keeps, finish-Keeps, pure-Keeps, keeps_rules}
use society_agent.Food.Serve.{
  ServeInput, find_token, is_unserved, served, mark_served, serve_found, serve_unless_locked,
  record_failed_token_attempt, verify_and_serve_token,
}
use society_agent.Food.Entry.{
  ensure_workflow_action_allowed-Keeps, require_event_roles, ensure_workflow_action_allowed,
  reject_with,
}
use society_agent.Food.Counter.{
  CounterInput, open_food_counter, opened_counter, require_open_counter, close_counter_if_expired,
  is_counter_of, closed_counter,
}
use society_agent.Food.Lookup.{
  LookupInput, lookup_input, serve_without_token, serve_or_fall_back, serve_by_flat_lookup,
}
use society_agent.Food.Generate.{
  TokensInput, insert_tokens, reject_conflict, on_conflict, insert_or_reject,
  generate_tokens_for_event,
}

-- Each token that is served in `t` is found unchanged, by its event and its code, in `t'`.
pub record KeepsServed (t t' : Tables) : Type 0 where
  pub row :
      (e : ℕ) (code : String) (token : EventFoodToken)
      → find_token e code t ≡ some token
      → is_some token.served_at ≡ true
      → find_token e code t' ≡ some token

-- A search by columns that the UPDATE does not touch.
pub find_first-update :
    (p : EventFoodToken → Bool) (id : ℕ) (f : EventFoodToken → EventFoodToken)
    (xs : List EventFoodToken) {row : EventFoodToken}
    → ((x : EventFoodToken) → p (f x) ≡ p x)
    → find_first p xs ≡ some row
    → find_first p (update_where (is_unserved id) f xs)
      ≡ some (if is_unserved id row then f row else row)
unfolding find_first update_where
find_first-update p id f [] same h = cc
find_first-update p id f (x ∷ xs) {row} same h =
    ground (arith, same x, find_first-update p id f xs {row = row} same)

module _ (t : Tables) where
  update_served :
      (id : ℕ) (method : String) (by : Option ℕ) (now : ℕ) (u : Tables)
      → KeepsServed t u
      → KeepsServed t (record u {
        food_tokens = update_where (is_unserved id) (served method by now) u.food_tokens;
      })
  unfolding find_token
  update_served id method by now u h = record {
    row = λ e code token found done.
        let kept =
          find_first-update (λ x. x.event_id == e && str_eq x.token_code code) id
            (served method by now) u.food_tokens (λ x. refl) (h.row e code token found done) in
        let still : is_unserved id token ≡ false = ground (arith, done) in rw still at kept;
  }

  audit_served : (x : AuditLog) (u : Tables) → KeepsServed t u → KeepsServed t (add_audit x u)
  unfolding find_token
  audit_served x u h = record { row = h.row }

  -- A change of the counters, with an audit row.
  counter_served :
      (x : AuditLog) (f : Tables → List EventFoodCounter) (u : Tables)
      → KeepsServed t u
      → KeepsServed t (add_audit x (record u { food_counters = f u }))
  unfolding find_token
  counter_served x f u h = record { row = h.row }

  append_served :
      (x : AuditLog) (rows : List EventFoodToken) (u : Tables)
      → KeepsServed t u
      → KeepsServed t (add_audit x (record u { food_tokens = u.food_tokens ++ rows }))
  unfolding find_token
  append_served x rows u h = record {
    row = λ e code token found done.
        find_first-append (λ x. x.event_id == e && str_eq x.token_code code) u.food_tokens rows
          (h.row e code token found done);
  }

  ruleset served_rules = (keeps_rules, audit_served, update_served, counter_served, append_served)

  reject_with-Keeps :
      {A : Type 0} (x : AuditLog) (e : Error) → Keeps (KeepsServed t) (reject_with {A = A} x e)
  unfolding reject_with
  reject_with-Keeps x e = search served_rules depth 10

  entry-Keeps : (e : ℕ) (p : Option ℕ) → Keeps (KeepsServed t) (require_event_roles e p)
  unfolding require_event_roles
  entry-Keeps e p = search served_rules depth 12

  allowed-Keeps :
      (event : Event) (e : ℕ) (a : Action) (p : Option ℕ) (r : Option String)
      → Keeps (KeepsServed t) (ensure_workflow_action_allowed event e a p r)
  allowed-Keeps = ensure_workflow_action_allowed-Keeps (KeepsServed t) audit_served

  close-Keeps :
      (event : Event) (c : EventFoodCounter) (p : Option ℕ) (now : ℕ)
      → Keeps (KeepsServed t) (close_counter_if_expired event c p now)
  unfolding close_counter_if_expired
  close-Keeps event c p now =
      if-Keeps (KeepsServed t) _ _ _
        (finish-Keeps (KeepsServed t) _ true (
          counter_served _
            (λ u. save (is_counter_of c.event_id) (closed_counter c p now) u.food_counters)))
        (pure-Keeps (KeepsServed t) false)

  counter-Keeps :
      (event : Event) (e : ℕ) (p : Option ℕ) (now : ℕ)
      → Keeps (KeepsServed t) (require_open_counter event e p now)
  unfolding require_open_counter
  counter-Keeps event e p now = search (served_rules, close-Keeps) depth 12

  pub open_food_counter-Keeps :
      (text_of : ℕ → String) (i : CounterInput)
      → Keeps (KeepsServed t) (open_food_counter text_of i)
  unfolding open_food_counter
  open_food_counter-Keeps text_of i =
      search
        (
          served_rules,
          entry-Keeps,
          allowed-Keeps,
          λ (x : AuditLog).
              counter_served x
                (λ u. save (is_counter_of i.event_id) (opened_counter i) u.food_counters),
        )
        depth 12

  module _ (id_text : ℕ → String) where
    record-Keeps :
        (event : Event) (i : ServeInput) (method : String)
        → Keeps (KeepsServed t) (record_failed_token_attempt id_text event i method)
    unfolding record_failed_token_attempt
    record-Keeps event i method = search served_rules depth 12

    mark_served-Keeps :
        (event : Event) (i : ServeInput) (method : String) (token : EventFoodToken)
        → Keeps (KeepsServed t) (mark_served id_text event i method token)
    unfolding mark_served
    mark_served-Keeps event i method token = search (served_rules, reject_with-Keeps) depth 12

    serve_found-Keeps :
        (event : Event) (i : ServeInput) (method : String) (o : Option EventFoodToken)
        → Keeps (KeepsServed t) (serve_found id_text event i method o)
    unfolding serve_found
    serve_found-Keeps event i method none =
        search (served_rules, record-Keeps, λ (u : Tables) (h : KeepsServed t u). h) depth 12
    serve_found-Keeps event i method (some token) =
        search (served_rules, reject_with-Keeps, mark_served-Keeps) depth 12

    serve_unless_locked-Keeps :
        (event : Event) (i : ServeInput) (method code : String)
        → Keeps (KeepsServed t) (serve_unless_locked id_text event i method code)
    unfolding serve_unless_locked
    serve_unless_locked-Keeps event i method code =
        search (served_rules, reject_with-Keeps, serve_found-Keeps) depth 12

    pub verify_and_serve_token-Keeps :
        (i : ServeInput) → Keeps (KeepsServed t) (verify_and_serve_token id_text i)
    unfolding verify_and_serve_token
    verify_and_serve_token-Keeps i =
        search (served_rules, entry-Keeps, allowed-Keeps, counter-Keeps, serve_unless_locked-Keeps)
          depth 16

    without-Keeps :
        (event : Event) (i : LookupInput) → Keeps (KeepsServed t) (serve_without_token event i)
    unfolding serve_without_token
    without-Keeps event i = search served_rules depth 14

    fall_back-Keeps :
        (event : Event) (i : LookupInput) (o : Option EventFoodToken)
        → Keeps (KeepsServed t) (serve_or_fall_back id_text event i o)
    unfolding serve_or_fall_back
    fall_back-Keeps event i none = without-Keeps event i
    fall_back-Keeps event i (some token) = verify_and_serve_token-Keeps (lookup_input i token)

    pub serve_by_flat_lookup-Keeps :
        (i : LookupInput) → Keeps (KeepsServed t) (serve_by_flat_lookup id_text i)
    unfolding serve_by_flat_lookup
    serve_by_flat_lookup-Keeps i =
        search (served_rules, entry-Keeps, allowed-Keeps, counter-Keeps, fall_back-Keeps) depth 14

  insert-Keeps : (event : Event) (i : TokensInput) → Keeps (KeepsServed t) (insert_tokens event i)
  unfolding insert_tokens
  insert-Keeps event i = search served_rules depth 14

  reject_conflict-Keeps :
      (event : Event) (i : TokensInput) (b : Bool) (e : Error)
      → Keeps (KeepsServed t) (reject_conflict event i b e)
  unfolding reject_conflict
  reject_conflict-Keeps event i false e = record { left = λ s h. h }
  reject_conflict-Keeps event i true e = record {
    left = λ s h. (reject_with-Keeps _ tokens_exist).left s h;
  }

  conflict-Both :
      (event : Event) (i : TokensInput) (r : Result (List EventFoodToken) × Session)
      → Both (KeepsServed t) r.1
      → Both (KeepsServed t) (on_conflict event i r).1
  unfolding on_conflict
  conflict-Both event i (ok rows, s) h = h
  conflict-Both event i (err e, s) h = elim (Bool-cases (is_integrity e)) [
    | inr other ↦ rw (on_conflict, other) h
    | inl found ↦
        rw (on_conflict, found)
          ((reject_conflict-Keeps event i i.is_unique_conflict e).left (rolled_back s) (h.0, h.0))
  ]

  insert_or_reject-Keeps :
      (event : Event) (i : TokensInput) → Keeps (KeepsServed t) (insert_or_reject event i)
  unfolding insert_or_reject
  insert_or_reject-Keeps event i = record {
    left = λ s h. conflict-Both event i (insert_tokens event i s) ((insert-Keeps event i).left s h);
  }

  pub generate_tokens_for_event-Keeps :
      (i : TokensInput) → Keeps (KeepsServed t) (generate_tokens_for_event i)
  unfolding generate_tokens_for_event
  generate_tokens_for_event-Keeps i =
      search (served_rules, entry-Keeps, allowed-Keeps, insert_or_reject-Keeps) depth 14
