-- ===== src/Food/Serving.antt =====
-- What a call of `verify_and_serve_token` that returned has found and written.
use text.Mathlib.Text.{◌==◌ as str_eq}
use text.Mathlib.TextEquality.{eq_iff}
use mathlib.Core.Path.{subst}
use society_agent.Prelude.{
  ℕ, String, ◌≡◌, refl, ap, ◌∙◌, Bool, true, false, Option, none, some, List, [], ◌∷◌, ◌++◌, inl,
  inr, Bool-cases, find_all, update_where, is_some, length, arith, ◌==◌, ◌&&◌, not,
  find_first_sound, if◌then◌else◌,
}
use society_agent.Text.{contains}
use society_agent.Db.{Event, EventFoodToken, EventFoodCounter, Tables, AuditLog}
use society_agent.Db.Errors.{Error, Result, ok, err, invalid_event, counter_closed}
use society_agent.Db.Session.{Session, pure, raise, require, ◌>>=◌}
use society_agent.Db.Query.{find_event, add_audit}
use society_agent.Db.Steps.{bind_elim, guard_elim, require_elim, query-ok, modify-ok, finish-ok}
use society_agent.Workflow.Rules.{Action, action_text}
use society_agent.Food.Codes.{is_token_text}
use society_agent.Food.Entry.{
  require_event_roles, override_row, reject_with, ensure_workflow_action_allowed-ok,
}
use society_agent.Food.Counter.{
  find_counter, open_one, is_past, close_counter_if_expired, require_open_counter,
}
use society_agent.Food.Serve.{
  ServeInput, normalize, find_token, is_unserved, served, serve_methods, latest, expiry_of,
  is_lockout, active_failed_token_lockout, mark_served, serve_found, serve_unless_locked,
  verify_and_serve_token,
}

pub require_event_roles-ok :
    (e : ℕ) (p : Option ℕ) (s : Session) {event : Event} {s' : Session}
    → require_event_roles e p s ≡ (ok event, s')
    → (s' ≡ s) × (find_event e s.current ≡ some event)
unfolding require_event_roles require ◌>>=◌
require_event_roles-ok e p s h = (ground arith, ground arith)

-- An action that rejects does not return.
pub reject_with-never :
    {A : Type 0} (row : AuditLog) (e : Error) (s : Session) {a : A} {s' : Session} {P : Type 0}
    → reject_with {A = A} row e s ≡ (ok a, s')
    → P
unfolding reject_with raise
reject_with-never row e s h = bind_elim _ _ s h λ u t written h1. absurd (ground arith)

open_one-some :
    (o : Option EventFoodCounter) {c : EventFoodCounter}
    → open_one o ≡ some c
    → (o ≡ some c) × (c.is_open ≡ true)
open_one-some none h = cc
open_one-some (some d) h = (ground arith, ground arith)

-- The counter that a serving finds.
pub record OpenAt (event_id now : ℕ) (t : Tables) : Type 0 where
  pub counter : EventFoodCounter
  pub found : find_counter event_id t ≡ some counter
  pub is_open : counter.is_open ≡ true
  pub in_time : is_past counter.closes_at now ≡ false

close-ok :
    (event : Event) (c : EventFoodCounter) (p : Option ℕ) (now : ℕ) (s : Session) {s' : Session}
    → c.is_open ≡ true
    → close_counter_if_expired event c p now s ≡ (ok false, s')
    → (is_past c.closes_at now ≡ false) × (s' ≡ s)
unfolding close_counter_if_expired pure
close-ok event c p now s opened h = elim (Bool-cases (is_past c.closes_at now)) [
  | inl past ↦
      let (same, _, _) = finish-ok _ true s (rw (opened, past) at h) in absurd (ground arith)
  | inr in_time ↦ (in_time, ground arith)
]

expired-ok :
    (b : Bool) (s : Session) {u : Unit {0}} {s' : Session}
    → (if b then raise society_agent.Db.Errors.service_ended else pure tt) s ≡ (ok u, s')
    → (b ≡ false) × (s' ≡ s)
unfolding raise pure
expired-ok b s h = (ground arith, ground arith)

pub require_open_counter-ok :
    (event : Event) (e : ℕ) (p : Option ℕ) (now : ℕ) (s : Session) {u : Unit {0}} {s' : Session}
    → require_open_counter event e p now s ≡ (ok u, s')
    → OpenAt e now s.current × (s' ≡ s)
unfolding require_open_counter
require_open_counter-ok event e p now s h =
    require_elim (open_one (find_counter e s.current)) counter_closed _ s (query-ok _ _ s h)
      λ c found h1. bind_elim _ _ s h1 λ expired t closed h2.
        let (fresh, same) = expired-ok expired t h2 in
        let (there, opened) = open_one-some (find_counter e s.current) found in
        let (in_time, still) = close-ok event c p now s opened (rw fresh at closed) in
        (record { counter = c; found = there; is_open = opened; in_time = in_time }, same ∙ still)

-- The token that a serving finds is the event's, and has the code.
find_token_sound :
    (e : ℕ) (code : String) (t : Tables) {token : EventFoodToken}
    → find_token e code t ≡ some token
    → (token.event_id ≡ e) × (token.token_code ≡ code)
unfolding find_token
find_token_sound e code t {token} h =
    let key = find_first_sound (λ x. x.event_id == e && str_eq x.token_code code) t.food_tokens h in
    (ground (arith, key), ground (arith, key, eq_iff token.token_code code))

-- The tables after a serving.
pub record Marked (method : String) (i : ServeInput) (code : String) (t : Tables)
    (token' : EventFoodToken) (t' : Tables) : Type 0 where
  pub token : EventFoodToken
  pub found : find_token i.event_id code t ≡ some token
  pub unserved : is_some token.served_at ≡ false
  pub of_event : token.event_id ≡ i.event_id
  pub coded : token.token_code ≡ code
  pub returned : token' ≡ record token {
    served_at = some i.now;
    served_method = some method;
    served_by = i.performed_by;
  }
  pub written : t' ≡ record t {
    food_tokens =
        update_where
          (λ row. row.id == token.id && not (is_some row.served_at))
          (λ row. record row {
            served_at = some i.now;
            served_method = some method;
            served_by = i.performed_by;
          })
          t.food_tokens;
    audit_logs = t'.audit_logs;
  }

module _ (id_text : ℕ → String) where
  mark_served-ok :
      (event : Event) (i : ServeInput) (method : String) (token : EventFoodToken) (s : Session)
      {token' : EventFoodToken} {s' : Session}
      → mark_served id_text event i method token s ≡ (ok token', s')
      → (token' ≡ served method i.performed_by i.now token)
        × (s'.durable ≡ record s.current {
          food_tokens =
              update_where
                (is_unserved token.id)
                (served method i.performed_by i.now)
                s.current.food_tokens;
          audit_logs = s'.durable.audit_logs;
        })
  unfolding mark_served
  mark_served-ok event i method token s h =
      let h1 = modify-ok _ _ s (query-ok _ _ s h) in
      elim (Bool-cases (length (find_all (is_unserved token.id) s.current.food_tokens) == 1)) [
        | inl one ↦
            let (same, seen, stored) = finish-ok _ _ _ (rw one at h1) in
            (same, ground (arith, stored))
        | inr more ↦ reject_with-never _ _ _ (rw more at h1)
      ]

  serve_found-ok :
      (event : Event) (i : ServeInput) (method code : String) (o : Option EventFoodToken)
      (s : Session) {token' : EventFoodToken} {s' : Session}
      → find_token i.event_id code s.current ≡ o
      → serve_found id_text event i method o s ≡ (ok token', s')
      → Marked method i code s.current token' s'.durable
  unfolding serve_found raise
  serve_found-ok event i method code none s found h =
      bind_elim _ _ s h
        λ u t recorded h1. bind_elim _ _ t h1 λ v t1 stored h2. absurd (ground arith)
  serve_found-ok event i method code (some token) s found h =
      elim (Bool-cases (is_some token.served_at)) [
        | inl done ↦ reject_with-never _ _ s (rw done at h)
        | inr fresh ↦
            let (same, written) = mark_served-ok event i method token s (rw fresh at h) in
            record {
              token = token;
              found = found;
              unserved = fresh;
              of_event = (find_token_sound i.event_id code s.current found).0;
              coded = (find_token_sound i.event_id code s.current found).1;
              returned = same;
              written = written;
            }
      ]

  serve_unless_locked-ok :
      (event : Event) (i : ServeInput) (method code : String) (s : Session)
      {token' : EventFoodToken} {s' : Session}
      → serve_unless_locked id_text event i method code s ≡ (ok token', s')
      → (is_some (active_failed_token_lockout id_text i.event_id i.performed_by i.now s.current)
          ≡ false)
        × Marked method i code s.current token' s'.durable
  unfolding serve_unless_locked
  serve_unless_locked-ok event i method code s h =
      let h1 = query-ok _ _ s h in
      elim (Bool-cases
        (is_some (active_failed_token_lockout id_text i.event_id i.performed_by i.now s.current))) [
          | inl locked ↦ reject_with-never _ _ s (rw locked at h1)
          | inr free ↦
              (free, serve_found-ok event i method code _ s refl (query-ok _ _ s (rw free at h1)))
        ]

find_all-add_other :
    (p : AuditLog → Bool) (xs : List AuditLog) (x : AuditLog)
    → p x ≡ false
    → find_all p (xs ++ x ∷ []) ≡ find_all p xs
unfolding find_all
find_all-add_other p [] x h = ground arith
find_all-add_other p (y ∷ xs) x h = ground (arith, find_all-add_other p xs x)

-- What a serving has found in the tables `t`, and left in the tables `t'`.
pub record Serving (id_text : ℕ → String) (i : ServeInput) (t : Tables) (token' : EventFoodToken)
    (t' : Tables) : Type 0 where
  pub method_known : contains (normalize i.method) serve_methods ≡ true
  pub code_formed : is_token_text (normalize i.token_code) ≡ true
  pub counter : OpenAt i.event_id i.now t
  pub unlocked :
      is_some (active_failed_token_lockout id_text i.event_id i.performed_by i.now t) ≡ false
  pub marked : Marked (normalize i.method) i (normalize i.token_code) t token' t'

module _ (id_text : ℕ → String) where
  -- The row of an override is no lockout.
  lockout_same :
      (event : Event) (i : ServeInput) (t : Tables)
      → active_failed_token_lockout id_text i.event_id i.performed_by i.now (
          add_audit
            (override_row event i.event_id Action.serve_food_token i.performed_by i.override_reason)
            t)
        ≡ active_failed_token_lockout id_text i.event_id i.performed_by i.now t
  unfolding active_failed_token_lockout action_text
  lockout_same event i t =
      ap (λ rows. expiry_of id_text i.now (latest rows))
        (find_all-add_other (is_lockout id_text i.event_id i.performed_by i.now) t.audit_logs _
          (ground arith))

  Marked-before :
      (method code : String) (i : ServeInput) (row : AuditLog) (t : Tables)
      {token' : EventFoodToken} {t' : Tables}
      → Marked method i code (add_audit row t) token' t'
      → Marked method i code t token' t'
  unfolding find_token
  Marked-before method code i row t m = record {
    token = m.token;
    found = m.found;
    unserved = m.unserved;
    of_event = m.of_event;
    coded = m.coded;
    returned = m.returned;
    written = m.written;
  }

  OpenAt-before :
      (e now : ℕ) (row : AuditLog) (t : Tables) → OpenAt e now (add_audit row t) → OpenAt e now t
  unfolding find_counter
  OpenAt-before e now row t c = record {
    counter = c.counter;
    found = c.found;
    is_open = c.is_open;
    in_time = c.in_time;
  }

  -- A token that is served was the event's, with the code that was given, and not served; the method
  -- and the code were well formed; the counter was open and its time not over; the actor was not locked
  -- out; and the token is marked, with the time as `served_at`, the method as `served_method` and the
  -- performer as `served_by`, in the committed tables, where nothing else changes but the audit log.
  pub verify_and_serve_token-serves :
      (i : ServeInput) (s : Session) {token' : EventFoodToken} {s' : Session}
      → verify_and_serve_token id_text i s ≡ (ok token', s')
      → Serving id_text i s.current token' s'.durable
  unfolding verify_and_serve_token
  verify_and_serve_token-serves i s {token'} {s'} h = guard_elim _ _ _ s h λ method h1.
      guard_elim _ _ _ s h1 λ code h2. bind_elim _ _ s h2 λ event t entered h3.
        bind_elim _ _ t h3 λ u t1 allowed h4. bind_elim _ _ t1 h4 λ v t2 opened h5.
          let (same, _) = require_event_roles-ok _ _ s entered in
          let (counter, same2) = require_open_counter-ok event _ _ _ t1 opened in
          let (unlocked, marked) = serve_unless_locked-ok id_text event i _ _ t2 h5 in
          elim (ensure_workflow_action_allowed-ok event _ _ _ _ t allowed) [
            | inl same1 ↦
                let still : t1 ≡ s = same1 ∙ same in
                record {
                  method_known = method;
                  code_formed = code;
                  counter = rw still at counter;
                  unlocked = rw (same2 ∙ still) at unlocked;
                  marked = rw (same2 ∙ still) at marked;
                }
            | inr over ↦
                let row =
                  override_row event i.event_id Action.serve_food_token i.performed_by
                    i.override_reason in
                let seen : t1.current ≡ add_audit row s.current = ground (arith, over, same) in
                let seen2 : t2.current ≡ add_audit row s.current = ground (arith, same2, seen) in
                let unlocked2 =
                  subst
                    (λ x.
                      is_some
                        (active_failed_token_lockout id_text i.event_id i.performed_by i.now x)
                      ≡ false)
                    seen2 unlocked in
                let marked2 =
                  subst
                    (λ x.
                      Marked (normalize i.method) i (normalize i.token_code) x token' s'.durable)
                    seen2 marked in
                record {
                  method_known = method;
                  code_formed = code;
                  counter =
                      OpenAt-before _ _ row s.current
                        (subst (OpenAt i.event_id i.now) seen counter);
                  unlocked = rw (lockout_same event i s.current) at unlocked2;
                  marked = Marked-before _ _ i row s.current marked2;
                }
          ]
