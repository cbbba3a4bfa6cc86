-- ===== src/Food/Generate.antt =====
-- app/modules/events/food_collection_service.py: `generate_tokens_for_event`. The callback that is told
-- of the new tokens is left out.
use Prim.Native.String
use society_agent.Prelude.{
  ℕ, zero, suc, String, Bool, true, false, ◌&&◌, Option, none, List, [], ◌∷◌, ◌++◌, find_all,
  length, leb, ltb, ◌==◌, not,
}
use society_agent.Prelude.Int.{pos_part}
use society_agent.Db.{Event, EventFoodPass, EventFoodToken, Tables, AuditLog}
use society_agent.Db.Errors.{Error, Result, ok, err, is_integrity, token_length_short, tokens_exist}
use society_agent.Db.Session.{Session, Exec, lift, query, guard, finish, rolled_back, ◌>>=◌, ◌>>◌}
use society_agent.Db.Query.{add_audit}
use society_agent.Workflow.Rules.{Action}
use society_agent.Food.Codes.{build_token_code}
use society_agent.Food.Entry.{require_event_roles, ensure_workflow_action_allowed, reject_with}

-- The keyword arguments of `generate_tokens_for_event`; the codes that `secrets` draws and the ids of
-- the new rows; the text of a number and of an id; and what `_is_food_token_unique_conflict` says of
-- the database's error.
pub record TokensInput : Type 0 where
  pub event_id : ℕ
  pub performed_by : Option ℕ
  pub token_length : ℕ
  pub override_reason : Option String
  pub draw : ℕ → String
  pub id_of : ℕ → ℕ
  pub text_of : ℕ → String
  pub is_unique_conflict : Bool

-- The codes in use, the draws made, and the rows so far.
pub record Made : Type 0 where
  pub codes : List String
  pub draws : ℕ
  pub rows : List EventFoodToken

abbrev pub new_token : TokensInput → ℕ → String → String → ℕ → EventFoodToken
new_token i flat_id food_type code n = record {
  id = i.id_of n;
  event_id = i.event_id;
  flat_id = flat_id;
  food_type = food_type;
  token_code = code;
  qr_payload = String.◌++◌ "DFP:" (String.◌++◌ (i.text_of i.event_id) (String.◌++◌ ":" code));
  served_at = none;
  served_method = none;
  served_by = none;
}

abbrev pub with_code : TokensInput → ℕ → String → Made → String → ℕ → Made
with_code i flat_id food_type m code k = record {
  codes = code ∷ m.codes;
  draws = k;
  rows = m.rows ++ new_token i flat_id food_type code (length m.codes) ∷ [];
}

-- `for _ in range(max(count, 0))`
unfoldable pub tokens_of_type : TokensInput → ℕ → String → ℕ → Made → Result Made
tokens_of_type i flat_id food_type zero m = ok m
tokens_of_type i flat_id food_type (suc n) m =
    elim (build_token_code i.token_length i.draw m.codes m.draws) [
      | err e ↦ err e
      | ok (code, k) ↦ tokens_of_type i flat_id food_type n (with_code i flat_id food_type m code k)
    ]

abbrev pub and_then : Result Made → (Made → Result Made) → Result Made
and_then (ok m) f = f m
and_then (err e) f = err e

-- `token_plan`
unfoldable pub tokens_of_pass : TokensInput → EventFoodPass → Made → Result Made
tokens_of_pass i p m = and_then (tokens_of_type i p.flat_id "veg" (pos_part p.veg_count) m) λ m1.
    and_then (tokens_of_type i p.flat_id "jain" (pos_part p.jain_count) m1)
      λ m2. tokens_of_type i p.flat_id "kids" (pos_part p.kids_count) m2

unfoldable pub tokens_of_passes : TokensInput → List EventFoodPass → Made → Result Made
tokens_of_passes i [] m = ok m
tokens_of_passes i (p ∷ ps) m = and_then (tokens_of_pass i p m) (tokens_of_passes i ps)

abbrev pub none_made : Made
none_made = record { codes = []; draws = 0; rows = [] }

abbrev pub is_taking_part : ℕ → EventFoodPass → Bool
is_taking_part e row = row.event_id == e && row.is_participating

unfoldable pub tokens_for : ℕ → Tables → List EventFoodToken
tokens_for e t = find_all (λ row. row.event_id == e) t.food_tokens

generation_audit : Event → TokensInput → String → String → AuditLog
generation_audit event i action reason = record {
  society_id = event.society_id;
  entity_type = "food_collection";
  entity_id = i.event_id;
  action = action;
  reason = reason;
  source = none;
  performed_by = i.performed_by;
  performed_at = none;
}

-- The body of the `try` block.
unfoldable pub insert_tokens : Event → TokensInput → Exec (List EventFoodToken)
unfolding generation_audit
insert_tokens event i = do
  existing ← query (tokens_for i.event_id)
  guard (not (ltb 0 (length existing))) tokens_exist
  passes ← query (λ t. find_all (is_taking_part i.event_id) t.food_passes)
  made ← lift (tokens_of_passes i passes none_made)
  finish
      (λ t.
        add_audit
          (generation_audit event i "GENERATE_FOOD_TOKENS"
            (String.◌++◌ "Generated " (String.◌++◌ (i.text_of (length made.rows)) " tokens")))
          (record t { food_tokens = t.food_tokens ++ made.rows }))
      made.rows

-- The body of the `except` block, by the kind of conflict.
unfoldable pub reject_conflict : Event → TokensInput → Bool → Error → Exec (List EventFoodToken)
unfolding generation_audit
reject_conflict event i false e s = (err e, s)
reject_conflict event i true e s =
    reject_with
      (generation_audit event i "GENERATE_FOOD_TOKENS_CONFLICT"
        "Token generation conflict detected due to duplicate token insert; tokens are already generated for this event")
      tokens_exist s

-- `except IntegrityError`
unfoldable pub on_conflict :
    Event
    → TokensInput
    → Result (List EventFoodToken) × Session
    → Result (List EventFoodToken) × Session
on_conflict event i (ok rows, s) = (ok rows, s)
on_conflict event i (err e, s) = elim (is_integrity e) [
  | false ↦ (err e, s)
  | true ↦ reject_conflict event i i.is_unique_conflict e (rolled_back s)
]

unfoldable pub insert_or_reject : Event → TokensInput → Exec (List EventFoodToken)
insert_or_reject event i s = on_conflict event i (insert_tokens event i s)

-- `FoodCollectionService.generate_tokens_for_event`
unfoldable pub generate_tokens_for_event : TokensInput → Exec (List EventFoodToken)
generate_tokens_for_event i = do
  event ← require_event_roles i.event_id i.performed_by
  guard (leb 8 i.token_length) token_length_short
  ensure_workflow_action_allowed event i.event_id Action.generate_food_tokens i.performed_by
      i.override_reason
  insert_or_reject event i
