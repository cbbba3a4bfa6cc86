-- ===== src/Food/History.antt =====
-- A history of calls of the food services: a token is served once.
use mathlib.Core.Path.{subst}
use text.Mathlib.Text.{◌==◌ as str_eq}
use society_agent.Prelude.{
  ℕ, String, ◌≡◌, refl, ap, sym, ◌∙◌, true, some, is_some, arith, ◌==◌, ◌&&◌,
}
use society_agent.Db.{EventFoodToken, Tables}
use society_agent.Db.Errors.{Error, Result, ok, err}
use society_agent.Db.Session.{Session, Exec}
use society_agent.Db.Ran.{IsClean, Ran}
use society_agent.Db.Keeps.{Keeps}
use society_agent.Food.Generate.{TokensInput, generate_tokens_for_event}
use society_agent.Food.Counter.{CounterInput, open_food_counter}
use society_agent.Food.Serve.{
  ServeInput, normalize, find_token, is_unserved, served, verify_and_serve_token,
}
use society_agent.Food.Lookup.{LookupInput, serve_by_flat_lookup}
use society_agent.Food.Served.{
  KeepsServed, find_first-update, generate_tokens_for_event-Keeps, open_food_counter-Keeps,
  verify_and_serve_token-Keeps, serve_by_flat_lookup-Keeps,
}
use society_agent.Food.Serving.{Serving, Marked, verify_and_serve_token-serves}

-- One call, whether it returns or raises, from one committed state to the next.
pub data Step (id_text : ℕ → String) (t t' : Tables) : Type 0 where
  generates : (i : TokensInput) → Ran (generate_tokens_for_event i) t t' → Step id_text t t'
  opens : (i : CounterInput) → Ran (open_food_counter id_text i) t t' → Step id_text t t'
  serves : (i : ServeInput) → Ran (verify_and_serve_token id_text i) t t' → Step id_text t t'
  looks_up : (i : LookupInput) → Ran (serve_by_flat_lookup id_text i) t t' → Step id_text t t'

pub data Reach (id_text : ℕ → String) (t : Tables) : Tables → Type 0 where
  here : Reach id_text t t
  next : {u v : Tables} → Reach id_text t u → Step id_text u v → Reach id_text t v

same_served : (t : Tables) → KeepsServed t t
same_served t = record { row = λ e code token found done. found }

module _ (id_text : ℕ → String) (t : Tables) where
  Ran-KeepsServed :
      {A : Type 0} (m : Exec A) (u v : Tables)
      → Keeps (KeepsServed t) m
      → Ran m u v
      → KeepsServed t u
      → KeepsServed t v
  Ran-KeepsServed m u v k r h =
      let before : KeepsServed t r.session.durable = subst (KeepsServed t) (sym r.before) h in
      let seen : KeepsServed t r.session.current = subst (KeepsServed t) (sym r.clean) before in
      subst (KeepsServed t) r.after ((k.left r.session (before, seen)).0)

  Step-KeepsServed : {u v : Tables} → Step id_text u v → KeepsServed t u → KeepsServed t v
  Step-KeepsServed (generates i r) = Ran-KeepsServed _ _ _ (generate_tokens_for_event-Keeps t i) r
  Step-KeepsServed (opens i r) = Ran-KeepsServed _ _ _ (open_food_counter-Keeps t id_text i) r
  Step-KeepsServed (serves i r) = Ran-KeepsServed _ _ _ (verify_and_serve_token-Keeps t id_text i) r
  Step-KeepsServed (looks_up i r) = Ran-KeepsServed _ _ _ (serve_by_flat_lookup-Keeps t id_text i) r

  -- In every history of calls a served token keeps its row: the time, the method and who served it.
  pub Reach-KeepsServed : {u : Tables} → Reach id_text t u → KeepsServed t u
  Reach-KeepsServed here = same_served t
  Reach-KeepsServed (next r st) = Step-KeepsServed st (Reach-KeepsServed r)

-- The token that was served is found with its mark.
Marked-found :
    (method code : String) (i : ServeInput) (t : Tables) (token' : EventFoodToken) (t' : Tables)
    → Marked method i code t token' t'
    → (find_token i.event_id code t' ≡ some token') × (is_some token'.served_at ≡ true)
unfolding find_token
Marked-found method code i t token' t' m =
    let now_served =
      find_first-update (λ x. x.event_id == i.event_id && str_eq x.token_code code) m.token.id
        (served method i.performed_by i.now) t.food_tokens (λ x. refl) m.found in
    let it : is_unserved m.token.id m.token ≡ true = ground (arith, m.unserved) in
    (rw m.written (rw it at now_served ∙ ap some (sym m.returned)), rw m.returned refl)

raises_unless :
    {A : Type 0} (r : Result A × Session)
    → ((a : A) (s' : Session) → r ≡ (ok a, s') → ⊥)
    → (e : Error) × (r.0 ≡ err e)
raises_unless (ok a, s') h = absurd (h a s' refl)
raises_unless (err e, s') h = (e, refl)

-- A token is served once: when a call has served it, every later call for the same event and code
-- raises, whatever calls of the food services came between them, and whether those returned or raised.
pub served_once :
    (id_text : ℕ → String) (i j : ServeInput) (s u : Session) {token : EventFoodToken}
    {s' : Session}
    → verify_and_serve_token id_text i s ≡ (ok token, s')
    → Reach id_text s'.durable u.durable
    → IsClean u
    → j.event_id ≡ i.event_id
    → normalize j.token_code ≡ normalize i.token_code
    → (e : Error) × ((verify_and_serve_token id_text j u).0 ≡ err e)
served_once id_text i j s u {token} {s'} run history clean same_event same_code =
    let first : Serving id_text i s.current token s'.durable =
      verify_and_serve_token-serves id_text i s run in
    let (found, done) = Marked-found _ _ i s.current token s'.durable first.marked in
    let later = (Reach-KeepsServed id_text s'.durable history).row _ _ token found done in
    raises_unless (verify_and_serve_token id_text j u) λ again u' run2.
      let second : Serving id_text j u.current again u'.durable =
        verify_and_serve_token-serves id_text j u run2 in
      let seen = rw (same_event, same_code, clean) at second.marked.found in
      ground (arith, seen, later, done, second.marked.unserved)
