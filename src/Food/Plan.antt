-- ===== src/Food/Plan.antt =====
-- What `generate_tokens_for_event` makes: for each pass one token for each meal, and no code twice.
use Prim.Native.Nat.{◌^◌}
use text.Mathlib.TextEquality.{eq_iff}
use mathlib.Core.Path.{subst, subst₂}
use society_agent.Prelude.{
  ℕ, zero, suc, ◌+◌, ◌<◌, String, ◌≡◌, refl, ap, sym, ◌∙◌, false, inl, inr, Bool-cases, List, [],
  ◌∷◌, ◌++◌, length, leb, arith, none,
}
use mathlib.Core.List.{append_assoc, append-nil}
use society_agent.Text.{contains}
use society_agent.Prelude.Int.{pos_part}
use society_agent.Db.{EventFoodPass, EventFoodToken}
use society_agent.Db.Errors.{Result, ok, err, Result-cases}
use society_agent.Food.Codes.{draw_unused, build_token_code, max_attempts, alphabet_size}
use society_agent.Food.Generate.{
  TokensInput, Made, new_token, with_code, tokens_of_type, tokens_of_pass, tokens_of_passes,
  and_then,
}

-- `n` times the same.
abbrev pub copies : {A : Type 0} → ℕ → A → List A
copies zero x = []
copies (suc n) x = x ∷ copies n x

-- The meals of a pass, of all passes: whose they are and of what kind.
abbrev pub plan_of_pass : EventFoodPass → List (ℕ × String)
plan_of_pass p =
    copies (pos_part p.veg_count) (p.flat_id, "veg")
    ++ copies (pos_part p.jain_count) (p.flat_id, "jain")
    ++ copies (pos_part p.kids_count) (p.flat_id, "kids")

abbrev pub plan_of : List EventFoodPass → List (ℕ × String)
plan_of [] = []
plan_of (p ∷ ps) = plan_of_pass p ++ plan_of ps

abbrev pub meals : List EventFoodToken → List (ℕ × String)
meals [] = []
meals (x ∷ xs) = (x.flat_id, x.food_type) ∷ meals xs

abbrev pub codes_of : List EventFoodToken → List String
codes_of [] = []
codes_of (x ∷ xs) = x.token_code ∷ codes_of xs

-- No text stands in the list twice.
abbrev pub AllDistinct : List String → Type 0
AllDistinct [] = Unit
AllDistinct (x ∷ xs) = (contains x xs ≡ false) × AllDistinct xs

meals-append : (xs ys : List EventFoodToken) → meals (xs ++ ys) ≡ meals xs ++ meals ys
meals-append [] ys = refl
meals-append (x ∷ xs) ys = ap (λ zs. (x.flat_id, x.food_type) ∷ zs) (meals-append xs ys)

-- A code that is drawn is not in use.
draw_unused-fresh :
    (n : ℕ) (draw : ℕ → String) (existing : List String) (k : ℕ) {code : String} {k' : ℕ}
    → draw_unused n draw existing k ≡ ok (code, k')
    → contains code existing ≡ false
unfolding draw_unused
draw_unused-fresh zero draw existing k h = cc
draw_unused-fresh (suc n) draw existing k {code} h =
    elim (Bool-cases (contains (draw k) existing)) [
      | inl used ↦ draw_unused-fresh n draw existing (suc k) (rw (draw_unused, used) at h)
      | inr free ↦
          let same : draw k ≡ code = ground (arith, rw (draw_unused, free) at h) in rw same at free
    ]

build_token_code-fresh :
    (len : ℕ) (draw : ℕ → String) (existing : List String) (k : ℕ) {code : String} {k' : ℕ}
    → build_token_code len draw existing k ≡ ok (code, k')
    → contains code existing ≡ false
unfolding build_token_code
build_token_code-fresh len draw existing k h =
    elim (Bool-cases (leb (alphabet_size ^ len) (length existing))) [
      | inl full ↦ absurd (ground arith)
      | inr room ↦ draw_unused-fresh _ draw existing k (rw (build_token_code, room) at h)
    ]

contains-add : (c x : String) (xs : List String) → contains c (xs ++ x ∷ []) ≡ contains c (x ∷ xs)
unfolding contains
contains-add c x [] = refl
contains-add c x (y ∷ xs) = ground (arith, contains-add c x xs)

AllDistinct-add :
    (x : String) (xs : List String)
    → AllDistinct xs
    → contains x xs ≡ false
    → AllDistinct (xs ++ x ∷ [])
unfolding contains
AllDistinct-add x [] h k = (refl, tt)
AllDistinct-add x (y ∷ xs) h k = (
  rw (contains-add y x xs) (ground (arith, h.0, k, eq_iff x y, eq_iff y x)),
  AllDistinct-add x xs h.1 (ground (arith, k)),
)

codes_of-add :
    (xs : List EventFoodToken) (x : EventFoodToken)
    → codes_of (xs ++ x ∷ []) ≡ codes_of xs ++ x.token_code ∷ []
codes_of-add [] x = refl
codes_of-add (y ∷ xs) x = ap (λ zs. y.token_code ∷ zs) (codes_of-add xs x)

-- Every row is of the event and not served.
abbrev pub AllNew : ℕ → List EventFoodToken → Type 0
AllNew e [] = Unit
AllNew e (x ∷ xs) = (x.event_id ≡ e) × (x.served_at ≡ none) × AllNew e xs

AllNew-add :
    (e : ℕ) (xs : List EventFoodToken) (x : EventFoodToken)
    → AllNew e xs
    → x.event_id ≡ e
    → x.served_at ≡ none
    → AllNew e (xs ++ x ∷ [])
AllNew-add e [] x h a b = (a, b, tt)
AllNew-add e (y ∷ xs) x h a b = (h.0, h.1, AllNew-add e xs x h.2 a b)

-- The rows follow the plan, and their codes are the codes in use, each once.
pub record Follows (i : TokensInput) (plan : List (ℕ × String)) (m : Made) : Type 0 where
  pub meals_of : meals m.rows ≡ plan
  pub distinct : AllDistinct (codes_of m.rows)
  pub in_use : (c : String) → contains c (codes_of m.rows) ≡ contains c m.codes
  pub new : AllNew i.event_id m.rows

module _ (i : TokensInput) where
  with_code-Follows :
      (flat_id : ℕ) (food_type : String) (plan : List (ℕ × String)) (m : Made) (code : String)
      (k : ℕ)
      → Follows i plan m
      → contains code m.codes ≡ false
      → Follows i (plan ++ (flat_id, food_type) ∷ []) (with_code i flat_id food_type m code k)
  unfolding contains
  with_code-Follows flat_id food_type plan m code k f fresh =
      let row = new_token i flat_id food_type code (length m.codes) in
      record {
        meals_of =
            meals-append m.rows (row ∷ []) ∙ ap (λ zs. zs ++ (flat_id, food_type) ∷ []) f.meals_of;
        distinct =
            rw (codes_of-add m.rows row)
              (AllDistinct-add code (codes_of m.rows) f.distinct (f.in_use code ∙ fresh));
        in_use = λ c.
            rw (codes_of-add m.rows row, contains-add c code (codes_of m.rows))
              (ground (arith, f.in_use c));
        new = AllNew-add i.event_id m.rows row f.new refl refl;
      }

  tokens_of_type-Follows :
      (flat_id : ℕ) (food_type : String) (n : ℕ) (plan : List (ℕ × String)) (m : Made) {m' : Made}
      → Follows i plan m
      → tokens_of_type i flat_id food_type n m ≡ ok m'
      → Follows i (plan ++ copies n (flat_id, food_type)) m'
  unfolding tokens_of_type
  tokens_of_type-Follows flat_id food_type zero plan m {m'} f h =
      let same : m ≡ m' = ground arith in subst₂ (Follows i) (sym (append-nil plan)) same f
  tokens_of_type-Follows flat_id food_type (suc n) plan m {m'} f h =
      elim (Result-cases (build_token_code i.token_length i.draw m.codes m.draws)) [
        | inl (e, failed) ↦ absurd (ground (arith, rw (tokens_of_type, failed) at h))
        | inr ((code, k), drawn) ↦
            let next = with_code i flat_id food_type m code k in
            let rest : tokens_of_type i flat_id food_type n next ≡ ok m' =
              rw (tokens_of_type, drawn) at h in
            let fresh = build_token_code-fresh _ i.draw m.codes m.draws drawn in
            subst (λ xs. Follows i xs m') (append_assoc plan ((flat_id, food_type) ∷ []) _)
              (tokens_of_type-Follows flat_id food_type n _ next
                (with_code-Follows flat_id food_type plan m code k f fresh) rest)
      ]

  and_then-ok :
      (r : Result Made) (g : Made → Result Made) {m' : Made} {P : Type 0}
      → and_then r g ≡ ok m'
      → ((m : Made) → r ≡ ok m → g m ≡ ok m' → P)
      → P
  and_then-ok (ok m) g h k = k m refl h
  and_then-ok (err e) g h k = cc

  tokens_of_pass-Follows :
      (p : EventFoodPass) (plan : List (ℕ × String)) (m : Made) {m' : Made}
      → Follows i plan m
      → tokens_of_pass i p m ≡ ok m'
      → Follows i (plan ++ plan_of_pass p) m'
  unfolding tokens_of_pass
  tokens_of_pass-Follows p plan m {m'} f h = and_then-ok _ _ h λ m1 veg h1.
      and_then-ok _ _ h1 λ m2 jain kids.
        let f1 = tokens_of_type-Follows p.flat_id "veg" _ plan m f veg in
        let f2 = tokens_of_type-Follows p.flat_id "jain" _ _ m1 f1 jain in
        let veg_plan = copies (pos_part p.veg_count) (p.flat_id, "veg") in
        let jain_plan = copies (pos_part p.jain_count) (p.flat_id, "jain") in
        let kids_plan = copies (pos_part p.kids_count) (p.flat_id, "kids") in
        subst (λ xs. Follows i xs m')
          (ap (λ zs. zs ++ kids_plan) (append_assoc plan veg_plan jain_plan)
            ∙ append_assoc plan (veg_plan ++ jain_plan) kids_plan)
          (tokens_of_type-Follows p.flat_id "kids" (pos_part p.kids_count) _ m2 f2 kids)

  pub tokens_of_passes-Follows :
      (ps : List EventFoodPass) (plan : List (ℕ × String)) (m : Made) {m' : Made}
      → Follows i plan m
      → tokens_of_passes i ps m ≡ ok m'
      → Follows i (plan ++ plan_of ps) m'
  unfolding tokens_of_passes
  tokens_of_passes-Follows [] plan m {m'} f h =
      let same : m ≡ m' = ground arith in subst₂ (Follows i) (sym (append-nil plan)) same f
  tokens_of_passes-Follows (p ∷ ps) plan m {m'} f h = and_then-ok _ _ h λ m1 first rest.
      subst (λ xs. Follows i xs m') (append_assoc plan (plan_of_pass p) (plan_of ps))
        (tokens_of_passes-Follows ps _ m1 (tokens_of_pass-Follows p plan m f first) rest)

-- Among the draws that are allowed, one that is not in use is enough.
draw_unused-finds :
    (n : ℕ) (draw : ℕ → String) (existing : List String) (k j : ℕ)
    → j < n
    → contains (draw (k + j)) existing ≡ false
    → (code : String) × (k' : ℕ) × (draw_unused n draw existing k ≡ ok (code, k'))
unfolding draw_unused
draw_unused-finds zero draw existing k j lt free = absurd (omega arith)
draw_unused-finds (suc n) draw existing k zero lt free =
    let here : k + 0 ≡ k = omega arith in (draw k, suc k, rw (draw_unused, rw here at free) refl)
draw_unused-finds (suc n) draw existing k (suc j) lt free =
    let further : k + suc j ≡ suc k + j = omega arith in
    elim (Bool-cases (contains (draw k) existing)) [
      | inr unused ↦ (draw k, suc k, rw (draw_unused, unused) refl)
      | inl used ↦
          let (code, k', found) =
            draw_unused-finds n draw existing (suc k) j (omega (arith, lt)) (rw further at free) in
          (code, k', rw (draw_unused, used) found)
    ]

-- A code is found when the codes in use do not fill the space and one of the draws that are allowed is
-- not in use: the loop ends with a code, and the code is new.
pub build_token_code-finds :
    (len : ℕ) (draw : ℕ → String) (existing : List String) (k j : ℕ)
    → length existing < alphabet_size ^ len
    → j < max_attempts (alphabet_size ^ len) (length existing)
    → contains (draw (k + j)) existing ≡ false
    → (code : String) × (k' : ℕ) × (build_token_code len draw existing k ≡ ok (code, k'))
      × (contains code existing ≡ false)
unfolding build_token_code
build_token_code-finds len draw existing k j room lt free =
    let (code, k', found) = draw_unused-finds _ draw existing k j lt free in
    let not_full : leb (alphabet_size ^ len) (length existing) ≡ false = ground (arith, room) in
    (code, k', rw (build_token_code, not_full) found, draw_unused-fresh _ draw existing k found)
