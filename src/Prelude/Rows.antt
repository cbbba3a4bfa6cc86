-- ===== src/Prelude/Rows.antt =====
-- A database table as the list of its rows, oldest first. `find_first` is `query.filter(p).first()`;
-- `save` stands for the change of a row that `first()` found, or for the `add` of a new one.
use mathlib.Core.Path.{◌≡◌}
use mathlib.Core.Bool.{Bool, true, false}
use mathlib.Core.Option.{Option, none, some}
use mathlib.Core.List.{List, [], ◌∷◌, ◌++◌}
use native.Mathlib.Omega.{arith}
use Prim.Native.Nat.{ℕ, suc, ◌+◌}
use mathlib.Core.Logic.{inl, inr}
use society_agent.Prelude.Tests.{Bool-cases, if◌then◌else◌}

module _ {ℓ} {A : Type ℓ} where
  unfoldable pub find_first : (A → Bool) → List A → Option A
  find_first p [] = none
  find_first p (x ∷ xs) = if p x then some x else find_first p xs

  -- `query.filter(p).all()`
  unfoldable pub find_all : (A → Bool) → List A → List A
  find_all p [] = []
  find_all p (x ∷ xs) = let rest = find_all p xs in if p x then x ∷ rest else rest

  -- The first row that meets `p` becomes `r`; with no such row `r` is added.
  unfoldable pub save : (A → Bool) → A → List A → List A
  save p r [] = r ∷ []
  save p r (x ∷ xs) = if p x then r ∷ xs else x ∷ save p r xs

  -- SQL's UPDATE: every row that meets `p` is changed.
  unfoldable pub update_where : (A → Bool) → (A → A) → List A → List A
  update_where p f [] = []
  update_where p f (x ∷ xs) = let rest = update_where p f xs in if p x then f x ∷ rest else x ∷ rest

  abbrev pub length : List A → ℕ
  length [] = 0
  length (x ∷ xs) = suc (length xs)

  pub find_first_sound :
      (p : A → Bool) (xs : List A) {x : A} → find_first p xs ≡ some x → p x ≡ true
  unfolding find_first
  find_first_sound p [] h = ground arith
  find_first_sound p (y ∷ xs) {x} h = ground (arith, find_first_sound p xs {x = x})

  pub find_first-save_self :
      (p : A → Bool) (r : A) (xs : List A) → p r ≡ true → find_first p (save p r xs) ≡ some r
  unfolding find_first save
  find_first-save_self p r [] h = ground arith
  find_first-save_self p r (x ∷ xs) h = ground (arith, find_first-save_self p r xs)

  -- A test that no row of `p` passes, old or new, does not see the change.
  pub find_first-save_ne :
      (p q : A → Bool) (r : A) (xs : List A)
      → q r ≡ false
      → ((x : A) → p x ≡ true → q x ≡ false)
      → find_first q (save p r xs) ≡ find_first q xs
  unfolding find_first save
  find_first-save_ne p q r [] h k = ground arith
  find_first-save_ne p q r (x ∷ xs) h k = ground (arith, k x, find_first-save_ne p q r xs h k)

  -- A row that is added last is found by its key, if no earlier row has the key, and by no other.
  pub find_first-add_self :
      (p : A → Bool) (xs : List A) (x : A)
      → find_first p xs ≡ none
      → p x ≡ true
      → find_first p (xs ++ x ∷ []) ≡ some x
  unfolding find_first
  find_first-add_self p [] x h k = ground arith
  find_first-add_self p (y ∷ xs) x h k = ground (arith, find_first-add_self p xs x)

  pub find_first-add_ne :
      (p : A → Bool) (xs : List A) (x : A)
      → p x ≡ false
      → find_first p (xs ++ x ∷ []) ≡ find_first p xs
  unfolding find_first
  find_first-add_ne p [] x k = ground arith
  find_first-add_ne p (y ∷ xs) x k = ground (arith, find_first-add_ne p xs x k)

  pub find_first-append :
      (p : A → Bool) (xs ys : List A) {x : A}
      → find_first p xs ≡ some x
      → find_first p (xs ++ ys) ≡ some x
  unfolding find_first
  find_first-append p [] ys h = cc
  find_first-append p (y ∷ xs) ys {x} h = ground (arith, find_first-append p xs ys {x = x})

  -- A change of the row that `p` finds changes a count by that row.
  pub length-find_all-save :
      (p q : A → Bool) (r : A) (xs : List A) {x : A}
      → find_first p xs ≡ some x
      → length (find_all q (save p r xs)) + (if q x then 1 else 0)
        ≡ length (find_all q xs) + (if q r then 1 else 0)
  unfolding find_first find_all save
  length-find_all-save p q r [] h = cc
  length-find_all-save p q r (y ∷ xs) {x} h = elim (Bool-cases (p y)) [
    | inl here ↦ ground (arith, here)
    | inr later ↦ ground (arith, later, length-find_all-save p q r xs {x = x})
  ]
