-- ===== src/Prelude/Sums.antt =====
-- `coalesce(sum(g), 0)` over the rows that meet a test, and how it changes with the table.
use mathlib.Core.Path.{◌≡◌}
use mathlib.Core.Bool.{Bool}
use mathlib.Core.Logic.{inl, inr}
use mathlib.Core.Option.{Option, none, some}
use mathlib.Core.List.{List, [], ◌∷◌, ◌++◌}
use society_agent.Prelude.Tests.{Bool-cases, if◌then◌else◌}
use society_agent.Prelude.Rows.{find_first, save}
use society_agent.Prelude.Int.{ℤ, 0ℤ, ◌+ℤ◌, +ℤ_under, int_laws}

module _ {A : Type 0} where
  unfoldable pub sum_where : (A → Bool) → (A → ℤ) → List A → ℤ
  sum_where p g [] = 0ℤ
  sum_where p g (x ∷ xs) = (if p x then g x else 0ℤ) +ℤ sum_where p g xs

  -- What an optional row adds to such a sum.
  abbrev pub share : (A → Bool) → (A → ℤ) → Option A → ℤ
  share p g none = 0ℤ
  share p g (some x) = if p x then g x else 0ℤ

  pub sum_where-append :
      (p : A → Bool) (g : A → ℤ) (xs ys : List A)
      → sum_where p g (xs ++ ys) ≡ sum_where p g xs +ℤ sum_where p g ys
  unfolding sum_where
  sum_where-append p g [] ys = omega int_laws
  sum_where-append p g (x ∷ xs) ys = grind (int_laws, sum_where-append p g xs ys)

  pub sum_where-add :
      (p : A → Bool) (g : A → ℤ) (xs : List A) (x : A)
      → sum_where p g (xs ++ x ∷ []) ≡ sum_where p g xs +ℤ share p g (some x)
  unfolding sum_where
  sum_where-add p g [] x = omega int_laws
  sum_where-add p g (y ∷ xs) x = grind (int_laws, sum_where-add p g xs x)

  pub sum_where-save :
      (p q : A → Bool) (g : A → ℤ) (r : A) (xs : List A)
      → sum_where q g (save p r xs) +ℤ share q g (find_first p xs)
        ≡ sum_where q g xs +ℤ share q g (some r)
  unfolding sum_where save find_first
  sum_where-save p q g r [] = omega int_laws
  sum_where-save p q g r (x ∷ xs) = elim (Bool-cases (p x)) [
    | inl e ↦ rw e (omega int_laws)
    | inr e ↦ rw e (+ℤ_under _ _ _ _ _ (sum_where-save p q g r xs))
  ]
