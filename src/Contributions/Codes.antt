-- ===== src/Contributions/Codes.antt =====
-- The codes of an event's contributions: they count up from 1, so each names one contribution.
use society_agent.Prelude.{
  ℕ, suc, ◌+◌, ◌≡◌, refl, none, some, List, [], ◌∷◌, ◌++◌, ◌&&◌, find_first, find_all, length, inl,
  inr, Bool-cases, arith, ◌==◌, ◌<◌, if◌then◌else◌, Bool, find_first-add_self,
}
use society_agent.Db.{EventContribution, Tables}
use society_agent.Db.Errors.{ok}
use society_agent.Db.Session.{Session}
use society_agent.Contributions.Service.{
  ContributionInput, is_contribution_to, next_code, new_contribution, add_contribution,
}
use society_agent.Contributions.Refund.{find_contribution}
use society_agent.Contributions.Effects.{Contributed, add_contribution-ok}

-- The rows carry the codes `n + 1`, `n + 2` and so on.
abbrev CountsFrom : ℕ → List EventContribution → Type 0
CountsFrom n [] = Unit
CountsFrom n (c ∷ cs) = (c.contribution_code ≡ suc n) × CountsFrom (suc n) cs

unfoldable pub contributions_to : ℕ → Tables → List EventContribution
contributions_to e t = find_all (is_contribution_to e) t.contributions

-- In each event the contributions are numbered from 1, in the order in which they came.
abbrev pub IsNumbered : Tables → Type 0
IsNumbered t = (e : ℕ) → CountsFrom 0 (contributions_to e t)

find_all-add :
    (p : EventContribution → Bool) (xs : List EventContribution) (x : EventContribution)
    → find_all p (xs ++ x ∷ []) ≡ (if p x then find_all p xs ++ x ∷ [] else find_all p xs)
unfolding find_all
find_all-add p [] x = refl
find_all-add p (y ∷ xs) x = ground (arith, find_all-add p xs x)

CountsFrom-add :
    (n : ℕ) (xs : List EventContribution) (x : EventContribution)
    → CountsFrom n xs
    → x.contribution_code ≡ suc (n + length xs)
    → CountsFrom n (xs ++ x ∷ [])
CountsFrom-add n [] x h k = (ground arith, tt)
CountsFrom-add n (y ∷ xs) x h k = (h.0, CountsFrom-add (suc n) xs x h.1 (omega (arith, k)))

CountsFrom-none :
    (e k n : ℕ) (xs : List EventContribution)
    → CountsFrom n (find_all (is_contribution_to e) xs)
    → n + length (find_all (is_contribution_to e) xs) < k
    → find_first (λ row. row.event_id == e && row.contribution_code == k) xs ≡ none
unfolding find_all find_first
CountsFrom-none e k n [] h lt = refl
CountsFrom-none e k n (x ∷ xs) h lt = elim (Bool-cases (x.event_id == e)) [
  | inl here ↦
      let (code, rest) = rw here at h in
      let later = CountsFrom-none e k (suc n) xs rest (omega (arith, rw here at lt)) in
      rw here (ground (arith, later, rw here at lt))
  | inr other ↦ rw other (CountsFrom-none e k n xs (rw other at h) (rw other at lt))
]

pub same_contributions-IsNumbered :
    (t t' : Tables) → t'.contributions ≡ t.contributions → IsNumbered t → IsNumbered t'
unfolding contributions_to
same_contributions-IsNumbered t t' same h e = rw same (h e)

-- Contributions keep their numbering.
pub Contributed-IsNumbered :
    (i : ContributionInput) (t : Tables) (code : ℕ) (t' : Tables)
    → Contributed i t code t'
    → IsNumbered t
    → IsNumbered t'
unfolding contributions_to next_code
Contributed-IsNumbered i t code t' r h e = rw r.written (
    rw (find_all-add (is_contribution_to e) t.contributions (new_contribution i code))
      (elim (Bool-cases (i.event_id == e)) [
        | inl here ↦
            let same : i.event_id ≡ e = ground arith in
            rw here (
              CountsFrom-add 0 (find_all (is_contribution_to e) t.contributions) _ (h e)
                (omega (arith, rw same at r.code_of)))
        | inr other ↦ rw other (h e)
      ]))

find_first-add_old :
    (p : EventContribution → Bool) (xs : List EventContribution) (x : EventContribution)
    {c : EventContribution}
    → find_first p xs ≡ some c
    → find_first p (xs ++ x ∷ []) ≡ some c
unfolding find_first
find_first-add_old p [] x h = cc
find_first-add_old p (y ∷ xs) x {c} h = ground (arith, find_first-add_old p xs x {c = c})

-- If the contributions of each event are numbered from 1, a contribution that is added gets a code
-- that finds it, and every code finds what it found before.
pub add_contribution-codes :
    (i : ContributionInput) (s : Session) {code : ℕ} {s' : Session}
    → IsNumbered s.current
    → add_contribution i s ≡ (ok code, s')
    → (find_contribution i.event_id code s'.durable ≡ some (new_contribution i code))
      × ((e k : ℕ) (c : EventContribution)
          → find_contribution e k s.current ≡ some c
          → find_contribution e k s'.durable ≡ some c)
unfolding find_contribution contributions_to next_code
add_contribution-codes i s {code} {s'} numbered h =
    let r : Contributed i s.current code s'.durable = add_contribution-ok i s h in
    let unused =
      CountsFrom-none i.event_id code 0 s.current.contributions (numbered i.event_id)
        (omega (arith, r.code_of)) in
    rw r.written (
      find_first-add_self (λ row. row.event_id == i.event_id && row.contribution_code == code)
          s.current.contributions (new_contribution i code) unused (ground arith),
      λ e k c found.
          find_first-add_old (λ row. row.event_id == e && row.contribution_code == k)
            s.current.contributions (new_contribution i code) found,
    )
