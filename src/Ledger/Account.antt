-- ===== src/Ledger/Account.antt =====
-- The ledger against an abstract account: what is paid in and out of each event, entry by entry.
use mathlib.Core.Path.{subst, subst₂}
use society_agent.Prelude.{ℕ, ◌≡◌, refl, ◌∙◌, List, [], ◌∷◌}
use society_agent.Prelude.Int.{ℤ, ◌+ℤ◌, ◌-ℤ◌}
use society_agent.Validation.{uuid}
use society_agent.Db.{Tables}
use society_agent.Db.Errors.{ok}
use society_agent.Db.Session.{Session, Exec}
use society_agent.Db.Ran.{IsClean}
use society_agent.Payments.Record.{PaymentInput, record_payment}
use society_agent.Payments.Refund.{RefundInput, process_refund}
use society_agent.Expenses.Service.{ExpenseInput, add_expense}
use society_agent.Contributions.Service.{ContributionInput, add_contribution}
use society_agent.Contributions.Refund.{ContributionRefundInput, process_contribution_refund}
use society_agent.Ledger.Service.{closing_balance, amount_or_zero}
use society_agent.Ledger.Moves.{counted}
use society_agent.Ledger.Closing.{
  record_payment-moves, process_refund-moves, add_expense-moves, add_contribution-moves,
  process_contribution_refund-moves,
}

-- An entry of the abstract account.
pub data Entry : Type 0 where
  credits debits : (event_id : ℕ) → (amount : ℤ) → Entry
  no_entry : Entry

-- The account after an entry: the balance of its event changes, and no other.
abbrev pub post : Entry → (ℕ → ℤ) → ℕ → ℤ
post (credits e amount) account e' = account e' +ℤ counted e e' amount
post (debits e amount) account e' = account e' -ℤ counted e e' amount
post no_entry account e' = account e'

-- The entries stand with the latest first.
abbrev pub post_all : List Entry → (ℕ → ℤ) → ℕ → ℤ
post_all [] account = account
post_all (x ∷ xs) account = post x (post_all xs account)

-- A call that returned, in a session of its own.
pub record Returned {A : Type 0} (m : Exec A) (t t' : Tables) : Type 0 where
  pub session : Session
  pub clean : IsClean session
  pub before : session.durable ≡ t
  pub value : A
  pub left : Session
  pub ran : m session ≡ (ok value, left)
  pub after : left.durable ≡ t'

-- A call of a service that moves money, and the entry that it stands for.
pub data Booked (t : Tables) : Entry → Tables → Type 0 where
  paid :
      {t' : Tables} (i : PaymentInput) (e : ℕ)
      → i.event_id ≡ uuid e
      → Returned (record_payment i) t t'
      → Booked t (credits e i.amount) t'
  refunded :
      {t' : Tables} (i : RefundInput) (e : ℕ)
      → i.event_id ≡ uuid e
      → Returned (process_refund i) t t'
      → Booked t (debits e i.amount) t'
  spent :
      {t' : Tables} (i : ExpenseInput)
      → Returned (add_expense i) t t'
      → Booked t (debits i.event_id i.amount) t'
  given :
      {t' : Tables} (i : ContributionInput)
      → Returned (add_contribution i) t t'
      → Booked t (credits i.event_id (amount_or_zero i.amount)) t'
  repaid :
      {t' : Tables} (i : ContributionRefundInput)
      → Returned (process_contribution_refund i) t t'
      → Booked t no_entry t'

pub data History (t : Tables) : List Entry → Tables → Type 0 where
  nothing : History t [] t
  then_next :
      {x : Entry} {xs : List Entry} {u t' : Tables}
      → History t xs u
      → Booked u x t'
      → History t (x ∷ xs) t'

module _ (o : ℤ) where
  balances : Tables → ℕ → ℤ
  balances t e = closing_balance o e t

  Returned-moves :
      {A : Type 0} {m : Exec A} {t t' : Tables} (r : Returned m t t') (x : Entry)
      → ((e' : ℕ) → balances r.left.durable e' ≡ post x (balances r.session.durable) e')
      → (e' : ℕ) → balances t' e' ≡ post x (balances t) e'
  Returned-moves r x h e' =
      subst₂ (λ a b. balances b e' ≡ post x (balances a) e') r.before r.after (h e')

  clean_start :
      {A : Type 0} {m : Exec A} {t t' : Tables} (r : Returned m t t') (x : Entry)
      → ((e' : ℕ) → balances r.left.durable e' ≡ post x (balances r.session.current) e')
      → (e' : ℕ) → balances r.left.durable e' ≡ post x (balances r.session.durable) e'
  clean_start r x h e' =
      subst (λ a. balances r.left.durable e' ≡ post x (balances a) e') r.clean (h e')

  Booked-posts :
      {t t' : Tables} {x : Entry}
      → Booked t x t'
      → (e' : ℕ) → balances t' e' ≡ post x (balances t) e'
  unfolding balances
  Booked-posts (paid i e eid r) =
      Returned-moves r (credits e i.amount)
        (clean_start r (credits e i.amount) (record_payment-moves i e r.session eid r.ran o))
  Booked-posts (refunded i e eid r) =
      Returned-moves r (debits e i.amount) (process_refund-moves i e r.session r.clean eid r.ran o)
  Booked-posts (spent i r) =
      Returned-moves r (debits i.event_id i.amount)
        (clean_start r (debits i.event_id i.amount) (add_expense-moves i r.session r.ran o))
  Booked-posts (given i r) = Returned-moves r (credits i.event_id (amount_or_zero i.amount)) (
      clean_start r (credits i.event_id (amount_or_zero i.amount))
        (add_contribution-moves i r.session r.ran o))
  Booked-posts (repaid i r) =
      Returned-moves r no_entry
        (clean_start r no_entry (process_contribution_refund-moves i r.session r.ran o))

  post-same : (x : Entry) (a b : ℕ → ℤ) → ((e : ℕ) → a e ≡ b e) → (e : ℕ) → post x a e ≡ post x b e
  post-same (credits e amount) a b h e' = rw (h e') refl
  post-same (debits e amount) a b h e' = rw (h e') refl
  post-same no_entry a b h e' = h e'

  -- The services that move money refine an account of one balance for each event: after any sequence
  -- of their calls that returned, the closing balances of the ledger are those before it with the
  -- entries of the calls posted in their order: a payment and a contribution in money credit their
  -- event, a refund to a flat and an expense debit it, and a contribution paid back posts nothing.
  pub closing_balance-refines :
      {t t' : Tables} {xs : List Entry}
      → History t xs t'
      → (e : ℕ) → closing_balance o e t' ≡ post_all xs (λ e'. closing_balance o e' t) e
  unfolding balances
  closing_balance-refines nothing e = refl
  closing_balance-refines {t} {t'} (then_next {x} {xs} {u} before b) e =
      Booked-posts b e
      ∙ post-same x (balances u) (post_all xs (balances t)) (closing_balance-refines before) e
