-- ===== src/Announcements/Batches.antt =====
-- A run of the worker as a sequence of calls, and two claims in a row.
use society_agent.Prelude.{
  ℕ, zero, suc, ◌≡◌, refl, ap, true, false, some, List, [], ◌∷◌, inl, inr, Bool-cases, arith,
}
use society_agent.Announcements.Models.{processing, AnnouncementDelivery, Key, key_of, World}
use society_agent.Announcements.Worker.{
  Setup, is_claimable, claim, claim_pending_deliveries, process_announcement_delivery, run_claimed,
  run_pending_announcement_deliveries,
}
use society_agent.Announcements.Calls.{Call, claims, processes, run_calls}

abbrev pub process_all : List Key → ℕ → List Call
process_all [] now = []
process_all (k ∷ ks) now = processes k now ∷ process_all ks now

run_claimed-calls :
    (c : Setup) (ks : List Key) (now : ℕ) (w : World)
    → c.rq_enabled ≡ false
    → (run_claimed c ks now w).1 ≡ run_calls c (process_all ks now) w
unfolding run_claimed run_calls
run_claimed-calls c [] now w h = refl
run_claimed-calls c (k ∷ ks) now w h =
    let rest = run_claimed-calls c ks now (process_announcement_delivery c k now w).1 h in
    ground (arith, h, rest)

-- A run of the worker that delivers by itself is a claim, and a processing of each claimed delivery.
pub run_pending_announcement_deliveries-calls :
    (c : Setup) (n now : ℕ) (w : World)
    → c.rq_enabled ≡ false
    → (run_pending_announcement_deliveries c n now w).1
      ≡ run_calls c (claims n now ∷ process_all (claim_pending_deliveries n now w).0 now) w
unfolding run_pending_announcement_deliveries run_calls
run_pending_announcement_deliveries-calls c n now w h = run_claimed-calls c _ now _ h

claim_again :
    (n now later : ℕ) (ds : List AnnouncementDelivery)
    → (claim n later (claim n now ds).1).0 ≡ (claim n now ds).0
unfolding claim
claim_again n now later [] = refl
claim_again zero now later (d ∷ ds) = refl
claim_again (suc n) now later (d ∷ ds) = elim (Bool-cases (is_claimable d)) [
  | inl mine ↦
      let taken = record d { status = processing; processing_started_at = some now } in
      let again : is_claimable taken ≡ true = ground (arith, mine) in
      rw (claim, mine) (rw (claim, again) (ap (λ ks. key_of d ∷ ks) (claim_again n now later ds)))
  | inr others ↦ rw (claim, others) (rw (claim, others) (claim_again (suc n) now later ds))
]

-- A claim does not keep its deliveries from the next: a worker that claims before they are processed
-- claims the same deliveries again.
pub claim_pending_deliveries-repeats :
    (n now later : ℕ) (w : World)
    → (claim_pending_deliveries n later (claim_pending_deliveries n now w).1).0
      ≡ (claim_pending_deliveries n now w).0
unfolding claim_pending_deliveries
claim_pending_deliveries-repeats n now later w = claim_again n now later w.deliveries
