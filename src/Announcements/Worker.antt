-- ===== src/Announcements/Worker.antt =====
-- app/modules/announcements/delivery_worker.py: the processing of a delivery, the claim of a batch, and
-- the run of both. The queue and the provider are parameters.
use society_agent.Prelude.{
  ℕ, zero, suc, ◌+◌, String, Bool, true, false, not, ◌&&◌, Option, none, some, List, [], ◌∷◌, ◌++◌,
  find_all, update_where, length, is_some, ltb, ◌==◌, if◌then◌else◌,
}
use society_agent.Announcements.Models.{
  DeliveryStatus, pending, processing, sent, failed, skipped, AnnouncementDelivery, Key, key_of,
  TemplateMessage, World, find_delivery, save_delivery, is_done,
}
use society_agent.Announcements.Templates.{Failure}
use society_agent.Announcements.Sending.{
  SendOutcome, missing, already_sent, sent_template, skipped_no_opt_in, retry_deferred, gives_up,
  raised, Prepared, answers, refuses, hands_over, is_transient_error, prepare_delivery,
}

-- `ANNOUNCEMENT_RETRY_MAX`; `_rq_enabled()`; whether the queue takes a job; `str(exc)[:2000]`; what the
-- client's call for the n-th message raises, `none` when it returns; and what the commit after that call
-- raises, `none` when it commits. A call that raises may have reached the provider. The worker's other
-- commits succeed.
pub record Setup : Type 0 where
  pub max_attempts : ℕ
  pub rq_enabled : Bool
  pub enqueues : Key → Bool
  pub error_text : Failure → String
  pub answer : ℕ → Option Failure
  pub commit_error : ℕ → Option Failure

abbrev pub same_status : DeliveryStatus → DeliveryStatus → Bool
same_status pending pending = true
same_status processing processing = true
same_status sent sent = true
same_status failed failed = true
same_status skipped skipped = true
same_status _ _ = false

unfoldable pub count_status : ℕ → DeliveryStatus → List AnnouncementDelivery → ℕ
count_status a status ds =
    length (find_all (λ d. d.announcement_id == a && same_status d.status status) ds)

-- `_refresh_announcement_summary`; the counts are of the stored rows: the status that was just set is
-- not flushed.
unfoldable pub refresh_announcement_summary : ℕ → World → World
refresh_announcement_summary a w = record w {
  announcements =
      update_where (λ row. row.id == a)
        (λ row. record row {
          total_targets = length (find_all (λ d. d.announcement_id == a) w.deliveries);
          sent_count = count_status a sent w.deliveries;
          failed_count = count_status a failed w.deliveries;
          skipped_count = count_status a skipped w.deliveries;
        })
        w.announcements;
}

-- The row after an attempt.
abbrev pub tried : AnnouncementDelivery → AnnouncementDelivery
tried d = record d { attempts = suc d.attempts; processing_started_at = none }

-- The row by the outcome of an attempt that did not raise.
abbrev pub settled : AnnouncementDelivery → SendOutcome → Option String → ℕ → AnnouncementDelivery
settled d sent_template reason now = record (tried d) {
  status = sent;
  sent_at = some now;
  last_error = none;
}
settled d skipped_no_opt_in reason now = record (tried d) { status = skipped; last_error = reason }
settled d _ reason now = record (tried d) { status = failed; last_error = reason }

unfoldable pub record_outcome :
    AnnouncementDelivery → SendOutcome → Option String → ℕ → World → SendOutcome × World
record_outcome d outcome reason now w = (
  outcome,
  save_delivery (settled d outcome reason now) (refresh_announcement_summary d.announcement_id w),
)

module _ (c : Setup) where
  abbrev pub after_failure : AnnouncementDelivery → Failure → DeliveryStatus → AnnouncementDelivery
  after_failure d f status = record (tried d) {
    status = status;
    last_error = some (c.error_text f);
  }

  -- The body of the `except` block.
  unfoldable pub handle_failure : AnnouncementDelivery → Failure → World → SendOutcome × World
  handle_failure d f w =
      if is_transient_error f && ltb (suc d.attempts) c.max_attempts
      then (
        (if c.rq_enabled then raised f else retry_deferred),
        save_delivery (after_failure d f pending) w,
      )
      else (
        (if c.rq_enabled then raised f else gives_up),
        save_delivery (after_failure d f failed) (refresh_announcement_summary d.announcement_id w),
      )

  -- The message is handed over, in a call that returns or raises.
  abbrev pub hand_over : AnnouncementDelivery → TemplateMessage → Bool → World → World
  hand_over d m returned w = record w {
    handed = w.handed ++ record { key = key_of d; message = m; returned = returned } ∷ [];
  }

  -- The commit after a call that returned; when it raises, its changes are rolled back.
  abbrev pub committing : AnnouncementDelivery → ℕ → World → Option Failure → SendOutcome × World
  committing d now w none = record_outcome d sent_template none now w
  committing d now w (some f) = handle_failure d f w

  -- The call of the client, then the commit: an exception of either is handled in the same way.
  abbrev pub sending :
      AnnouncementDelivery
      → TemplateMessage
      → ℕ
      → World
      → Option Failure
      → Option Failure
      → SendOutcome × World
  sending d m now w none commit_error = committing d now (hand_over d m true w) commit_error
  sending d m now w (some f) commit_error = handle_failure d f (hand_over d m false w)

  abbrev pub attempt : AnnouncementDelivery → ℕ → World → Prepared → SendOutcome × World
  attempt d now w (answers outcome reason) = record_outcome d outcome reason now w
  attempt d now w (refuses f) = handle_failure d f w
  attempt d now w (hands_over m) =
      sending d m now w (c.answer (length w.handed)) (c.commit_error (length w.handed))

  abbrev pub started : AnnouncementDelivery → ℕ → AnnouncementDelivery
  started d now = record d { status = processing; processing_started_at = some now }

  -- The row is marked and committed, then the message is sent.
  unfoldable pub process_found : AnnouncementDelivery → ℕ → World → SendOutcome × World
  process_found d now w =
      let w1 = save_delivery (started d now) w in
      attempt (started d now) now w1 (prepare_delivery w1 (started d now))

  abbrev pub process_row : Option AnnouncementDelivery → ℕ → World → SendOutcome × World
  process_row none now w = (missing, w)
  process_row (some d) now w = if is_done d then (already_sent, w) else process_found d now w

  -- `process_announcement_delivery`
  unfoldable pub process_announcement_delivery : Key → ℕ → World → SendOutcome × World
  process_announcement_delivery k now w = process_row (find_delivery k w) now w

  -- `enqueue_delivery_by_key`
  abbrev pub enqueue_delivery_by_key : Key → ℕ
  enqueue_delivery_by_key k = if c.rq_enabled && c.enqueues k then 1 else 0

  -- `outcome.startswith("sent_")`
  abbrev pub is_delivered : SendOutcome → Bool
  is_delivered sent_template = true
  is_delivered _ = false

  -- The loop over the claimed deliveries.
  unfoldable pub run_claimed : List Key → ℕ → World → ℕ × World
  run_claimed [] now w = (0, w)
  run_claimed (k ∷ ks) now w = elim c.rq_enabled [
    | true ↦ let (n, w') = run_claimed ks now w in (enqueue_delivery_by_key k + n, w')
    | false ↦
        let (outcome, w1) = process_announcement_delivery k now w in
        let (n, w') = run_claimed ks now w1 in ((if is_delivered outcome then 1 else 0) + n, w')
  ]

-- `sent_at IS NULL AND status IN ('pending', 'processing')`
abbrev pub is_waiting : DeliveryStatus → Bool
is_waiting pending = true
is_waiting processing = true
is_waiting _ = false

abbrev pub is_claimable : AnnouncementDelivery → Bool
is_claimable d = not (is_some d.sent_at) && is_waiting d.status

-- The claim of at most `n` rows, which stand in the order of their keys, and the rows after it. No
-- other worker holds a lock on them.
unfoldable pub claim : ℕ → ℕ → List AnnouncementDelivery → List Key × List AnnouncementDelivery
claim n now [] = ([], [])
claim zero now (d ∷ ds) = ([], d ∷ ds)
claim (suc n) now (d ∷ ds) = elim (is_claimable d) [
  | false ↦ let (ks, rest) = claim (suc n) now ds in (ks, d ∷ rest)
  | true ↦
      let (ks, rest) = claim n now ds in
      (key_of d ∷ ks, record d { status = processing; processing_started_at = some now } ∷ rest)
]

-- `_claim_pending_deliveries`
unfoldable pub claim_pending_deliveries : ℕ → ℕ → World → List Key × World
claim_pending_deliveries n now w =
    let (ks, rows) = claim n now w.deliveries in (ks, record w { deliveries = rows })

-- `run_pending_announcement_deliveries`
unfoldable pub run_pending_announcement_deliveries : Setup → ℕ → ℕ → World → ℕ × World
run_pending_announcement_deliveries c batch_size now w =
    let (ks, w1) = claim_pending_deliveries batch_size now w in run_claimed c ks now w1
