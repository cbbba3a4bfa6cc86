-- ===== src/Announcements/Calls.antt =====
-- Sequences of claims and processings, of any deliveries and in any order.
use mathlib.Core.Path.{subst, subst₂}
use society_agent.Prelude.{
  ℕ, zero, suc, ◌+◌, ◌≡◌, refl, sym, ap, ◌∙◌, Bool, true, false, Option, none, some, List, [], ◌∷◌,
  inl, inr, Bool-cases, find_first, find_first_sound, arith, if◌then◌else◌,
}
use society_agent.Announcements.Models.{
  processing, AnnouncementDelivery, Key, key_of, same_key, is_at, World, find_delivery, is_done,
}
use society_agent.Announcements.Worker.{
  Setup, is_claimable, claim, claim_pending_deliveries, process_found, process_row,
  process_announcement_delivery,
}
use society_agent.Announcements.Machine.{Move, phase}
use society_agent.Announcements.Processed.{
  same_key_eq, same_key_refl, Handled, Handled-still, Processed, process_found-Processed,
  process_found-other,
}

pub data Call : Type 0 where
  claims : (batch_size now : ℕ) → Call
  processes : (k : Key) → (now : ℕ) → Call

abbrev pub run_call : Setup → Call → World → World
run_call c (claims n now) w = (claim_pending_deliveries n now w).1
run_call c (processes k now) w = (process_announcement_delivery c k now w).1

unfoldable pub run_calls : Setup → List Call → World → World
run_calls c [] w = w
run_calls c (x ∷ xs) w = run_calls c xs (run_call c x w)

abbrev pub is_for : Key → Call → Bool
is_for k (claims n now) = false
is_for k (processes k' now) = same_key k' k

-- How many of the calls process the delivery.
abbrev pub times : Key → List Call → ℕ
times k [] = 0
times k (x ∷ xs) = (if is_for k x then 1 else 0) + times k xs

module _ (k : Key) where
  -- A claim leaves a delivery in its phase.
  claim-phase :
      (n now : ℕ) (ds : List AnnouncementDelivery) {d : AnnouncementDelivery}
      → find_first (is_at k) ds ≡ some d
      → (d' : AnnouncementDelivery) × (find_first (is_at k) (claim n now ds).1 ≡ some d')
        × (phase d' ≡ phase d)
  unfolding find_first claim
  claim-phase n now [] h = cc
  claim-phase zero now (x ∷ ds) {d} h = (d, h, refl)
  claim-phase (suc n) now (x ∷ ds) {d} h = elim (Bool-cases (is_claimable x)) [
    | inl mine ↦ elim (Bool-cases (is_at k x)) [
      | inl its ↦ (
        record x { status = processing; processing_started_at = some now },
        rw (claim, mine) (ground (arith, its)),
        ground (arith, mine),
      )
      | inr other ↦
          let (d', found, same) = claim-phase n now ds {d = d} (rw other at h) in
          (d', rw (claim, mine) (rw other found), same)
    ]
    | inr others ↦ elim (Bool-cases (is_at k x)) [
      | inl its ↦ (d, rw (claim, others) (rw its (rw its at h)), refl)
      | inr other ↦
          let (d', found, same) = claim-phase (suc n) now ds {d = d} (rw other at h) in
          (d', rw (claim, others) (rw other found), same)
    ]
  ]

-- What a call leaves of the delivery `d`.
pub record Called (limit : ℕ) (k : Key) (x : Call) (d : AnnouncementDelivery) (w w' : World)
    : Type 0 where
  pub row : AnnouncementDelivery
  pub found : find_delivery k w' ≡ some row
  pub moved : is_for k x ≡ true → Move limit (phase d) (phase row)
  pub kept : is_for k x ≡ false → phase row ≡ phase d
  pub handled : Handled k d row w w'

the_row : (d d' : AnnouncementDelivery) → some d' ≡ some d → d' ≡ d
the_row d d' same = cc

module _ (c : Setup) (k : Key) where
  claims-Called :
      (n now : ℕ) (w : World) (d : AnnouncementDelivery)
      → find_delivery k w ≡ some d
      → Called c.max_attempts k (claims n now) d w (claim_pending_deliveries n now w).1
  unfolding claim_pending_deliveries find_delivery
  claims-Called n now w d h =
      let (d', found, same) = claim-phase k n now w.deliveries h in
      record {
        row = d';
        found = found;
        moved = λ x. cc;
        kept = λ x. same;
        handled = Handled-still k d d' w _ same (refl, refl);
      }

  unchanged :
      (limit : ℕ) (k' : Key) (now : ℕ) (w : World) (d : AnnouncementDelivery)
      → find_delivery k w ≡ some d
      → (same_key k' k ≡ true → is_done d ≡ true)
      → Called limit k (processes k' now) d w w
  unchanged limit k' now w d h done = record {
    row = d;
    found = h;
    moved = λ x. record {
      rests = λ v. refl;
      counts = λ v. absurd (v (ground (arith, done x)));
      waits = λ v. absurd (v (ground (arith, done x)));
    };
    kept = λ x. refl;
    handled = Handled-still k d d w w refl (refl, refl);
  }

  processed_own :
      (now : ℕ) (w : World) (d : AnnouncementDelivery)
      → key_of d ≡ k
      → is_done d ≡ false
      → Called c.max_attempts k (processes k now) d w (process_found c d now w).1
  processed_own now w d key new =
      let p =
        subst (λ x. Processed c.max_attempts x d w (process_found c d now w).1) key
          (process_found-Processed c d now w new) in
      record {
        row = p.row;
        found = p.found;
        moved = λ x. p.move;
        kept = λ x. absurd (ground (arith, x, same_key_refl k));
        handled = p.handled;
      }

  processed_other :
      (k' : Key) (now : ℕ) (w : World) (d d' : AnnouncementDelivery)
      → find_delivery k w ≡ some d
      → key_of d' ≡ k'
      → is_done d' ≡ false
      → same_key k' k ≡ false
      → Called c.max_attempts k (processes k' now) d w (process_found c d' now w).1
  processed_other k' now w d d' h key new ne =
      let (same, as_before) =
        process_found-other c d' now w new k (subst (λ y. same_key y k ≡ false) (sym key) ne) in
      record {
        row = d;
        found = same ∙ h;
        moved = λ x. absurd (ground (arith, x, ne));
        kept = λ x. refl;
        handled = Handled-still k d d w _ refl as_before;
      }

  process_row-Called :
      (k' : Key) (now : ℕ) (w : World) (d : AnnouncementDelivery) (o : Option AnnouncementDelivery)
      → find_delivery k w ≡ some d
      → find_delivery k' w ≡ o
      → Called c.max_attempts k (processes k' now) d w (process_row c o now w).1
  unfolding find_delivery
  process_row-Called k' now w d none h seen =
      unchanged c.max_attempts k' now w d h λ same.
        absurd (ground (arith, h, seen, ap (λ x. find_delivery x w) (same_key_eq k' k same)))
  process_row-Called k' now w d (some d') h seen =
      let key : key_of d' ≡ k' =
        same_key_eq (key_of d') k' (find_first_sound (is_at k') w.deliveries seen) in
      let same_row = λ (same : same_key k' k ≡ true).
        let one : find_delivery k' w ≡ find_delivery k w =
          ap (λ x. find_delivery x w) (same_key_eq k' k same) in
        the_row d d' (sym seen ∙ one ∙ h) in
      elim (Bool-cases (is_done d')) [
        | inl done ↦
            rw done (unchanged c.max_attempts k' now w d h λ same. rw (sym (same_row same)) done)
        | inr new ↦ elim (Bool-cases (same_key k' k)) [
          | inl same ↦
              let rows = same_row same in
              let keys = same_key_eq k' k same in
              let own =
                processed_own now w d (ap key_of (sym rows) ∙ key ∙ keys) (rw rows at new) in
              let moved =
                subst₂
                  (λ y x. Called c.max_attempts k (processes y now) d w (process_found c x now w).1)
                  (sym keys) (sym rows) own in
              rw new moved
          | inr ne ↦ rw new (processed_other k' now w d d' h key new ne)
        ]
      ]

  processes-Called :
      (k' : Key) (now : ℕ) (w : World) (d : AnnouncementDelivery)
      → find_delivery k w ≡ some d
      → Called c.max_attempts k (processes k' now) d w (process_announcement_delivery c k' now w).1
  unfolding process_announcement_delivery
  processes-Called k' now w d h = process_row-Called k' now w d _ h refl

  pub call-Called :
      (x : Call) (w : World) (d : AnnouncementDelivery)
      → find_delivery k w ≡ some d
      → Called c.max_attempts k x d w (run_call c x w)
  call-Called (claims n now) w d h = claims-Called n now w d h
  call-Called (processes k' now) w d h = processes-Called k' now w d h
