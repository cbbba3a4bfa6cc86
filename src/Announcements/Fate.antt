-- ===== src/Announcements/Fate.antt =====
-- What becomes of a delivery over a sequence of calls.
use society_agent.Prelude.{ℕ, ◌≡◌, some}
use society_agent.Announcements.Models.{AnnouncementDelivery, Key, World, find_delivery}
use society_agent.Announcements.Machine.{Phase, Run, phase}
use society_agent.Announcements.Processed.{Handled}

-- What a sequence of calls leaves of a delivery that stood in the phase `p`.
record Lived (limit : ℕ) (k : Key) (p : Phase) (n : ℕ) (d : AnnouncementDelivery) (w w' : World)
    : Type 0 where
  row : AnnouncementDelivery
  found : find_delivery k w' ≡ some row
  run : Run limit p n (phase row)
  handled : Handled k d row w w'
