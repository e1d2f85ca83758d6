-- ===== src/Deliveries/Retries.antt =====
-- The retry decision against the claim.
use analyst_watch.Prelude.{ℕ, ◌+◌, String, true, ◌≡◌, ◌↔◌, refl, Option, none, some, arith}
use analyst_watch.Result.{ok}
use analyst_watch.Models.{DeliveryAttempt, Instant}
use analyst_watch.Memory.{next_number}
use analyst_watch.Service.{decide_latest}

-- For any latest attempt, or none, the service decides that an attempt is due exactly if a claim at
-- that time, with the same delay, is given a number.
pub decide_latest_iff :
    (id : String) (retry : ℕ) (current : Instant) (latest : Option DeliveryAttempt)
    → ((decide_latest id retry current latest).due ≡ true)
      ↔ ((n : ℕ) × (next_number latest current retry ≡ ok n))
unfolding next_number
decide_latest_iff id retry current none = (λ h. (1, refl), λ h. refl)
decide_latest_iff id retry current (some a) =
    (λ h. (a.attempt_number + 1, ground arith), λ (n, e). ground arith)
