-- ===== src/Throttle/Backoff.antt =====
-- The backoff schedule: free attempts, then powers of two up to a cap that the shift cannot break.
use native.Mathlib.Nat.{pow-le-pow_right}
use token_weasel.Prelude.{ℕ, ◌+◌, ◌-◌, ◌^◌, ◌≤◌, ◌≡◌, min, leb, if◌then◌else◌, arith}
use token_weasel.Throttle.{backoff_for_failures, free_attempts, max_backoff_secs}

pow_mono : (i j : ℕ) → i ≤ j → 2 ^ i ≤ 2 ^ j
pow_mono i j h = pow-le-pow_right {n = 2} (omega arith) h

-- The capped shift does not show: from the sixth failure on the wait doubles with each failure,
-- from one second up to the cap of a minute.
backoff_for_failures_lem :
    (failures : ℕ)
    → backoff_for_failures failures ≡ (if leb failures 5 then 0 else min (2 ^ (failures - 6)) 60)
unfolding backoff_for_failures
backoff_for_failures_lem f = ground (arith, pow_mono 32 (f - 6), pow_mono 32 (f - 5 - 1), same)
  where
    same : f - 5 - 1 ≡ f - 6
    same = omega arith

-- More failures never shorten the wait, and no wait is longer than the cap.
pub backoff_for_failures_mono :
    (f g : ℕ)
    → f ≤ g
    → (backoff_for_failures f ≤ backoff_for_failures g)
      × (backoff_for_failures g ≤ max_backoff_secs)
backoff_for_failures_mono f g h =
    rw (backoff_for_failures_lem f, backoff_for_failures_lem g)
      (ground (arith, pow_mono (f - 6) (g - 6)), ground arith)

-- There is a wait exactly when the free attempts are used up.
pub backoff-pos_iff : (f : ℕ) → leb 1 (backoff_for_failures f) ≡ leb (free_attempts + 1) f
backoff-pos_iff f = rw (backoff_for_failures_lem f) (ground (arith, pow_mono 0 (f - 6)))
