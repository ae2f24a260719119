-- ===== src/Controller/Choices.antt =====
-- The controller's thresholds, against their plain statements: the stall of
-- a drain, the cutoff of a replay, and the polling interval.
use kubernetes_controller.Base.{
  ◌≡◌, refl, ◌↔◌, ℕ, ◌+◌, ◌*◌, ◌≤◌, ◌<◌, String, true, Option, none, some, arith,
}
use kubernetes_controller.Base.{eq_iff}
use kubernetes_controller.Base.Int.{ℤ, pos, negsuc}
use kubernetes_controller.Cluster.{Env}
use kubernetes_controller.Controller.Helpers.{second, backoff_of}
use kubernetes_controller.Controller.Swap.Drain.{progress, stalled}
use kubernetes_controller.Controller.Phases.Replaying.{cutoff_reached}

-- The polling interval is at least one second and at most five, and does not become shorter as time
-- goes on.
pub backoff_of_grows :
    (E : Env) (start : Option ℕ) (now later : ℕ)
    → now ≤ later
    → (second ≤ backoff_of E start now)
      × (backoff_of E start now ≤ backoff_of E start later)
      × (backoff_of E start later ≤ 5 * second)
unfolding backoff_of
backoff_of_grows E none now later h = omega arith
backoff_of_grows E (some t) now later h = ground arith

-- The drain counts as stalled exactly when the depths are the recorded ones and the last change was
-- recorded more than thirty seconds ago.
pub progress_stalled_iff :
    (last : Option String) (current : String) (check : Option ℕ) (now : ℕ)
    → (progress last current check now ≡ stalled)
      ↔ (last ≡ some current) × ((t : ℕ) × (check ≡ some t) × (t + 30 * second < now))
unfolding progress
progress_stalled_iff none current check now = ground arith
progress_stalled_iff (some x) current none now = ground (arith, eq_iff x current)
progress_stalled_iff (some x) current (some t) now = (
  λ h. (ground (arith, eq_iff x current, h), (t, refl, ground (arith, eq_iff x current, h))),
  λ h. ground (arith, eq_iff x current, h),
)

-- The cutoff is reached exactly when a positive limit is set, the start is known, and more seconds
-- than the limit have passed since.
pub cutoff_reached_iff :
    (E : Env) (limit : ℤ) (start : Option ℕ) (now : ℕ)
    → (cutoff_reached E limit start now ≡ true)
      ↔ ((n : ℕ) × (t : ℕ) × (limit ≡ pos n) × (0 < n) × (start ≡ some t) × (t + n * second < now))
unfolding cutoff_reached
cutoff_reached_iff E limit none now = ground arith
cutoff_reached_iff E (pos n) (some t) now =
    (λ h. (n, t, refl, ground (arith, h), refl, ground (arith, h)), λ h. ground (arith, h))
cutoff_reached_iff E (negsuc n) (some t) now = ground arith
