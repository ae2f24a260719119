-- ===== src/Tests/Choices.antt =====
-- The thresholds and the loops over labels at concrete numbers and texts.
use kubernetes_controller.Base.{
  ◌≡◌, ◌↔◌, ◌≤◌, ◌<◌, ◌+◌, ◌*◌, ℕ, String, true, false, Option, none, some, [], ◌∷◌, arith, refl,
}
use kubernetes_controller.Base.Int.{pos}
use kubernetes_controller.Base.Dict.{Dict, lookup}
use kubernetes_controller.Cluster.{OwnerReference}
use kubernetes_controller.Controller.Helpers.{second, backoff_of}
use kubernetes_controller.Controller.Swap.PreFence.{use_fence}
use kubernetes_controller.Controller.Swap.Drain.{progress, stalled}
use kubernetes_controller.Controller.Swap.Prepare.{strip_service_labels, is_internal_label}
use kubernetes_controller.Controller.Phases.Replaying.{cutoff_reached}
use kubernetes_controller.Controller.Phases.Restoring.{merge_missing}
use kubernetes_controller.Controller.Choices.{
  backoff_of_grows, progress_stalled_iff, cutoff_reached_iff,
}
use kubernetes_controller.Controller.Labels.{lookup-strip_service_labels, lookup-merge_missing}
use kubernetes_controller.Tests.World.{test_env, fractions}

abbrev depths : Option String
depths = some "3,8"

abbrev checked : Option ℕ
checked = some 0

-- Ten messages became four in three seconds.
-- Sixty seconds of the fence are few enough, and 61 are not; and a queue that grows is not fenced.
fence_tests :
    (use_fence fractions 13 0 260 (pos (3 * second)) ≡ true)
    × (use_fence fractions 10 0 200 (pos (3 * second)) ≡ true)
    × (use_fence fractions 9 0 183 (pos (3 * second)) ≡ false)
    × (use_fence fractions 4 10 7 (pos (3 * second)) ≡ false)
unfolding use_fence
fence_tests = (refl, refl, refl, refl)

backoff_of_grows_example :
    (second ≤ backoff_of (test_env none) (some 0) (5 * second))
    × (backoff_of (test_env none) (some 0) (5 * second)
        ≤ backoff_of (test_env none) (some 0) (40 * second))
    × (backoff_of (test_env none) (some 0) (40 * second) ≤ 5 * second)
backoff_of_grows_example =
    backoff_of_grows (test_env none) (some 0) (5 * second) (40 * second) (omega arith)

progress_stalled_iff_example :
    (progress (some "3,8") "3,8" (some 0) (31 * second) ≡ stalled)
    ↔ (depths ≡ some "3,8") × ((t : ℕ) × (checked ≡ some t) × (t + 30 * second < 31 * second))
progress_stalled_iff_example = progress_stalled_iff (some "3,8") "3,8" (some 0) (31 * second)

cutoff_reached_iff_example :
    (cutoff_reached (test_env none) (pos 5) (some 0) (6 * second) ≡ true) ↔ (
      (n : ℕ) × (t : ℕ) × (pos 5 ≡ pos n)
      × (0 < n)
      × (checked ≡ some t)
      × (t + n * second < 6 * second))
cutoff_reached_iff_example = cutoff_reached_iff (test_env none) (pos 5) (some 0) (6 * second)

abbrev source_labels : Dict String
source_labels = ("app", "consumer") ∷ ("controller-revision-hash", "c1") ∷ []

abbrev pod_labels : Dict String
pod_labels = ("controller-revision-hash", "c1") ∷ ("app", "consumer") ∷ ("tier", "back") ∷ []

-- The label that a Service selects is gone.
lookup-strip_service_labels_example :
    lookup "app" (strip_service_labels source_labels pod_labels) ≡ none
unfolding lookup is_internal_label
lookup-strip_service_labels_example = lookup-strip_service_labels "app" source_labels pod_labels

lookup-merge_missing_example : lookup "tier" (merge_missing source_labels pod_labels) ≡ some "back"
unfolding lookup
lookup-merge_missing_example = lookup-merge_missing "tier" source_labels pod_labels

abbrev owner : String → OwnerReference
owner kind = record { kind = kind; name = "move" }
