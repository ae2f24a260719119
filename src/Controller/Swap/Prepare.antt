-- ===== src/Controller/Swap/Prepare.antt =====
-- `handleSwapPrepare`: the swap queue, and the early scale-down of the StatefulSet.
use kubernetes_controller.Base.{
  ℕ, String, ◌<>◌, ◌==◌, Bool, false, not, Option, none, some, [], ◌∷◌, ◌||◌, ◌&&◌, ltb, nat_eq,
  if◌then◌else◌,
}
use kubernetes_controller.Base.Dict.{Dict, lookup, insert, erase}
use kubernetes_controller.Api.{StatefulMigration, SwapSubPhase}
use kubernetes_controller.Cluster.{Pod, StatefulSet, Lookup, Env}
use kubernetes_controller.Controller.Monad.{Act, ◌>>=◌, ◌>>◌, modify, migration, skip}
use kubernetes_controller.Controller.Calls.{
  connect, create_secondary_queue, get_pod, get_stateful_set, delete_pod, patch_pod,
  patch_stateful_set,
}
use kubernetes_controller.Controller.Helpers.{
  SwapReply, swap_error, has, set_sub_phase, or_return, return_if_error, advance,
}

-- `sts.Spec.Replicas != nil && *sts.Spec.Replicas > 0`, with the count.
unfoldable pub positive_replicas : Option ℕ → Option ℕ
positive_replicas none = none
positive_replicas (some n) = if ltb 0 n then some n else none

-- The set with no replicas, and with a template for the target node.
abbrev pub scaled_down : String → StatefulSet → StatefulSet
scaled_down target sts = record sts {
  replicas = some 0;
  node_selector = insert "kubernetes.io/hostname" target sts.node_selector;
}

-- The labels that the StatefulSet controller reads itself.
unfoldable pub is_internal_label : String → Bool
is_internal_label k =
    k == "controller-revision-hash"
    || k == "statefulset.kubernetes.io/pod-name"
    || k == "apps.kubernetes.io/pod-index"

-- The loop that deletes the labels that a Service could select.
unfoldable pub strip_service_labels : Dict String → Dict String → Dict String
unfolding is_internal_label
strip_service_labels [] labels = labels
strip_service_labels ((k, v) ∷ source) labels =
    strip_service_labels source
      (if has (lookup k labels) && not (is_internal_label k) then erase k labels else labels)

-- The loop's flag: some label was deleted.
strips_any : Dict String → Dict String → Bool
unfolding is_internal_label
strips_any [] labels = false
strips_any ((k, v) ∷ source) labels =
    (has (lookup k labels) && not (is_internal_label k)) || strips_any source labels

-- The count to restore later: the first one that is seen.
abbrev pub keep_replicas : ℕ → StatefulMigration → StatefulMigration
keep_replicas n m = record m {
  status = record m.status {
    original_replicas =
        if nat_eq m.status.original_replicas 0 then n else m.status.original_replicas;
  };
}

module _ (E : Env) where
  -- The Service labels are taken off the pod, which is then deleted with no grace period. Errors
  -- are logged.
  unfoldable pub evict : Dict String → Pod → Act E.World SwapReply (Unit {0})
  unfolding strip_service_labels strips_any
  evict source p = do
    if strips_any source p.labels
        then (do patch_pod E p (record p { labels = strip_service_labels source p.labels }); skip)
        else skip
    delete_pod E p (some 0)
    skip

  unfoldable pub evict_if_found : Dict String → Lookup Pod → Act E.World SwapReply (Unit {0})
  unfolding evict
  evict_if_found source (Lookup.found p) = evict source p
  evict_if_found source _ = skip

  -- What follows the patch of the StatefulSet, unless it failed.
  unfoldable pub evict_source : Option String → Act E.World SwapReply (Unit {0})
  unfolding evict_if_found
  evict_source (some e) = skip
  evict_source none = do
    m ← migration
    p ← get_pod E m.namespace m.spec.source_pod
    evict_if_found m.status.source_pod_labels p

  unfoldable pub scale_down : StatefulSet → Option ℕ → Act E.World SwapReply (Unit {0})
  unfolding evict_source
  scale_down sts none = skip
  scale_down sts (some n) = do
    modify (keep_replicas n)
    m ← migration
    e ← patch_stateful_set E sts (scaled_down m.spec.target_node sts)
    evict_source e

  unfoldable pub early_scale_down : Lookup StatefulSet → Act E.World SwapReply (Unit {0})
  unfolding scale_down positive_replicas
  early_scale_down (Lookup.found sts) = scale_down sts (positive_replicas sts.replicas)
  early_scale_down _ = skip

  unfoldable pub prepare_swap : Act E.World SwapReply SwapReply
  unfolding early_scale_down or_return return_if_error advance
  prepare_swap = do
    m ← migration
    let cfg = m.spec.message_queue_config
    e ← connect E cfg.broker_url
    return_if_error E e (λ x. swap_error ("broker connect for swap: " <> x))
    r ← create_secondary_queue E cfg.queue_name cfg.exchange_name cfg.routing_key
    or_return E r (λ x. swap_error ("create swap queue: " <> x))
    base ← migration
    if m.status.stateful_set_name == "" then skip else (do
      sts ← get_stateful_set E m.namespace m.status.stateful_set_name
      early_scale_down sts)
    modify (set_sub_phase SwapSubPhase.re_checkpoint)
    advance E base
