-- ===== src/Controller/Swap/Replacement.antt =====
-- `handleSwapCreateReplacement`: the pod with the StatefulSet's name on the target node.
use kubernetes_controller.Base.{
  ℕ, ◌*◌, String, ◌<>◌, ◌==◌, Bool, false, Option, none, some, List, [], ◌∷◌, ◌++◌, map, nat_eq,
  if◌then◌else◌,
}
use kubernetes_controller.Base.Dict.{Dict, insert}
use kubernetes_controller.Api.{StatefulMigration, Container, SwapSubPhase, is_exchange_fence}
use kubernetes_controller.Cluster.{is_running, Pod, PodPhase, StatefulSet, Lookup, Created, Env}
use kubernetes_controller.Controller.Monad.{
  Act, ◌>>=◌, ◌>>◌, pure, return_with, modify, migration, skip,
}
use kubernetes_controller.Controller.Calls.{
  patch_status, get_pod, get_stateful_set, create_pod, patch_stateful_set,
}
use kubernetes_controller.Controller.Helpers.{
  SwapReply, swap_error, swap_requeue_after, second, timing, set_sub_phase, return_if_error,
  advance,
}
use kubernetes_controller.Controller.Swap.Prepare.{
  positive_replicas, scaled_down, keep_replicas, evict,
}
use kubernetes_controller.Controller.Swap.Cutover.{scale_up_if_found}

-- `d[k] == text`, which a missing key does not meet.
abbrev is_text : Option String → String → Bool
is_text none t = false
is_text (some s) t = s == t

abbrev restore_mode_env : String × String
restore_mode_env = ("MS2M_RESTORE_MODE", "true")

-- The image and its pull policy: the original checkpoint after a failed re-checkpoint.
abbrev checkpoint_image : StatefulMigration → String × String
checkpoint_image m =
    if is_text (timing "Swap.ReCheckpoint.fallback" m) "true"
    then (m.spec.checkpoint_image_repository <> "/" <> m.spec.source_pod <> ":checkpoint", "Always")
    else ("localhost/checkpoint/" <> m.status.container_name <> ":recheckpoint", "Never")

-- One container of the replacement. Only the checkpointed one runs the checkpoint image.
abbrev replacement_container : String → String × String → Container → Container
replacement_container checkpointed (image, policy) c = record {
  name = c.name;
  image = if c.name == checkpointed then image else c.image;
  pull_policy = policy;
  ports = c.ports;
  env = c.env ++ (restore_mode_env ∷ []);
}

unfoldable pub replacement_containers : List Container → String → String × String → List Container
replacement_containers [] checkpointed (image, policy) =
    record {
      name = checkpointed;
      image = image;
      pull_policy = policy;
      ports = [];
      env = restore_mode_env ∷ [];
    }
    ∷ []
replacement_containers (c ∷ cs) checkpointed image =
    map (replacement_container checkpointed image) (c ∷ cs)

-- The revision hash of the set, if it has one, replaces the copied one.
abbrev with_revision : Lookup StatefulSet → Dict String → Dict String
with_revision (Lookup.found sts) labels =
    if sts.update_revision == ""
    then labels
    else insert "controller-revision-hash" sts.update_revision labels
with_revision _ labels = labels

-- The replacement has no owner, so that the StatefulSet can adopt it.
abbrev replacement_pod : StatefulMigration → Dict String → Pod
replacement_pod m labels = record {
  name = m.spec.source_pod;
  namespace = m.namespace;
  labels = labels;
  annotations = [];
  owner_references = [];
  deleting = false;
  phase = PodPhase.other "";
  node_name = m.spec.target_node;
  pod_ip = "";
  containers =
      replacement_containers m.status.source_containers m.status.container_name
        (checkpoint_image m);
}

abbrev set_replacement : String → StatefulMigration → StatefulMigration
set_replacement name m = record m { status = record m.status { replacement_pod = name } }

-- The count to scale back to: at least one, so that the replacement is adopted.
abbrev target_replicas : ℕ → ℕ
target_replicas n = if nat_eq n 0 then 1 else n

module _ (E : Env) where
  -- The replacement runs: the swap goes on by its mode.
  unfoldable pub replacement_runs : Act E.World SwapReply SwapReply
  unfolding advance
  replacement_runs = do
    base ← migration
    modify (set_replacement base.spec.source_pod)
    modify (
        set_sub_phase (
          if is_exchange_fence base.spec.identity_swap_mode
          then SwapSubPhase.pre_fence_drain
          else SwapSubPhase.mini_replay))
    advance E base

  -- The count is saved with a patch of its own, whose error is passed over.
  unfoldable pub save_replicas : ℕ → Act E.World SwapReply (Unit {0})
  save_replicas n = do
    base ← migration
    if nat_eq base.status.original_replicas 0
        then (do modify (keep_replicas n); patch_status E base; skip)
        else skip

  unfoldable pub scale_down_original : StatefulSet → Option ℕ → Act E.World SwapReply (Unit {0})
  unfolding save_replicas return_if_error
  scale_down_original sts none = skip
  scale_down_original sts (some n) = do
    save_replicas n
    m ← migration
    e ← patch_stateful_set E sts (scaled_down m.spec.target_node sts)
    return_if_error E e (λ x. swap_error (
        "scale down StatefulSet \"" <> m.status.stateful_set_name <> "\" for identity swap: " <> x))

  unfoldable pub scale_down_found : Lookup StatefulSet → Act E.World SwapReply (Unit {0})
  unfolding scale_down_original positive_replicas
  scale_down_found (Lookup.found sts) = scale_down_original sts (positive_replicas sts.replicas)
  scale_down_found Lookup.not_found = skip
  scale_down_found (Lookup.failed e) = return_with (swap_error e)

  -- The original pod is still there, on another node.
  unfoldable pub remove_original : Pod → Act E.World SwapReply SwapReply
  unfolding scale_down_found evict
  remove_original p = do
    m ← migration
    if m.status.stateful_set_name == "" then skip else (do
      sts ← get_stateful_set E m.namespace m.status.stateful_set_name
      scale_down_found sts)
    m' ← migration
    evict E m'.status.source_pod_labels p
    pure (swap_requeue_after (2 * second))

  unfoldable pub replacement_exists : Pod → Act E.World SwapReply SwapReply
  unfolding replacement_runs remove_original
  replacement_exists p = do
    m ← migration
    if p.node_name == m.spec.target_node
        then (if is_running p.phase then replacement_runs else pure (swap_requeue_after second))
        else remove_original p

  -- After the creation: the set is scaled up, and the pod's name recorded.
  unfoldable pub adopt : Act E.World SwapReply SwapReply
  unfolding scale_up_if_found return_if_error
  adopt = do
    m ← migration
    if m.status.stateful_set_name == "" then skip else (do
      sts ← get_stateful_set E m.namespace m.status.stateful_set_name
      scale_up_if_found E (target_replicas m.status.original_replicas) sts)
    base ← migration
    modify (set_replacement base.spec.source_pod)
    e ← patch_status E base
    return_if_error E e swap_error
    pure (swap_requeue_after second)

  unfoldable pub after_create : Created → Act E.World SwapReply SwapReply
  unfolding adopt
  after_create Created.created = adopt
  after_create Created.already_exists = pure (swap_requeue_after second)
  after_create (Created.failed e) = pure (swap_error ("create replacement pod: " <> e))

  unfoldable pub create_pod_now : Act E.World SwapReply SwapReply
  unfolding after_create
  create_pod_now = do
    m ← migration
    let labels = m.status.source_pod_labels
    sts ←
        if m.status.stateful_set_name == ""
        then pure Lookup.not_found
        else get_stateful_set E m.namespace m.status.stateful_set_name
    r ← create_pod E (replacement_pod m (with_revision sts labels))
    after_create r

  unfoldable pub follow_replacement : Lookup Pod → Act E.World SwapReply SwapReply
  unfolding replacement_exists create_pod_now
  follow_replacement (Lookup.found p) = replacement_exists p
  follow_replacement Lookup.not_found = create_pod_now
  follow_replacement (Lookup.failed e) = pure (swap_error e)

  unfoldable pub create_replacement : Act E.World SwapReply SwapReply
  unfolding follow_replacement
  create_replacement = do
    m ← migration
    p ← get_pod E m.namespace m.spec.source_pod
    follow_replacement p
