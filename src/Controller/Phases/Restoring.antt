-- ===== src/Controller/Phases/Restoring.antt =====
-- `handleRestoring`: the target pod, made from the checkpoint image.
use kubernetes_controller.Base.{
  ℕ, ◌*◌, String, ◌<>◌, ◌==◌, Bool, false, not, Option, none, some, List, [], ◌∷◌, ◌||◌, ◌&&◌, map,
  nat_eq, if◌then◌else◌,
}
use kubernetes_controller.Base.Dict.{Dict, lookup, insert}
use kubernetes_controller.Api.{StatefulMigration, Container, Phase, is_sequential, is_direct}
use kubernetes_controller.Cluster.{is_running, Pod, PodPhase, StatefulSet, Lookup, Created, Env}
use kubernetes_controller.Controller.Monad.{
  Act, ◌>>=◌, ◌>>◌, pure, return_with, modify, migration, skip,
}
use kubernetes_controller.Controller.Calls.{
  patch_status, get_pod, get_stateful_set, create_pod, patch_stateful_set,
}
use kubernetes_controller.Controller.Helpers.{
  Reply, requeue_after, error, second, has, transition_phase, fail_migration, fail_with,
  fail_if_error, polling_backoff,
}
use kubernetes_controller.Controller.Swap.Transfer.{controller_ref}
use kubernetes_controller.Controller.Swap.Prepare.{positive_replicas}
use kubernetes_controller.Controller.Phases.Transferring.{begin_phase, end_phase, image_ref}

-- The source's own name for Sequential, else a name of its own.
abbrev pub target_pod_name : StatefulMigration → String
target_pod_name m =
    if is_sequential m.spec.migration_strategy
    then m.spec.source_pod
    else m.spec.source_pod <> "-shadow"

abbrev text_or_empty : Option String → String
text_or_empty none = ""
text_or_empty (some s) = s

-- The pod carries the label of this migration.
abbrev pub is_ours : StatefulMigration → Pod → Bool
is_ours m p = text_or_empty (lookup "migration.ms2m.io/migration" p.labels) == m.name

-- Labels that the pod does not have yet.
unfoldable pub merge_missing : Dict String → Dict String → Dict String
merge_missing labels [] = labels
merge_missing labels ((k, v) ∷ source) =
    merge_missing (if has (lookup k labels) then labels else insert k v labels) source

abbrev restored_image : StatefulMigration → String × String
restored_image m =
    if is_direct m.spec.transfer_mode
    then ("localhost/checkpoint/" <> m.status.container_name <> ":latest", "Never")
    else (image_ref m, "Always")

-- A restored container keeps its ports; only the checkpointed one runs the checkpoint image.
abbrev restored_container : String → String × String → Container → Container
restored_container checkpointed (image, policy) c = record {
  name = c.name;
  image = if c.name == checkpointed then image else c.image;
  pull_policy = policy;
  ports = c.ports;
  env = [];
}

unfoldable pub restored_containers : List Container → String → String × String → List Container
restored_containers [] checkpointed (image, policy) =
    record { name = checkpointed; image = image; pull_policy = policy; ports = []; env = [] } ∷ []
restored_containers (c ∷ cs) checkpointed image =
    map (restored_container checkpointed image) (c ∷ cs)

abbrev target_pod : StatefulMigration → List Container → Dict String → Pod
target_pod m containers labels = record {
  name = target_pod_name m;
  namespace = m.namespace;
  labels =
      merge_missing
        (("migration.ms2m.io/migration", m.name) ∷ ("migration.ms2m.io/role", "target") ∷ [])
        labels;
  annotations = ("migration.ms2m.io/checkpoint-image", (restored_image m).0) ∷ [];
  owner_references = controller_ref m ∷ [];
  deleting = false;
  phase = PodPhase.other "";
  node_name = m.spec.target_node;
  pod_ip = "";
  containers = restored_containers containers m.status.container_name (restored_image m);
}

abbrev set_original_replicas : ℕ → StatefulMigration → StatefulMigration
set_original_replicas n m = record m { status = record m.status { original_replicas = n } }

abbrev set_target_pod : String → StatefulMigration → StatefulMigration
set_target_pod n m = record m { status = record m.status { target_pod = n } }

module _ (E : Env) where
  -- The count is saved before the set is scaled to zero.
  unfoldable pub scale_to_zero : StatefulSet → Option ℕ → Act E.World Reply (Unit {0})
  unfolding fail_if_error
  scale_to_zero sts none = skip
  scale_to_zero sts (some n) = do
    base ← migration
    modify (set_original_replicas n)
    patch_status E base
    m ← migration
    e ← patch_stateful_set E sts (record sts { replicas = some 0 })
    fail_if_error E e
        (λ x. "scale down StatefulSet \"" <> m.status.stateful_set_name <> "\": " <> x)

  unfoldable pub scale_found : Lookup StatefulSet → Act E.World Reply (Unit {0})
  unfolding scale_to_zero positive_replicas
  scale_found (Lookup.found sts) = scale_to_zero sts (positive_replicas sts.replicas)
  scale_found Lookup.not_found = skip
  scale_found (Lookup.failed e) = return_with (error e)

  -- A Sequential migration meets a pod that it did not create.
  unfoldable pub await_scale_down : Act E.World Reply Reply
  unfolding scale_found
  await_scale_down = do
    m ← migration
    if nat_eq m.status.original_replicas 0 && not (m.status.stateful_set_name == "")
        then (do sts ← get_stateful_set E m.namespace m.status.stateful_set_name; scale_found sts)
        else skip
    pure (requeue_after (2 * second))

  unfoldable pub target_runs : Act E.World Reply Reply
  unfolding end_phase transition_phase
  target_runs = do
    base ← migration
    modify (λ m. set_target_pod (target_pod_name m) m)
    end_phase E "Restoring.start" "Restoring"
    transition_phase E base Phase.replaying

  unfoldable pub await_target : Pod → Act E.World Reply Reply
  unfolding await_scale_down target_runs polling_backoff
  await_target p = do
    m ← migration
    if is_sequential m.spec.migration_strategy && not (is_ours m p)
        then await_scale_down
        else if p.deleting || not (is_ours m p)
        then pure (requeue_after second)
        else if not (is_running p.phase)
        then (do d ← polling_backoff E "Restoring.start"; pure (requeue_after d))
        else target_runs

  unfoldable pub after_create : Created → Act E.World Reply Reply
  unfolding fail_migration
  after_create Created.created = pure (requeue_after second)
  after_create Created.already_exists = pure (requeue_after second)
  after_create (Created.failed e) = fail_migration E ("create target pod: " <> e)

  -- The containers and labels of a source that still lives.
  unfoldable pub of_source : Lookup Pod → Act E.World Reply (List Container × Dict String)
  unfolding fail_with
  of_source (Lookup.found p) = pure (p.containers, p.labels)
  of_source Lookup.not_found = fail_with E "source pod lookup for restore: not found"
  of_source (Lookup.failed e) = fail_with E ("source pod lookup for restore: " <> e)

  -- What was captured in Pending, if any containers were.
  abbrev captured : StatefulMigration → List Container × Dict String
  captured m = elim m.status.source_containers [
    | [] ↦ ([], [])
    | c ∷ cs ↦ (c ∷ cs, m.status.source_pod_labels)
  ]

  unfoldable pub create_target : Act E.World Reply Reply
  unfolding of_source after_create
  create_target = do
    m ← migration
    source ←
        if is_sequential m.spec.migration_strategy
        then pure (captured m)
        else (do p ← get_pod E m.namespace m.spec.source_pod; of_source p)
    r ← create_pod E (target_pod m source.0 source.1)
    after_create r

  unfoldable pub follow_target : Lookup Pod → Act E.World Reply Reply
  unfolding await_target create_target
  follow_target (Lookup.found p) = await_target p
  follow_target Lookup.not_found = create_target
  follow_target (Lookup.failed e) = pure (error e)

  unfoldable pub handle_restoring : Act E.World Reply Reply
  unfolding begin_phase follow_target
  handle_restoring = do
    begin_phase E "Restoring.start"
    m ← migration
    p ← get_pod E m.namespace (target_pod_name m)
    follow_target p
