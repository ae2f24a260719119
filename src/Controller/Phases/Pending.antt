-- ===== src/Controller/Phases/Pending.antt =====
-- `handlePending`: the validation of the specification and the first record of the source.
use kubernetes_controller.Base.{
  ℕ, ◌*◌, String, ◌<>◌, ◌==◌, not, Option, none, some, List, [], ◌∷◌, if◌then◌else◌,
}
use kubernetes_controller.Api.{StatefulMigration, Container, Phase, Strategy, is_unset_strategy}
use kubernetes_controller.Cluster.{is_running, Pod, OwnerReference, Lookup, Env}
use kubernetes_controller.Controller.Monad.{
  Act, ◌>>=◌, ◌>>◌, pure, return_with, modify, migration, skip,
}
use kubernetes_controller.Controller.Calls.{
  time_now, update_migration, get_migration, get_pod, get_replica_set,
}
use kubernetes_controller.Controller.Helpers.{
  Reply, requeue_after, error, second, return_if_error, transition_phase, fail_migration,
}

-- The pod's first container, if the specification names none.
resolve_container : String → List Container → String
resolve_container name [] = name
resolve_container name (c ∷ cs) = if name == "" then c.name else name

-- Sequential for a pod of a StatefulSet, ShadowPod for any other.
detect_strategy : List OwnerReference → Strategy
detect_strategy [] = Strategy.shadow_pod
detect_strategy (r ∷ refs) =
    let rest = detect_strategy refs in if r.kind == "StatefulSet" then Strategy.sequential else rest

-- The name of the first owner of the kind Deployment.
first_deployment : List OwnerReference → Option String
first_deployment [] = none
first_deployment (r ∷ refs) =
    let rest = first_deployment refs in if r.kind == "Deployment" then some r.name else rest

abbrev set_stateful_set : String → StatefulMigration → StatefulMigration
set_stateful_set n m = record m { status = record m.status { stateful_set_name = n } }

abbrev pub set_deployment : Option String → StatefulMigration → StatefulMigration
set_deployment none m = m
set_deployment (some n) m = record m { status = record m.status { deployment_name = n } }

abbrev set_strategy : Strategy → StatefulMigration → StatefulMigration
set_strategy x m = record m { spec = record m.spec { migration_strategy = x } }

-- The status fields that are taken from the source pod.
abbrev describe_source : Pod → String → ℕ → StatefulMigration → StatefulMigration
describe_source p container now m = record m {
  status = record m.status {
    source_node = p.node_name;
    container_name = container;
    start_time = some now;
    source_pod_labels = p.labels;
    source_containers = p.containers;
  };
}

-- What a `Get` finds of the Deployment behind a ReplicaSet; errors are passed over.
abbrev owner_deployment : Lookup (List OwnerReference) → Option String
owner_deployment (Lookup.found refs) = first_deployment refs
owner_deployment _ = none

module _ (E : Env) where
  -- One round of the loop over the owners, with the rounds after it.
  unfoldable pub owner_or :
      OwnerReference → Act E.World Reply (Unit {0}) → Act E.World Reply (Unit {0})
  unfolding first_deployment
  owner_or r rest =
      if r.kind == "StatefulSet"
      then modify (set_stateful_set r.name)
      else if r.kind == "ReplicaSet"
      then (do
        m ← migration
        owners ← get_replica_set E m.namespace r.name
        modify (set_deployment (owner_deployment owners)))
      else rest

  -- The loop ends at the first StatefulSet or ReplicaSet.
  unfoldable pub record_owner : List OwnerReference → Act E.World Reply (Unit {0})
  unfolding owner_or
  record_owner [] = skip
  record_owner (r ∷ refs) = owner_or r (record_owner refs)

  unfoldable pub replace_by : Lookup StatefulMigration → Act E.World Reply (Unit {0})
  replace_by (Lookup.found m) = modify (λ _. m)
  replace_by Lookup.not_found = return_with (error "not found")
  replace_by (Lookup.failed e) = return_with (error e)

  -- The specification is written, and the object read again.
  unfoldable pub persist_spec : Act E.World Reply (Unit {0})
  unfolding return_if_error replace_by
  persist_spec = do
    e ← update_migration E
    return_if_error E e error
    m ← migration
    l ← get_migration E m.namespace m.name
    replace_by l

  -- A strategy that is not given is detected and written to the specification.
  unfoldable pub settle_strategy : List OwnerReference → Act E.World Reply (Unit {0})
  unfolding detect_strategy persist_spec
  settle_strategy refs = do
    m ← migration
    if is_unset_strategy m.spec.migration_strategy
        then (do modify (set_strategy (detect_strategy refs)); persist_spec)
        else skip

  unfoldable pub accept_source : Pod → String → Act E.World Reply Reply
  unfolding settle_strategy record_owner transition_phase
  accept_source p container = do
    settle_strategy p.owner_references
    base ← migration
    now ← time_now E
    modify (describe_source p container now)
    record_owner p.owner_references
    transition_phase E base Phase.checkpointing

  unfoldable pub check_source : Pod → Act E.World Reply Reply
  unfolding resolve_container accept_source fail_migration
  check_source p = do
    m ← migration
    let container = resolve_container m.spec.container_name p.containers
    if p.deleting
        then pure (requeue_after (3 * second))
        else if not (is_running p.phase)
        then pure (requeue_after (3 * second))
        else if container == ""
        then fail_migration E "could not determine container name for source pod"
        else accept_source p container

  unfoldable pub follow_source : Lookup Pod → Act E.World Reply Reply
  unfolding check_source fail_migration
  follow_source (Lookup.found p) = check_source p
  follow_source Lookup.not_found = do
    m ← migration
    fail_migration E ("source pod \"" <> m.spec.source_pod <> "\" not found")
  follow_source (Lookup.failed e) = pure (error e)

  unfoldable pub handle_pending : Act E.World Reply Reply
  unfolding follow_source
  handle_pending = do m ← migration; p ← get_pod E m.namespace m.spec.source_pod; follow_source p
