-- ===== src/Controller/Phases/Transferring.antt =====
-- `handleTransferring` and `handleTransferringViaJob`: the checkpoint's way to the registry, or to the
-- agent of the target.
use kubernetes_controller.Base.{◌*◌, String, ◌<>◌, true, false, [], ◌∷◌, leb, if◌then◌else◌}
use kubernetes_controller.Base.Int.{sub_ℕ}
use kubernetes_controller.Messaging.{Result, ok, err}
use kubernetes_controller.Api.{StatefulMigration, Phase, is_direct}
use kubernetes_controller.Cluster.{Job, Lookup, Created, Env}
use kubernetes_controller.Controller.Monad.{Act, ◌>>=◌, ◌>>◌, pure, modify, migration, skip}
use kubernetes_controller.Controller.Calls.{time_now, patch_status, get_job, create_job}
use kubernetes_controller.Controller.Helpers.{
  Reply, requeue_after, error, second, timing, delete_timing, set_stamp, has, stamp, since,
  transition_phase, fail_migration, fail_if_error, polling_backoff, record_phase_timing,
}
use kubernetes_controller.Controller.Agent.{find_agent_pod_ip, call_agent_registry_push}
use kubernetes_controller.Controller.Swap.Transfer.{controller_ref, checkpoints_dir}

abbrev pub image_ref : StatefulMigration → String
image_ref m = m.spec.checkpoint_image_repository <> "/" <> m.spec.source_pod <> ":checkpoint"

abbrev pub agent_url : String
agent_url = "http://ms2m-agent.ms2m-system.svc.cluster.local:9443/checkpoint"

abbrev pub transfer_target : StatefulMigration → String
transfer_target m = if is_direct m.spec.transfer_mode then agent_url else image_ref m

abbrev pub transfer_job : StatefulMigration → Job
transfer_job m = record {
  name = m.name <> "-transfer";
  namespace = m.namespace;
  labels =
      ("migration.ms2m.io/migration", m.name) ∷ ("migration.ms2m.io/phase", "transferring") ∷ [];
  owner_references = controller_ref m ∷ [];
  node_selector = ("kubernetes.io/hostname", m.status.source_node) ∷ [];
  container_name = "checkpoint-transfer";
  image = "localhost/checkpoint-transfer:latest";
  args = m.status.checkpoint_id ∷ transfer_target m ∷ m.status.container_name ∷ [];
  env = ("INSECURE_REGISTRY", "true") ∷ [];
  privileged = false;
  mounts = (checkpoints_dir, true) ∷ [];
  succeeded = 0;
  failed = 0;
}

module _ (E : Env) where
  -- `Transferring.start`, on the first entry; the patch's error is passed over.
  unfoldable pub begin_phase : String → Act E.World Reply (Unit {0})
  begin_phase key = do
    m ← migration
    if has (timing key m) then skip else (do
      base ← migration
      now ← time_now E
      modify (set_stamp E key now)
      patch_status E base
      skip)

  -- The end of a phase that was begun by a stamp: the stamp goes, and the duration is recorded.
  unfoldable pub end_phase : String → String → Act E.World Reply (Unit {0})
  unfolding record_phase_timing
  end_phase key name = do
    m ← migration
    now ← time_now E
    let duration = since (stamp E key m) now
    modify (λ x. record_phase_timing E name duration (delete_timing key x))

  unfoldable pub after_create : Created → Act E.World Reply Reply
  unfolding fail_migration
  after_create Created.created = pure (requeue_after (2 * second))
  after_create Created.already_exists = pure (requeue_after (2 * second))
  after_create (Created.failed e) = fail_migration E ("create transfer job: " <> e)

  unfoldable pub start_job : Act E.World Reply Reply
  unfolding begin_phase after_create
  start_job = do
    begin_phase "Transferring.start"
    m ← migration
    r ← create_job E (transfer_job m)
    after_create r

  unfoldable pub follow_job : Lookup Job → Act E.World Reply Reply
  unfolding start_job end_phase transition_phase polling_backoff
  follow_job Lookup.not_found = start_job
  follow_job (Lookup.failed e) = pure (error e)
  follow_job (Lookup.found job) =
      if leb 1 job.succeeded
      then (do
        base ← migration
        end_phase "Transferring.start" "Transferring"
        transition_phase E base Phase.restoring)
      else (do d ← polling_backoff E "Transferring.start"; pure (requeue_after d))

  unfoldable pub transferring_via_job : Act E.World Reply Reply
  unfolding follow_job
  transferring_via_job = do
    m ← migration
    job ← get_job E m.namespace (m.name <> "-transfer")
    follow_job job

  unfoldable pub by_agent : Result String → Act E.World Reply Reply
  unfolding call_agent_registry_push fail_if_error record_phase_timing transition_phase
  by_agent (err e) = transferring_via_job
  by_agent (ok ip) = do
    base ← migration
    start ← time_now E
    e ←
        call_agent_registry_push E ip base.status.checkpoint_id base.status.container_name
          (image_ref base)
    fail_if_error E e (λ x. "agent registry-push: " <> x)
    now ← time_now E
    modify (record_phase_timing E "Transferring" (sub_ℕ now start))
    transition_phase E base Phase.restoring

  unfoldable pub handle_transferring : Act E.World Reply Reply
  unfolding transferring_via_job by_agent find_agent_pod_ip
  handle_transferring = do
    m ← migration
    if is_direct m.spec.transfer_mode
        then transferring_via_job
        else (do agent ← find_agent_pod_ip E m.status.source_node; by_agent agent)
