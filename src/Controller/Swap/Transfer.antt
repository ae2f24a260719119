-- ===== src/Controller/Swap/Transfer.antt =====
-- `handleSwapTransfer` and `handleSwapTransferViaJob`: the loading of the new checkpoint on the target
-- node, by the agent or by a Job.
use kubernetes_controller.Base.{◌*◌, String, ◌<>◌, true, false, [], ◌∷◌, ltb, leb, if◌then◌else◌}
use kubernetes_controller.Messaging.{Result, ok, err}
use kubernetes_controller.Api.{StatefulMigration, SwapSubPhase}
use kubernetes_controller.Cluster.{Job, OwnerReference, Lookup, Created, Env}
use kubernetes_controller.Controller.Monad.{Act, ◌>>=◌, ◌>>◌, pure, modify, migration}
use kubernetes_controller.Controller.Calls.{get_job, create_job}
use kubernetes_controller.Controller.Helpers.{
  SwapReply, swap_error, swap_requeue_after, second, set_sub_phase, return_if_error, advance,
}
use kubernetes_controller.Controller.Agent.{find_agent_pod_ip, call_agent_local_load}

abbrev pub controller_ref : StatefulMigration → OwnerReference
controller_ref m = record { kind = "StatefulMigration"; name = m.name }

abbrev pub checkpoints_dir : String
checkpoints_dir = "/var/lib/kubelet/checkpoints"

abbrev pub swap_transfer_job : StatefulMigration → String → Job
swap_transfer_job m image_tag = record {
  name = m.name <> "-swap-transfer";
  namespace = m.namespace;
  labels =
      ("migration.ms2m.io/migration", m.name) ∷ ("migration.ms2m.io/phase", "swap-transfer") ∷ [];
  owner_references = controller_ref m ∷ [];
  node_selector = ("kubernetes.io/hostname", m.spec.target_node) ∷ [];
  container_name = "local-load";
  image = "localhost/ms2m-agent:latest";
  args = "local-load" ∷ m.status.checkpoint_id ∷ m.status.container_name ∷ image_tag ∷ [];
  env = [];
  privileged = true;
  mounts = (checkpoints_dir, true) ∷ ("/var/lib/containers/storage", false) ∷ [];
  succeeded = 0;
  failed = 0;
}

module _ (E : Env) where
  unfoldable pub loaded : Act E.World SwapReply SwapReply
  unfolding advance
  loaded = do
    base ← migration
    modify (set_sub_phase SwapSubPhase.create_replacement)
    advance E base

  after_create_job : Created → SwapReply
  after_create_job Created.created = swap_requeue_after (2 * second)
  after_create_job Created.already_exists = swap_requeue_after (2 * second)
  after_create_job (Created.failed e) = swap_error ("create swap transfer job: " <> e)

  unfoldable pub follow_job : String → Lookup Job → Act E.World SwapReply SwapReply
  unfolding loaded after_create_job
  follow_job image_tag Lookup.not_found = do
    m ← migration
    r ← create_job E (swap_transfer_job m image_tag)
    pure (after_create_job r)
  follow_job image_tag (Lookup.failed e) = pure (swap_error e)
  follow_job image_tag (Lookup.found job) =
      if leb 1 job.succeeded
      then loaded
      else if ltb 0 job.failed
      then pure (swap_error ("swap local-load job \"" <> job.name <> "\" failed"))
      else pure (swap_requeue_after (2 * second))

  unfoldable pub swap_transfer_via_job : String → Act E.World SwapReply SwapReply
  unfolding follow_job
  swap_transfer_via_job image_tag = do
    m ← migration
    job ← get_job E m.namespace (m.name <> "-swap-transfer")
    follow_job image_tag job

  unfoldable pub by_agent : String → Result String → Act E.World SwapReply SwapReply
  unfolding call_agent_local_load return_if_error loaded swap_transfer_via_job
  by_agent image_tag (err e) = swap_transfer_via_job image_tag
  by_agent image_tag (ok ip) = do
    m ← migration
    e ← call_agent_local_load E ip m.status.checkpoint_id m.status.container_name image_tag
    return_if_error E e (λ x. swap_error ("agent local-load: " <> x))
    loaded

  unfoldable pub swap_transfer : Act E.World SwapReply SwapReply
  unfolding find_agent_pod_ip by_agent
  swap_transfer = do
    m ← migration
    agent ← find_agent_pod_ip E m.spec.target_node
    by_agent ("localhost/checkpoint/" <> m.status.container_name <> ":recheckpoint") agent
