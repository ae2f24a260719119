-- ===== src/Controller/Phases/Checkpointing.antt =====
-- `handleCheckpointing`: the replay queue, and the checkpoint of the source.
use kubernetes_controller.Base.{String, ◌<>◌, Option, none, some, List, [], ◌∷◌}
use kubernetes_controller.Base.Int.{sub_ℕ}
use kubernetes_controller.Api.{StatefulMigration, Phase}
use kubernetes_controller.Cluster.{KubeletClient, Env}
use kubernetes_controller.Controller.Monad.{Act, ◌>>=◌, ◌>>◌, modify, migration, skip}
use kubernetes_controller.Controller.Calls.{time_now, connect, create_secondary_queue, checkpoint}
use kubernetes_controller.Controller.Helpers.{
  Reply, transition_phase, or_fail, fail_if_error, record_phase_timing,
}
use kubernetes_controller.Controller.Swap.ReCheckpoint.{checkpoint_path}

abbrev set_checkpoint : String → StatefulMigration → StatefulMigration
set_checkpoint id m = record m { status = record m.status { checkpoint_id = id } }

module _ (E : Env) where
  -- The first archive of the answer, if there is one.
  unfoldable pub record_archive : List String → Act E.World Reply (Unit {0})
  record_archive [] = skip
  record_archive (id ∷ ids) = modify (set_checkpoint id)

  unfoldable pub take_checkpoint : Option (KubeletClient E.World) → Act E.World Reply (Unit {0})
  unfolding record_archive or_fail
  take_checkpoint none = modify (λ m. set_checkpoint (checkpoint_path m.spec.source_pod) m)
  take_checkpoint (some k) = do
    m ← migration
    r ← checkpoint E k m.status.source_node m.namespace m.spec.source_pod m.status.container_name
    items ← or_fail E r (λ e. "kubelet checkpoint: " <> e)
    record_archive items

  unfoldable pub handle_checkpointing : Act E.World Reply Reply
  unfolding take_checkpoint or_fail fail_if_error record_phase_timing transition_phase
  handle_checkpointing = do
    base ← migration
    start ← time_now E
    let cfg = base.spec.message_queue_config
    e ← connect E cfg.broker_url
    fail_if_error E e (λ x. "broker connect: " <> x)
    r ← create_secondary_queue E cfg.queue_name cfg.exchange_name cfg.routing_key
    or_fail E r (λ x. "create secondary queue: " <> x)
    take_checkpoint E.kubelet
    now ← time_now E
    modify (record_phase_timing E "Checkpointing" (sub_ℕ now start))
    transition_phase E base Phase.transferring
