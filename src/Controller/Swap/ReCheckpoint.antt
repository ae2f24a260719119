-- ===== src/Controller/Swap/ReCheckpoint.antt =====
-- `handleSwapReCheckpoint`: a checkpoint of the shadow pod on its own node.
use kubernetes_controller.Base.{String, ◌<>◌, Option, none, some, List, [], ◌∷◌}
use kubernetes_controller.Messaging.{Result, ok, err}
use kubernetes_controller.Api.{StatefulMigration, SwapSubPhase}
use kubernetes_controller.Cluster.{KubeletClient, Env}
use kubernetes_controller.Controller.Monad.{Act, ◌>>=◌, ◌>>◌, pure, modify, migration}
use kubernetes_controller.Controller.Calls.{checkpoint}
use kubernetes_controller.Controller.Helpers.{
  SwapReply, swap_requeue, set_timing, set_sub_phase, advance,
}

abbrev pub checkpoint_path : String → String
checkpoint_path pod = "/var/lib/kubelet/checkpoints/checkpoint-" <> pod <> ".tar"

abbrev re_checkpointed : String → StatefulMigration → StatefulMigration
re_checkpointed id m = record m {
  status = record m.status { checkpoint_id = id; swap_sub_phase = SwapSubPhase.swap_transfer };
}

-- The code writes into the map without making it first: by then it holds the stamps of earlier phases,
-- where a nil map would panic.
abbrev fallen_back : StatefulMigration → StatefulMigration
fallen_back m =
    set_timing "Swap.ReCheckpoint.fallback" "true" (set_sub_phase SwapSubPhase.create_replacement m)

module _ (E : Env) where
  -- The answer of the kubelet: on an error the original checkpoint image is used, and an answer
  -- with no archive changes nothing.
  unfoldable pub after_checkpoint : Result (List String) → Act E.World SwapReply SwapReply
  unfolding advance
  after_checkpoint (err e) = do base ← migration; modify fallen_back; advance E base
  after_checkpoint (ok []) = pure swap_requeue
  after_checkpoint (ok (id ∷ ids)) = do
    base ← migration
    modify (re_checkpointed id)
    advance E base

  unfoldable pub checkpoint_shadow :
      Option (KubeletClient E.World) → Act E.World SwapReply SwapReply
  unfolding after_checkpoint advance
  checkpoint_shadow none = do
    base ← migration
    modify (re_checkpointed (checkpoint_path base.status.target_pod))
    advance E base
  checkpoint_shadow (some k) = do
    m ← migration
    r ← checkpoint E k m.spec.target_node m.namespace m.status.target_pod m.status.container_name
    after_checkpoint r

  unfoldable pub re_checkpoint : Act E.World SwapReply SwapReply
  unfolding checkpoint_shadow
  re_checkpoint = checkpoint_shadow E.kubelet
