-- ===== src/Controller/Swap/Identity.antt =====
-- `handleIdentitySwap`: the loop that chains the sub-phases.
use kubernetes_controller.Base.{
  zero, suc, ℕ, String, ◌==◌, Bool, not, Option, none, some, ◌||◌, ltb, if◌then◌else◌,
}
use kubernetes_controller.Api.{StatefulMigration, SwapSubPhase}
use kubernetes_controller.Cluster.{Lookup, Env}
use kubernetes_controller.Controller.Monad.{St, run, Act, ◌>>=◌, pure, migration}
use kubernetes_controller.Controller.Helpers.{SwapReply, swap_error, swap_done, has}
use kubernetes_controller.Controller.Swap.Prepare.{prepare_swap}
use kubernetes_controller.Controller.Swap.ReCheckpoint.{re_checkpoint}
use kubernetes_controller.Controller.Swap.Transfer.{swap_transfer}
use kubernetes_controller.Controller.Swap.Replacement.{create_replacement}
use kubernetes_controller.Controller.Swap.MiniReplay.{mini_replay}
use kubernetes_controller.Controller.Swap.TrafficSwitch.{traffic_switch}
use kubernetes_controller.Controller.Swap.PreFence.{pre_fence_drain}
use kubernetes_controller.Controller.Swap.Fence.{exchange_fence}
use kubernetes_controller.Controller.Swap.Drain.{parallel_drain}
use kubernetes_controller.Controller.Swap.Cutover.{fence_cutover}

-- Whether the loop returns: on an error, when done, on a delay, or when no requeue is asked for.
unfoldable pub ends_loop : SwapReply → Bool
ends_loop r = has r.error || r.done || ltb 0 r.result.requeue_after || not r.result.requeue

module _ (E : Env) where
  -- With no sub-phase the swap begins, unless its replacement is recorded: then it is over.
  unfoldable pub begin_swap : Act E.World SwapReply SwapReply
  begin_swap = do
    m ← migration
    if m.status.replacement_pod == "" then prepare_swap E else pure swap_done

  -- The `switch`; an unknown sub-phase ends the swap.
  unfoldable pub swap_step : SwapSubPhase → Act E.World SwapReply SwapReply
  unfolding begin_swap
  swap_step SwapSubPhase.unset = begin_swap
  swap_step SwapSubPhase.prepare_swap = prepare_swap E
  swap_step SwapSubPhase.re_checkpoint = re_checkpoint E
  swap_step SwapSubPhase.swap_transfer = swap_transfer E
  swap_step SwapSubPhase.create_replacement = create_replacement E
  swap_step SwapSubPhase.mini_replay = mini_replay E
  swap_step SwapSubPhase.traffic_switch = traffic_switch E
  swap_step SwapSubPhase.pre_fence_drain = pre_fence_drain E
  swap_step SwapSubPhase.exchange_fence = exchange_fence E
  swap_step SwapSubPhase.parallel_drain = parallel_drain E
  swap_step SwapSubPhase.fence_cutover = fence_cutover E
  swap_step (SwapSubPhase.other s) = pure swap_done

  -- The re-fetch before the next round.
  unfoldable pub refetch : Lookup StatefulMigration → St E.World → Option String × St E.World
  refetch (Lookup.found m) s = (none, record s { m = m })
  refetch Lookup.not_found s = (some "not found", s)
  refetch (Lookup.failed e) s = (some e, s)

  -- The loop on fuel: `none` means that the fuel ran out.
  unfoldable pub identity_swap : ℕ → St E.World → Option SwapReply × St E.World
  unfolding swap_step ends_loop refetch
  identity_swap zero s = (none, s)
  identity_swap (suc fuel) s =
      let (r, s1) = run (swap_step s.m.status.swap_sub_phase) s in
      if ends_loop r
      then (some r, s1)
      else let (l, w) = E.get_migration s1.m.namespace s1.m.name s1.world in
        let (e, s2) = refetch l (record s1 { world = w }) in
        elim e [ some x ↦ (some (swap_error x), s2) | none ↦ identity_swap fuel s2 ]
