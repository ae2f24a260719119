-- ===== src/Controller/PhaseOrder/Identity.antt =====
-- The swap's loop leaves the phase as it is.
use kubernetes_controller.Base.{inl, inr, String, ℕ, zero, suc, arith}
use kubernetes_controller.Api.{Phase, SwapSubPhase}
use kubernetes_controller.Cluster.{Env}
use kubernetes_controller.Controller.Monad.{St, run}
use kubernetes_controller.Controller.Keeps.{Keeps, keeps_rules}
use kubernetes_controller.Controller.PhaseOrder.{Stored, SoleWriter, InOrder}
use kubernetes_controller.Cluster.{Lookup-cases}
use kubernetes_controller.Base.{Bool-cases, Option-cases}
use kubernetes_controller.Controller.Swap.Identity.{ends_loop, swap_step, refetch, identity_swap}
use kubernetes_controller.Controller.PhaseOrder.Swap.{
  begin_swap-Within, prepare_swap-Within, re_checkpoint-Within, swap_transfer-Within,
}
use kubernetes_controller.Controller.PhaseOrder.Fencing.{
  create_replacement-Within, mini_replay-Within, traffic_switch-Within, pre_fence_drain-Within,
  exchange_fence-Within, parallel_drain-Within, fence_cutover-Within,
}

module _ (E : Env) (L : SoleWriter E) {Q : Stored → Type 0} {p : Phase} where
  pub swap_step-InOrder : (x : SwapSubPhase) → Keeps (InOrder L Q p) (swap_step E x)
  unfolding swap_step
  swap_step-InOrder SwapSubPhase.unset = begin_swap-Within E L (λ _ _ h. h)
  swap_step-InOrder SwapSubPhase.prepare_swap = prepare_swap-Within E L (λ _ _ h. h)
  swap_step-InOrder SwapSubPhase.re_checkpoint = re_checkpoint-Within E L (λ _ _ h. h) (λ _ _ h. h)
  swap_step-InOrder SwapSubPhase.swap_transfer = swap_transfer-Within E L (λ _ _ h. h)
  swap_step-InOrder SwapSubPhase.create_replacement =
      create_replacement-Within E L (λ _ _ h. h) (λ _ _ h. h)
  swap_step-InOrder SwapSubPhase.mini_replay = mini_replay-Within E L (λ _ _ h. h)
  swap_step-InOrder SwapSubPhase.traffic_switch = traffic_switch-Within E L (λ _ _ h. h)
  swap_step-InOrder SwapSubPhase.pre_fence_drain =
      pre_fence_drain-Within E L (λ _ _ h. h) (λ _ _ h. h)
  swap_step-InOrder SwapSubPhase.exchange_fence = exchange_fence-Within E L (λ _ _ h. h)
  swap_step-InOrder SwapSubPhase.parallel_drain =
      parallel_drain-Within E L (λ _ _ h. h) (λ _ _ h. h)
  swap_step-InOrder SwapSubPhase.fence_cutover = fence_cutover-Within E L (λ _ _ h. h)
  swap_step-InOrder (SwapSubPhase.other x) = search keeps_rules

  -- The state after the re-fetch.
  refetch-InOrder :
      (n k : String) (s : St E.World)
      → InOrder L Q p s
      → let (l, w) = E.get_migration n k s.world in
        InOrder L Q p (refetch E l (record s { world = w })).1
  unfolding refetch
  refetch-InOrder n k s h = elim (Lookup-cases (E.get_migration n k s.world).0) [
    | inl (m, q) ↦ ground (
      arith,
      h.holds,
      h.stores,
      h.writes,
      L.get_reads n k s.world q,
      L.get_migration_leaves n k s.world,
    )
    | inr no_object ↦
        ground (arith, h.holds, h.stores, h.writes, L.get_migration_leaves n k s.world)
  ]

  pub identity_swap-InOrder :
      (fuel : ℕ) (s : St E.World) → InOrder L Q p s → InOrder L Q p (identity_swap E fuel s).1
  unfolding identity_swap
  identity_swap-InOrder zero s h = h
  identity_swap-InOrder (suc fuel) s h =
      let (r, s1) = run (swap_step E s.m.status.swap_sub_phase) s in
      let h1 : InOrder L Q p s1 = (swap_step-InOrder s.m.status.swap_sub_phase).at s h in
      elim (Bool-cases (ends_loop r)) [
        | inl ends ↦ rw ends h1
        | inr goes_on ↦
            let (l, w) = E.get_migration s1.m.namespace s1.m.name s1.world in
            let (e, s2) = refetch E l (record s1 { world = w }) in
            let h2 : InOrder L Q p s2 = refetch-InOrder s1.m.namespace s1.m.name s1 h1 in
            rw goes_on (elim (Option-cases e) [
              | inl no_error ↦ rw no_error (identity_swap-InOrder fuel s2 h2)
              | inr (x, q) ↦ rw q h2
            ])
      ]
