-- ===== src/Controller/PhaseOrder/SubPhases.antt =====
-- The order of the sub-phases of the identity swap.
use kubernetes_controller.Base.{ℕ, ◌≡◌, refl, ◌⊎◌, inl, inr, ◌<◌, arith}
use kubernetes_controller.Api.{SwapSubPhase}
use kubernetes_controller.Cluster.{Env}
use kubernetes_controller.Controller.Monad.{St}
use kubernetes_controller.Controller.Keeps.{Keeps, keeps_rules}
use kubernetes_controller.Controller.PhaseOrder.{Stored, SoleWriter, Within}
use kubernetes_controller.Controller.Swap.Identity.{swap_step}
use kubernetes_controller.Controller.PhaseOrder.Swap.{
  begin_swap-Within, prepare_swap-Within, re_checkpoint-Within, swap_transfer-Within,
}
use kubernetes_controller.Controller.PhaseOrder.Fencing.{
  create_replacement-Within, mini_replay-Within, traffic_switch-Within, pre_fence_drain-Within,
  exchange_fence-Within, parallel_drain-Within, fence_cutover-Within,
}

-- The steps of a swap. The two ways part at the mode and at the adaptive decision, and meet again
-- where a fence is given up; a swap that is over has no sub-phase.
pub data Step : SwapSubPhase → SwapSubPhase → Type 0 where
  begun : Step SwapSubPhase.unset SwapSubPhase.re_checkpoint
  prepared : Step SwapSubPhase.prepare_swap SwapSubPhase.re_checkpoint
  checkpointed : Step SwapSubPhase.re_checkpoint SwapSubPhase.swap_transfer
  fell_back : Step SwapSubPhase.re_checkpoint SwapSubPhase.create_replacement
  transferred : Step SwapSubPhase.swap_transfer SwapSubPhase.create_replacement
  replaced_for_fence : Step SwapSubPhase.create_replacement SwapSubPhase.pre_fence_drain
  replaced_for_cutoff : Step SwapSubPhase.create_replacement SwapSubPhase.mini_replay
  chose_fence : Step SwapSubPhase.pre_fence_drain SwapSubPhase.exchange_fence
  chose_cutoff : Step SwapSubPhase.pre_fence_drain SwapSubPhase.mini_replay
  fenced : Step SwapSubPhase.exchange_fence SwapSubPhase.parallel_drain
  drained : Step SwapSubPhase.parallel_drain SwapSubPhase.fence_cutover
  rolled_back : Step SwapSubPhase.parallel_drain SwapSubPhase.mini_replay
  replayed : Step SwapSubPhase.mini_replay SwapSubPhase.traffic_switch
  switched : Step SwapSubPhase.traffic_switch SwapSubPhase.unset
  cut_over : Step SwapSubPhase.fence_cutover SwapSubPhase.unset

-- The sub-phase is `x` still, or one step after it.
abbrev pub AtMostOneStep : SwapSubPhase → Stored → Type 0
AtMostOneStep x v = (v.sub_phase ≡ x) ⊎ Step x v.sub_phase

pub rank : SwapSubPhase → ℕ
rank SwapSubPhase.prepare_swap = 1
rank SwapSubPhase.re_checkpoint = 2
rank SwapSubPhase.swap_transfer = 3
rank SwapSubPhase.create_replacement = 4
rank SwapSubPhase.pre_fence_drain = 5
rank SwapSubPhase.exchange_fence = 6
rank SwapSubPhase.parallel_drain = 7
rank SwapSubPhase.fence_cutover = 8
rank SwapSubPhase.mini_replay = 9
rank SwapSubPhase.traffic_switch = 10
rank _ = 0

Step-rank : {x y : SwapSubPhase} → Step x y → (y ≡ SwapSubPhase.unset) ⊎ (rank x < rank y)
unfolding rank
Step-rank begun = inr (omega arith)
Step-rank prepared = inr (omega arith)
Step-rank checkpointed = inr (omega arith)
Step-rank fell_back = inr (omega arith)
Step-rank transferred = inr (omega arith)
Step-rank replaced_for_fence = inr (omega arith)
Step-rank replaced_for_cutoff = inr (omega arith)
Step-rank chose_fence = inr (omega arith)
Step-rank chose_cutoff = inr (omega arith)
Step-rank fenced = inr (omega arith)
Step-rank drained = inr (omega arith)
Step-rank rolled_back = inr (omega arith)
Step-rank replayed = inr (omega arith)
Step-rank switched = inl refl
Step-rank cut_over = inl refl

module _ (E : Env) (L : SoleWriter E) {Q : Stored → Type 0} where
  pub swap_step-Within : (x : SwapSubPhase) → Keeps (Within L (AtMostOneStep x) Q) (swap_step E x)
  unfolding swap_step
  swap_step-Within SwapSubPhase.unset = begin_swap-Within E L (λ _ _ h. inr begun)
  swap_step-Within SwapSubPhase.prepare_swap = prepare_swap-Within E L (λ _ _ h. inr prepared)
  swap_step-Within SwapSubPhase.re_checkpoint =
      re_checkpoint-Within E L (λ _ _ h. inr checkpointed) (λ _ _ h. inr fell_back)
  swap_step-Within SwapSubPhase.swap_transfer = swap_transfer-Within E L (λ _ _ h. inr transferred)
  swap_step-Within SwapSubPhase.create_replacement =
      create_replacement-Within E L (λ _ _ h. inr replaced_for_fence)
        (λ _ _ h. inr replaced_for_cutoff)
  swap_step-Within SwapSubPhase.mini_replay = mini_replay-Within E L (λ _ _ h. inr replayed)
  swap_step-Within SwapSubPhase.traffic_switch = traffic_switch-Within E L (λ _ _ h. inr switched)
  swap_step-Within SwapSubPhase.pre_fence_drain =
      pre_fence_drain-Within E L (λ _ _ h. inr chose_fence) (λ _ _ h. inr chose_cutoff)
  swap_step-Within SwapSubPhase.exchange_fence = exchange_fence-Within E L (λ _ _ h. inr fenced)
  swap_step-Within SwapSubPhase.parallel_drain =
      parallel_drain-Within E L (λ _ _ h. inr drained) (λ _ _ h. inr rolled_back)
  swap_step-Within SwapSubPhase.fence_cutover = fence_cutover-Within E L (λ _ _ h. inr cut_over)
  swap_step-Within (SwapSubPhase.other x) = search keeps_rules

  -- One round of the swap, on every branch and every error of a call, where nobody else writes the
  -- status and every read finds what is stored: the object, what the API server holds, and every
  -- status that is written keep the sub-phase or move it one step on; the object's sub-phase is the
  -- same, or none, or of a higher rank. Of the statuses written before the round, `Q` says which
  -- others there may be.
  pub swap_step_moves :
      (x : SwapSubPhase) (s : St E.World)
      → Within L (AtMostOneStep x) Q s
      → let s' = (swap_step E x s).1 in
        let y = s'.m.status.swap_sub_phase in
        Within L (AtMostOneStep x) Q s' × ((y ≡ x) ⊎ (y ≡ SwapSubPhase.unset) ⊎ (rank x < rank y))
  swap_step_moves x s h =
      let after = (swap_step-Within x).at s h in
      (after, elim after.holds [ inl same ↦ inl same | inr step ↦ inr (Step-rank step) ])
