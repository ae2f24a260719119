-- ===== src/Controller/Livelock.antt =====
-- A checkpoint that the kubelet answers with no archive.
use kubernetes_controller.Base.{
  ◌≡◌, refl, String, ap, ◌∙◌, zero, suc, ℕ, none, some, [], ◌∷◌, true, arith,
}
use kubernetes_controller.Api.{StatefulMigration, SwapSubPhase}
use kubernetes_controller.Messaging.{ok}
use kubernetes_controller.Cluster.{Env, KubeletClient, Lookup}
use kubernetes_controller.Controller.Monad.{Call, St, ◌>>=◌, migration}
use kubernetes_controller.Controller.Calls.{checkpoint}
use kubernetes_controller.Controller.Swap.ReCheckpoint.{
  after_checkpoint, checkpoint_shadow, re_checkpoint,
}
use kubernetes_controller.Controller.Swap.Identity.{swap_step, ends_loop, refetch, identity_swap}

module _ (E : Env) (k : KubeletClient E.World) where
  -- The kubelet of the environment answers each checkpoint with no archive, and neither that nor a
  -- read changes the migration that is stored.
  pub record AnswersEmpty (stored : E.World → StatefulMigration) : Type 0 where
    pub kubelet : E.kubelet ≡ some k
    pub empty : (node ns pod c : String) (w : E.World) → (k.checkpoint node ns pod c w).0 ≡ ok []
    pub checkpoint_leaves :
        (node ns pod c : String) (w : E.World) → stored (k.checkpoint node ns pod c w).1 ≡ stored w
    pub get_reads :
        (ns n : String) (w : E.World) → (E.get_migration ns n w).0 ≡ Lookup.found (stored w)
    pub get_leaves : (ns n : String) (w : E.World) → stored (E.get_migration ns n w).1 ≡ stored w

  -- While the kubelet answers each checkpoint with no archive, and nobody else changes the
  -- migration, the swap's loop never returns from the re-checkpoint: no fuel is enough.
  pub identity_swap_livelock :
      (stored : E.World → StatefulMigration)
      → AnswersEmpty stored
      → (fuel : ℕ) (s : St E.World) → s.m.status.swap_sub_phase ≡ SwapSubPhase.re_checkpoint
      → (stored s.world).status.swap_sub_phase ≡ SwapSubPhase.re_checkpoint
      → (identity_swap E fuel s).0 ≡ none
  unfolding identity_swap swap_step ends_loop refetch re_checkpoint checkpoint_shadow
      after_checkpoint checkpoint ◌>>=◌ migration
  identity_swap_livelock stored a zero s held kept = refl
  identity_swap_livelock stored a (suc fuel) s held kept =
      let node = s.m.spec.target_node in
      let pod = s.m.status.target_pod in
      let c = s.m.status.container_name in
      let w = (k.checkpoint node s.m.namespace pod c s.world).1 in
      let w' = (E.get_migration s.m.namespace s.m.name w).1 in
      let again : St E.World = record {
        m = stored w;
        world = w';
        calls = Call.checkpoint node pod c true ∷ s.calls;
      } in
      let same = a.checkpoint_leaves node s.m.namespace pod c s.world in
      let kept_on = ap (λ x. x.status.swap_sub_phase) same ∙ kept in
      let rest =
        identity_swap_livelock stored a fuel again kept_on
          (ap (λ x. x.status.swap_sub_phase) (a.get_leaves s.m.namespace s.m.name w) ∙ kept_on) in
      ground (
        arith,
        a.kubelet,
        a.empty node s.m.namespace pod c s.world,
        a.get_reads s.m.namespace s.m.name w,
        held,
        rest,
      )
