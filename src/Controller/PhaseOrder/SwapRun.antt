-- ===== src/Controller/PhaseOrder/SwapRun.antt =====
-- The sub-phases that a run of the identity swap's loop goes through.
use kubernetes_controller.Base.{All}
use kubernetes_controller.Api.{SwapSubPhase}
use kubernetes_controller.Cluster.{Env}
use kubernetes_controller.Controller.Monad.{St}
use kubernetes_controller.Controller.PhaseOrder.{SoleWriter, Writes}
use kubernetes_controller.Controller.PhaseOrder.SubPhases.{Step}

-- Steps, one after another, from the first sub-phase to the second.
pub data Reaches (x : SwapSubPhase) : SwapSubPhase → Type 0 where
  here : Reaches x x
  further : {y z : SwapSubPhase} → Reaches x y → Step y z → Reaches x z

module _ (E : Env) (L : SoleWriter E) (x : SwapSubPhase) where
  -- The object, what is stored of it, and every status that was written have a sub-phase that is
  -- reached from `x`.
  pub record OnTheWay (s : St E.World) : Type 0 where
    pub holds : Reaches x s.m.status.swap_sub_phase
    pub stores : Reaches x (L.stored s.world).sub_phase
    pub writes : All (Writes (λ v. Reaches x v.sub_phase)) s.calls
