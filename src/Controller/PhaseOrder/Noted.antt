-- ===== src/Controller/PhaseOrder/Noted.antt =====
-- What a call does to the order of the phases that leaves what is stored as it is.
use kubernetes_controller.Base.{◌≡◌, ◌∷◌, ◌⊎◌}
use kubernetes_controller.Cluster.{Env}
use kubernetes_controller.Controller.Monad.{Call, St}
use kubernetes_controller.Controller.PhaseOrder.{Writes, Stored, SoleWriter, Within}

module _ (E : Env) (L : SoleWriter E) {H Q : Stored → Type 0} where
  -- A call that leaves what is stored, and is noted.
  pub noted-Within :
      (w : E.World) (c : Call) (s : St E.World)
      → L.stored w ≡ L.stored s.world
      → Writes (λ v. H v ⊎ Q v) c
      → Within L H Q s
      → Within L H Q (record s { world = w; calls = c ∷ s.calls })
  noted-Within w c s leaves follows h = record {
    holds = h.holds;
    stores = rw leaves h.stores;
    writes = (follows, h.writes);
  }

  -- A call that only reads.
  pub asked-Within :
      (w : E.World) (s : St E.World)
      → L.stored w ≡ L.stored s.world
      → Within L H Q s
      → Within L H Q (record s { world = w })
  asked-Within w s leaves h = record {
    holds = h.holds;
    stores = rw leaves h.stores;
    writes = h.writes;
  }
