-- ===== src/Controller/PhaseOrder/Calls.antt =====
-- The calls of the API server keep the order of the phases.
use kubernetes_controller.Base.{ℕ, String, inl, inr, Option, arith}
use kubernetes_controller.Api.{StatefulMigration}
use kubernetes_controller.Messaging.{Result-cases}
use kubernetes_controller.Cluster.{Env, Pod, Job, StatefulSet, Deployment}
use kubernetes_controller.Controller.Monad.{modify}
use kubernetes_controller.Controller.Calls
use kubernetes_controller.Controller.Keeps.{Keeps}
use kubernetes_controller.Controller.PhaseOrder.{view, Stored, SoleWriter, Within}
use kubernetes_controller.Controller.PhaseOrder.Noted.{noted-Within, asked-Within}

module _ (E : Env) (L : SoleWriter E) {H Q : Stored → Type 0} {R : Type 0} where
  pub get_pod-Within : (ns n : String) → Keeps (Within L H Q) (Calls.get_pod E {R = R} ns n)
  unfolding Calls.get_pod
  get_pod-Within ns n = record {
    at = λ s h. asked-Within E L _ s (L.get_pod_leaves ns n s.world) h;
  }

  pub get_stateful_set-Within :
      (ns n : String) → Keeps (Within L H Q) (Calls.get_stateful_set E {R = R} ns n)
  unfolding Calls.get_stateful_set
  get_stateful_set-Within ns n = record {
    at = λ s h. asked-Within E L _ s (L.get_stateful_set_leaves ns n s.world) h;
  }

  pub get_deployment-Within :
      (ns n : String) → Keeps (Within L H Q) (Calls.get_deployment E {R = R} ns n)
  unfolding Calls.get_deployment
  get_deployment-Within ns n = record {
    at = λ s h. asked-Within E L _ s (L.get_deployment_leaves ns n s.world) h;
  }

  pub get_replica_set-Within :
      (ns n : String) → Keeps (Within L H Q) (Calls.get_replica_set E {R = R} ns n)
  unfolding Calls.get_replica_set
  get_replica_set-Within ns n = record {
    at = λ s h. asked-Within E L _ s (L.get_replica_set_leaves ns n s.world) h;
  }

  pub get_job-Within : (ns n : String) → Keeps (Within L H Q) (Calls.get_job E {R = R} ns n)
  unfolding Calls.get_job
  get_job-Within ns n = record {
    at = λ s h. asked-Within E L _ s (L.get_job_leaves ns n s.world) h;
  }

  pub create_pod-Within : (x : Pod) → Keeps (Within L H Q) (Calls.create_pod E {R = R} x)
  unfolding Calls.create_pod
  create_pod-Within x = record {
    at = λ s h. noted-Within E L _ _ s (L.create_pod_leaves x s.world) tt h;
  }

  pub create_job-Within : (x : Job) → Keeps (Within L H Q) (Calls.create_job E {R = R} x)
  unfolding Calls.create_job
  create_job-Within x = record {
    at = λ s h. noted-Within E L _ _ s (L.create_job_leaves x s.world) tt h;
  }

  pub delete_pod-Within :
      (x : Pod) (g : Option ℕ) → Keeps (Within L H Q) (Calls.delete_pod E {R = R} x g)
  unfolding Calls.delete_pod
  delete_pod-Within x g = record {
    at = λ s h. noted-Within E L _ _ s (L.delete_pod_leaves x g s.world) tt h;
  }

  pub patch_pod-Within : (b x : Pod) → Keeps (Within L H Q) (Calls.patch_pod E {R = R} b x)
  unfolding Calls.patch_pod
  patch_pod-Within b x = record {
    at = λ s h. noted-Within E L _ _ s (L.patch_pod_leaves b x s.world) tt h;
  }

  pub patch_stateful_set-Within :
      (b x : StatefulSet) → Keeps (Within L H Q) (Calls.patch_stateful_set E {R = R} b x)
  unfolding Calls.patch_stateful_set
  patch_stateful_set-Within b x = record {
    at = λ s h. noted-Within E L _ _ s (L.patch_stateful_set_leaves b x s.world) tt h;
  }

  pub patch_deployment-Within :
      (b x : Deployment) → Keeps (Within L H Q) (Calls.patch_deployment E {R = R} b x)
  unfolding Calls.patch_deployment
  patch_deployment-Within b x = record {
    at = λ s h. noted-Within E L _ _ s (L.patch_deployment_leaves b x s.world) tt h;
  }

  pub list_agent_pods-Within : Keeps (Within L H Q) (Calls.list_agent_pods E {R = R})
  unfolding Calls.list_agent_pods
  list_agent_pods-Within = record {
    at = λ s h. asked-Within E L _ s (L.list_agent_pods_leaves s.world) h;
  }

  pub modify-Within :
      (f : StatefulMigration → StatefulMigration)
      → ((m : StatefulMigration) → H (view m) → H (view (f m)))
      → Keeps (Within L H Q) (modify {W = E.World} {R = R} f)
  unfolding modify
  modify-Within f k = record {
    at = λ s h. record { holds = k s.m h.holds; stores = h.stores; writes = h.writes };
  }

  pub patch_status-Within :
      (base : StatefulMigration) → Keeps (Within L H Q) (Calls.patch_status E {R = R} base)
  unfolding Calls.patch_status
  patch_status-Within base = record {
    at = λ s h. elim (Result-cases (E.patch_status base s.m s.world).0) [
      | inl (m', q) ↦ ground (
        arith,
        h.holds,
        h.stores,
        h.writes,
        L.patch_answers base s.m s.world q,
        L.failed_patch_stores base s.m s.world,
      )
      | inr (e, q) ↦
          ground (arith, h.holds, h.stores, h.writes, L.failed_patch_stores base s.m s.world)
    ];
  }
