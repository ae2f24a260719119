-- ===== src/Controller/PhaseOrder/Swap.antt =====
-- The sub-phases of the identity swap move the sub-phase only as they are allowed to.
use kubernetes_controller.Base.{◌≡◌, refl, Option, none, some, String, List, [], ◌∷◌, ℕ}
use kubernetes_controller.Base.Dict.{Dict}
use kubernetes_controller.Api.{SwapSubPhase, StatefulMigration}
use kubernetes_controller.Cluster.{Env, KubeletClient, Lookup, Pod, StatefulSet, Job}
use kubernetes_controller.Messaging.{Result, ok, err}
use kubernetes_controller.Controller.Keeps.{Keeps, keeps_rules}
use kubernetes_controller.Controller.PhaseOrder.{Stored, SoleWriter, Within, Allows}
use kubernetes_controller.Controller.PhaseOrder.Rules.{call_rules}
use kubernetes_controller.Controller.Helpers.{advance}
use kubernetes_controller.Controller.Agent.{find_agent_pod_ip, call_agent_local_load}
use kubernetes_controller.Controller.Swap.Prepare.{
  evict, evict_if_found, evict_source, scale_down, early_scale_down, prepare_swap,
}
use kubernetes_controller.Controller.Swap.Identity.{begin_swap}
use kubernetes_controller.Controller.Swap.ReCheckpoint.{
  after_checkpoint, checkpoint_shadow, re_checkpoint,
}
use kubernetes_controller.Controller.Swap.Transfer.{
  loaded, follow_job, swap_transfer_via_job, by_agent, swap_transfer,
}

module _ (E : Env) (L : SoleWriter E) {H Q : Stored → Type 0} where
  pub advance-Within : (base : StatefulMigration) → Keeps (Within L H Q) (advance E base)
  unfolding advance
  advance-Within base = search (call_rules, L) depth 12

  pub evict-Within : (d : Dict String) (x : Pod) → Keeps (Within L H Q) (evict E d x)
  unfolding evict
  evict-Within d x = search call_rules depth 12

  evict_if_found-Within :
      (d : Dict String) (l : Lookup Pod) → Keeps (Within L H Q) (evict_if_found E d l)
  unfolding evict_if_found
  evict_if_found-Within d (Lookup.found x) = evict-Within d x
  evict_if_found-Within d Lookup.not_found = search keeps_rules
  evict_if_found-Within d (Lookup.failed e) = search keeps_rules

  evict_source-Within : (e : Option String) → Keeps (Within L H Q) (evict_source E e)
  unfolding evict_source
  evict_source-Within (some e) = search keeps_rules
  evict_source-Within none = search (call_rules, evict_if_found-Within) depth 12

  scale_down-Within : (x : StatefulSet) (n : Option ℕ) → Keeps (Within L H Q) (scale_down E x n)
  unfolding scale_down
  scale_down-Within x none = search keeps_rules
  scale_down-Within x (some n) = search (call_rules, evict_source-Within) depth 12

  early_scale_down-Within : (l : Lookup StatefulSet) → Keeps (Within L H Q) (early_scale_down E l)
  unfolding early_scale_down
  early_scale_down-Within (Lookup.found x) = scale_down-Within x _
  early_scale_down-Within Lookup.not_found = search keeps_rules
  early_scale_down-Within (Lookup.failed e) = search keeps_rules

  pub prepare_swap-Within :
      Allows H SwapSubPhase.re_checkpoint → Keeps (Within L H Q) (prepare_swap E)
  unfolding prepare_swap
  prepare_swap-Within k1 = search (call_rules, early_scale_down-Within, advance-Within) depth 20

  pub begin_swap-Within : Allows H SwapSubPhase.re_checkpoint → Keeps (Within L H Q) (begin_swap E)
  unfolding begin_swap
  begin_swap-Within k1 = search (call_rules, prepare_swap-Within) depth 12

  after_checkpoint-Within :
      (r : Result (List String))
      → Allows H SwapSubPhase.swap_transfer
      → Allows H SwapSubPhase.create_replacement
      → Keeps (Within L H Q) (after_checkpoint E r)
  unfolding after_checkpoint
  after_checkpoint-Within (err e) k1 k2 = search (call_rules, advance-Within) depth 12
  after_checkpoint-Within (ok []) k1 k2 = search keeps_rules
  after_checkpoint-Within (ok (id ∷ ids)) k1 k2 = search (call_rules, advance-Within) depth 12

  checkpoint_shadow-Within :
      (k : Option (KubeletClient E.World))
      → E.kubelet ≡ k
      → Allows H SwapSubPhase.swap_transfer
      → Allows H SwapSubPhase.create_replacement
      → Keeps (Within L H Q) (checkpoint_shadow E k)
  unfolding checkpoint_shadow
  checkpoint_shadow-Within none e k1 k2 = search (call_rules, advance-Within) depth 12
  checkpoint_shadow-Within (some k) e k1 k2 =
      search (call_rules, after_checkpoint-Within, e) depth 12

  pub re_checkpoint-Within :
      Allows H SwapSubPhase.swap_transfer
      → Allows H SwapSubPhase.create_replacement
      → Keeps (Within L H Q) (re_checkpoint E)
  unfolding re_checkpoint
  re_checkpoint-Within k1 k2 = checkpoint_shadow-Within E.kubelet refl k1 k2

  loaded-Within : Allows H SwapSubPhase.create_replacement → Keeps (Within L H Q) (loaded E)
  unfolding loaded
  loaded-Within k1 = search (call_rules, advance-Within) depth 12

  follow_job-Within :
      (t : String) (l : Lookup Job)
      → Allows H SwapSubPhase.create_replacement
      → Keeps (Within L H Q) (follow_job E t l)
  unfolding follow_job
  follow_job-Within t (Lookup.found x) k1 = search (call_rules, loaded-Within) depth 12
  follow_job-Within t Lookup.not_found k1 = search call_rules depth 12
  follow_job-Within t (Lookup.failed e) k1 = search keeps_rules

  swap_transfer_via_job-Within :
      (t : String)
      → Allows H SwapSubPhase.create_replacement
      → Keeps (Within L H Q) (swap_transfer_via_job E t)
  unfolding swap_transfer_via_job
  swap_transfer_via_job-Within t k1 = search (call_rules, follow_job-Within) depth 12

  by_agent-Within :
      (t : String) (r : Result String)
      → Allows H SwapSubPhase.create_replacement
      → Keeps (Within L H Q) (by_agent E t r)
  unfolding by_agent call_agent_local_load
  by_agent-Within t (err e) k1 = swap_transfer_via_job-Within t k1
  by_agent-Within t (ok ip) k1 = search (call_rules, loaded-Within) depth 12

  pub swap_transfer-Within :
      Allows H SwapSubPhase.create_replacement → Keeps (Within L H Q) (swap_transfer E)
  unfolding swap_transfer find_agent_pod_ip
  swap_transfer-Within k1 = search (call_rules, by_agent-Within) depth 12
