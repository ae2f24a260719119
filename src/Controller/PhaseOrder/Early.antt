-- ===== src/Controller/PhaseOrder/Early.antt =====
-- Checkpointing and Transferring keep the order of the phases.
use kubernetes_controller.Base.{◌≡◌, refl, inl, inr, Option, none, some, String, List, [], ◌∷◌}
use kubernetes_controller.Api.{Phase}
use kubernetes_controller.Cluster.{Env, KubeletClient, Lookup, Job, Created}
use kubernetes_controller.Messaging.{Result, ok, err}
use kubernetes_controller.Controller.Keeps.{Keeps, keeps_rules}
use kubernetes_controller.Controller.PhaseOrder.{Stored, SoleWriter, InOrder}
use kubernetes_controller.Controller.PhaseOrder.Rules.{
  call_rules, fail_rules, fail_migration-InOrder,
}
use kubernetes_controller.Controller.Helpers.{transition_phase, record_phase_timing}
use kubernetes_controller.Controller.Agent.{find_agent_pod_ip, call_agent_registry_push}
use kubernetes_controller.Controller.Phases.Checkpointing.{
  record_archive, take_checkpoint, handle_checkpointing,
}
use kubernetes_controller.Controller.Phases.Transferring.{
  begin_phase, end_phase, after_create, start_job, follow_job, transferring_via_job, by_agent,
  handle_transferring,
}

module _ (E : Env) (L : SoleWriter E) {Q : Stored → Type 0} where
  record_archive-InOrder :
      {p : Phase} (items : List String) → Keeps (InOrder L Q p) (record_archive E items)
  unfolding record_archive
  record_archive-InOrder [] = search keeps_rules
  record_archive-InOrder (id ∷ ids) = search call_rules

  take_checkpoint-InOrder :
      {p : Phase} (k : Option (KubeletClient E.World))
      → E.kubelet ≡ k
      → Keeps (InOrder L Q p) (take_checkpoint E k)
  unfolding take_checkpoint
  take_checkpoint-InOrder none e = search call_rules
  take_checkpoint-InOrder (some k) e = search (fail_rules, record_archive-InOrder, e) depth 12

  own_checkpoint-InOrder : {p : Phase} → Keeps (InOrder L Q p) (take_checkpoint E E.kubelet)
  own_checkpoint-InOrder = take_checkpoint-InOrder E.kubelet refl

  pub handle_checkpointing-InOrder :
      Keeps (InOrder L Q Phase.checkpointing) (handle_checkpointing E)
  unfolding handle_checkpointing transition_phase record_phase_timing
  handle_checkpointing-InOrder = search (fail_rules, inl, inr, L, own_checkpoint-InOrder) depth 25

  pub begin_phase-InOrder : {p : Phase} (key : String) → Keeps (InOrder L Q p) (begin_phase E key)
  unfolding begin_phase
  begin_phase-InOrder key = search (call_rules, L) depth 12

  pub end_phase-InOrder :
      {p : Phase} (key name : String) → Keeps (InOrder L Q p) (end_phase E key name)
  unfolding end_phase record_phase_timing
  end_phase-InOrder key name = search (call_rules, L) depth 12

  after_create-InOrder : {p : Phase} (r : Created) → Keeps (InOrder L Q p) (after_create E r)
  unfolding after_create
  after_create-InOrder Created.created = search keeps_rules
  after_create-InOrder Created.already_exists = search keeps_rules
  after_create-InOrder (Created.failed e) = fail_migration-InOrder E L _

  follow_job-InOrder : (j : Lookup Job) → Keeps (InOrder L Q Phase.transferring) (follow_job E j)
  unfolding follow_job start_job transition_phase
  follow_job-InOrder Lookup.not_found =
      search (call_rules, begin_phase-InOrder, after_create-InOrder) depth 12
  follow_job-InOrder (Lookup.failed e) = search keeps_rules
  follow_job-InOrder (Lookup.found j) = search (fail_rules, inl, inr, L, end_phase-InOrder) depth 15

  transferring_via_job-InOrder : Keeps (InOrder L Q Phase.transferring) (transferring_via_job E)
  unfolding transferring_via_job
  transferring_via_job-InOrder = search (call_rules, follow_job-InOrder) depth 12

  by_agent-InOrder : (r : Result String) → Keeps (InOrder L Q Phase.transferring) (by_agent E r)
  unfolding by_agent transition_phase record_phase_timing call_agent_registry_push
  by_agent-InOrder (err e) = transferring_via_job-InOrder
  by_agent-InOrder (ok ip) = search (fail_rules, inl, inr, L) depth 20

  pub handle_transferring-InOrder : Keeps (InOrder L Q Phase.transferring) (handle_transferring E)
  unfolding handle_transferring find_agent_pod_ip
  handle_transferring-InOrder =
      search (call_rules, transferring_via_job-InOrder, by_agent-InOrder) depth 12
