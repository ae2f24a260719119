-- ===== src/Controller/Settling/Early.antt =====
-- Pending, Checkpointing and Transferring end the call or advance.
use kubernetes_controller.Base.{String, Option, none, some, List, [], ◌∷◌}
use kubernetes_controller.Api.{StatefulMigration, Phase}
use kubernetes_controller.Messaging.{Result, ok, err}
use kubernetes_controller.Cluster.{Env, KubeletClient, Lookup, Job, Pod, Created, OwnerReference}
use kubernetes_controller.Controller.Monad.{Act}
use kubernetes_controller.Controller.Helpers.{Reply, polling_backoff}
use kubernetes_controller.Controller.Agent.{find_agent_pod_ip, call_agent_registry_push}
use kubernetes_controller.Controller.PhaseOrder.{SoleWriter}
use kubernetes_controller.Controller.Settling.{any, Settles}
use kubernetes_controller.Controller.Settling.Advance.{
  Advances, advance_rules, fail_migration-Settles,
}
use kubernetes_controller.Controller.Phases.Pending.{
  owner_or, record_owner, persist_spec, replace_by, settle_strategy, accept_source, check_source,
  follow_source, handle_pending,
}
use kubernetes_controller.Controller.Phases.Checkpointing.{
  record_archive, take_checkpoint, handle_checkpointing,
}
use kubernetes_controller.Controller.Phases.Transferring.{
  begin_phase, end_phase, after_create, start_job, follow_job, transferring_via_job, by_agent,
  handle_transferring,
}

module _ (E : Env) (L : SoleWriter E) where
  owner_or-Settles :
      {p : Phase} (r : OwnerReference) (rest : Act E.World Reply (Unit {0}))
      → Settles E (Advances E L p) (any E) rest
      → Settles E (Advances E L p) (any E) (owner_or E r rest)
  unfolding owner_or
  owner_or-Settles r rest k = search advance_rules depth 12

  record_owner-Settles :
      {p : Phase} (refs : List OwnerReference)
      → Settles E (Advances E L p) (any E) (record_owner E refs)
  unfolding record_owner
  record_owner-Settles [] = search advance_rules
  record_owner-Settles (r ∷ refs) =
      owner_or-Settles r (record_owner E refs) (record_owner-Settles refs)

  replace_by-Settles :
      {p : Phase} (l : Lookup StatefulMigration)
      → Settles E (Advances E L p) (any E) (replace_by E l)
  unfolding replace_by
  replace_by-Settles (Lookup.found x) = search advance_rules
  replace_by-Settles Lookup.not_found = search (advance_rules, L)
  replace_by-Settles (Lookup.failed e) = search (advance_rules, L)

  persist_spec-Settles : {p : Phase} → Settles E (Advances E L p) (any E) (persist_spec E)
  unfolding persist_spec
  persist_spec-Settles = search (advance_rules, L, replace_by-Settles) depth 15

  follow_source-Settles :
      (l : Lookup Pod)
      → Settles E (Advances E L Phase.pending) (Advances E L Phase.pending) (follow_source E l)
  unfolding follow_source check_source accept_source settle_strategy
  follow_source-Settles (Lookup.found x) =
      search (advance_rules, L, persist_spec-Settles, record_owner-Settles) depth 20
  follow_source-Settles Lookup.not_found = search (advance_rules, L) depth 12
  follow_source-Settles (Lookup.failed e) = search (advance_rules, L) depth 12

  pub handle_pending-Settles :
      Settles E (Advances E L Phase.pending) (Advances E L Phase.pending) (handle_pending E)
  unfolding handle_pending
  handle_pending-Settles = search (advance_rules, follow_source-Settles) depth 12

  record_archive-Settles :
      {p : Phase} (items : List String)
      → Settles E (Advances E L p) (any E) (record_archive E items)
  unfolding record_archive
  record_archive-Settles [] = search advance_rules
  record_archive-Settles (id ∷ ids) = search advance_rules

  take_checkpoint-Settles :
      {p : Phase} (k : Option (KubeletClient E.World))
      → Settles E (Advances E L p) (any E) (take_checkpoint E k)
  unfolding take_checkpoint
  take_checkpoint-Settles none = search advance_rules
  take_checkpoint-Settles (some k) = search (advance_rules, L, record_archive-Settles) depth 12

  pub handle_checkpointing-Settles :
      Settles E
        (Advances E L Phase.checkpointing)
        (Advances E L Phase.checkpointing)
        (handle_checkpointing E)
  unfolding handle_checkpointing
  handle_checkpointing-Settles = search (advance_rules, L, take_checkpoint-Settles) depth 25

  pub begin_phase-Settles :
      {p : Phase} (key : String) → Settles E (Advances E L p) (any E) (begin_phase E key)
  unfolding begin_phase
  begin_phase-Settles key = search advance_rules depth 12

  pub end_phase-Settles :
      {p : Phase} (key name : String) → Settles E (Advances E L p) (any E) (end_phase E key name)
  unfolding end_phase
  end_phase-Settles key name = search advance_rules depth 12

  after_create-Settles :
      {p : Phase} (r : Created) → Settles E (Advances E L p) (Advances E L p) (after_create E r)
  unfolding after_create
  after_create-Settles Created.created = search (advance_rules, L)
  after_create-Settles Created.already_exists = search (advance_rules, L)
  after_create-Settles (Created.failed e) = fail_migration-Settles E L _

  follow_job-Settles :
      (j : Lookup Job)
      → Settles E
          (Advances E L Phase.transferring)
          (Advances E L Phase.transferring)
          (follow_job E j)
  unfolding follow_job start_job polling_backoff
  follow_job-Settles Lookup.not_found =
      search (advance_rules, begin_phase-Settles, after_create-Settles) depth 12
  follow_job-Settles (Lookup.failed e) = search (advance_rules, L)
  follow_job-Settles (Lookup.found j) = search (advance_rules, L, end_phase-Settles) depth 15

  transferring_via_job-Settles :
      Settles E
        (Advances E L Phase.transferring)
        (Advances E L Phase.transferring)
        (transferring_via_job E)
  unfolding transferring_via_job
  transferring_via_job-Settles = search (advance_rules, follow_job-Settles) depth 12

  by_agent-Settles :
      (r : Result String)
      → Settles E (Advances E L Phase.transferring) (Advances E L Phase.transferring) (by_agent E r)
  unfolding by_agent call_agent_registry_push
  by_agent-Settles (err e) = transferring_via_job-Settles
  by_agent-Settles (ok ip) = search (advance_rules, L) depth 20

  pub handle_transferring-Settles :
      Settles E
        (Advances E L Phase.transferring)
        (Advances E L Phase.transferring)
        (handle_transferring E)
  unfolding handle_transferring find_agent_pod_ip
  handle_transferring-Settles =
      search (advance_rules, transferring_via_job-Settles, by_agent-Settles) depth 12
