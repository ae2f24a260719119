-- ===== src/Controller/PhaseOrder/Pending.antt =====
-- Pending keeps the order of the phases.
use kubernetes_controller.Base.{inl, inr, Option, none, some, String, List, [], ◌∷◌, arith}
use kubernetes_controller.Api.{Phase, StatefulMigration}
use kubernetes_controller.Cluster.{Lookup-cases, Env, Lookup, Pod, OwnerReference}
use kubernetes_controller.Messaging.{Result-cases}
use kubernetes_controller.Controller.Monad.{Act, ◌>>=◌, modify, migration}
use kubernetes_controller.Controller.Keeps.{Keeps, keeps_rules}
use kubernetes_controller.Controller.PhaseOrder.{Stored, Follows, SoleWriter, InOrder}
use kubernetes_controller.Controller.PhaseOrder.Rules.{call_rules, fail_rules}
use kubernetes_controller.Controller.Helpers.{transition_phase}
use kubernetes_controller.Controller.Calls.{update_migration, get_migration}
use kubernetes_controller.Controller.Helpers.{Reply}
use kubernetes_controller.Controller.Phases.Pending.{
  owner_or, record_owner, set_deployment, persist_spec, settle_strategy, accept_source,
  check_source, follow_source, handle_pending,
}

set_deployment-Follows :
    {p : Phase} (o : Option String) (m : StatefulMigration)
    → Follows p m.status.phase
    → Follows p (set_deployment o m).status.phase
set_deployment-Follows none m h = h
set_deployment-Follows (some n) m h = h

module _ (E : Env) (L : SoleWriter E) {Q : Stored → Type 0} where
  owner_or-InOrder :
      {p : Phase} (r : OwnerReference) (rest : Act E.World Reply (Unit {0}))
      → Keeps (InOrder L Q p) rest
      → Keeps (InOrder L Q p) (owner_or E r rest)
  unfolding owner_or
  owner_or-InOrder r rest k = search (call_rules, set_deployment-Follows) depth 12

  record_owner-InOrder :
      {p : Phase} (refs : List OwnerReference) → Keeps (InOrder L Q p) (record_owner E refs)
  unfolding record_owner
  record_owner-InOrder [] = search keeps_rules
  record_owner-InOrder (r ∷ refs) =
      owner_or-InOrder r (record_owner E refs) (record_owner-InOrder refs)

  -- A failed update leaves the object, and one that is answered answers what is stored; so does the
  -- read behind it.
  persist_spec-InOrder : {p : Phase} → Keeps (InOrder L Q p) (persist_spec E)
  unfolding persist_spec ◌>>=◌ update_migration get_migration migration modify
  persist_spec-InOrder = record {
    at = λ s h. elim (Result-cases (E.update_migration s.m s.world).0) [
      | inr (e, q) ↦
          ground (arith, h.holds, h.stores, h.writes, L.update_migration_leaves s.m s.world)
      | inl (m', q) ↦
          let w = (E.update_migration s.m s.world).1 in
          elim (Lookup-cases (E.get_migration m'.namespace m'.name w).0) [
            | inl (m'', q') ↦ ground (
              arith,
              h.holds,
              h.stores,
              h.writes,
              L.update_migration_leaves s.m s.world,
              L.get_reads m'.namespace m'.name w q',
              L.get_migration_leaves m'.namespace m'.name w,
            )
            | inr no_object ↦ ground (
              arith,
              h.holds,
              h.stores,
              h.writes,
              L.update_migration_leaves s.m s.world,
              L.update_answers s.m s.world q,
              L.get_migration_leaves m'.namespace m'.name w,
            )
          ]
    ];
  }

  follow_source-InOrder : (l : Lookup Pod) → Keeps (InOrder L Q Phase.pending) (follow_source E l)
  unfolding follow_source check_source accept_source settle_strategy transition_phase
  follow_source-InOrder (Lookup.found x) =
      search (fail_rules, inl, inr, L, persist_spec-InOrder, record_owner-InOrder) depth 20
  follow_source-InOrder Lookup.not_found = search fail_rules depth 12
  follow_source-InOrder (Lookup.failed e) = search keeps_rules

  pub handle_pending-InOrder : Keeps (InOrder L Q Phase.pending) (handle_pending E)
  unfolding handle_pending
  handle_pending-InOrder = search (call_rules, follow_source-InOrder) depth 12
