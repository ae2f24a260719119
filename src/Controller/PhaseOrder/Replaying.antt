-- ===== src/Controller/PhaseOrder/Replaying.antt =====
-- Replaying keeps the order of the phases.
use kubernetes_controller.Base.{inl, inr, Option, String, ℕ, Bool, true, false}
use kubernetes_controller.Api.{Phase}
use kubernetes_controller.Cluster.{Env}
use kubernetes_controller.Controller.Keeps.{Keeps}
use kubernetes_controller.Controller.PhaseOrder.{Stored, SoleWriter, InOrder}
use kubernetes_controller.Controller.PhaseOrder.Rules.{call_rules, fail_rules, fail_with-InOrder}
use kubernetes_controller.Controller.Helpers.{transition_phase}
use kubernetes_controller.Controller.PhaseOrder.Early.{end_phase-InOrder}
use kubernetes_controller.Controller.Phases.Replaying.{
  note_or_fail, replay_drain_check, unbind_if_drain, begin_replay, finish_replay, check_cutoff,
  handle_replaying,
}

module _ (E : Env) (L : SoleWriter E) {Q : Stored → Type 0} where
  note_or_fail-InOrder :
      {p : Phase} (d now : ℕ) (x y : Bool) (t : Option ℕ)
      → Keeps (InOrder L Q p) (note_or_fail E d now x y t)
  unfolding note_or_fail
  note_or_fail-InOrder d now true y t = search call_rules
  note_or_fail-InOrder d now false false t = search call_rules
  note_or_fail-InOrder d now false true t = fail_with-InOrder E L _

  unbind_if_drain-InOrder :
      {p : Phase} (b : Bool) (q ex : String) → Keeps (InOrder L Q p) (unbind_if_drain E b q ex)
  unfolding unbind_if_drain
  unbind_if_drain-InOrder true q ex = search call_rules depth 12
  unbind_if_drain-InOrder false q ex = search call_rules

  begin_replay-InOrder : {p : Phase} → Keeps (InOrder L Q p) (begin_replay E)
  unfolding begin_replay
  begin_replay-InOrder = search (fail_rules, unbind_if_drain-InOrder, L) depth 15

  replay_drain_check-InOrder : {p : Phase} (d : ℕ) → Keeps (InOrder L Q p) (replay_drain_check E d)
  unfolding replay_drain_check
  replay_drain_check-InOrder d = search (call_rules, note_or_fail-InOrder, L) depth 15

  finish_replay-InOrder : Keeps (InOrder L Q Phase.replaying) (finish_replay E)
  unfolding finish_replay transition_phase
  finish_replay-InOrder = search (call_rules, inl, inr, L, end_phase-InOrder) depth 15

  check_cutoff-InOrder : Keeps (InOrder L Q Phase.replaying) (check_cutoff E)
  unfolding check_cutoff transition_phase
  check_cutoff-InOrder = search (fail_rules, inl, inr, L, end_phase-InOrder) depth 15

  pub handle_replaying-InOrder : Keeps (InOrder L Q Phase.replaying) (handle_replaying E)
  unfolding handle_replaying
  handle_replaying-InOrder =
      search
        (
          fail_rules, begin_replay-InOrder, replay_drain_check-InOrder, finish_replay-InOrder,
          check_cutoff-InOrder,
        )
        depth 15
