-- ===== src/Controller/Reconcile.antt =====
-- `Reconcile`: the fetch of the migration, and the loop that chains its phases.
use kubernetes_controller.Base.{
  zero, suc, ℕ, String, Bool, true, false, not, Option, none, some, [], ◌||◌, ltb,
}
use kubernetes_controller.Api.{Phase}
use kubernetes_controller.Cluster.{Lookup, Env}
use kubernetes_controller.Controller.Monad.{St, run, Act, ◌>>=◌, migration}
use kubernetes_controller.Controller.Helpers.{Reply, stopped, error, has, transition_phase}
use kubernetes_controller.Controller.Phases.Pending.{handle_pending}
use kubernetes_controller.Controller.Phases.Checkpointing.{handle_checkpointing}
use kubernetes_controller.Controller.Phases.Transferring.{handle_transferring}
use kubernetes_controller.Controller.Phases.Restoring.{handle_restoring}
use kubernetes_controller.Controller.Phases.Replaying.{handle_replaying}
use kubernetes_controller.Controller.Phases.Finalizing.{handle_finalizing}

-- What one round of the loop comes to: a reply that ends the call, or one that is looked at.
pub data Round : Type 0 where
  final : Reply → Round
  reply : Reply → Round
  -- the fuel of the swap's loop ran out
  out_of_fuel : Round

abbrev pub to_round : Option Reply → Round
to_round none = out_of_fuel
to_round (some r) = reply r

abbrev map_round : {W : Type 0} → Reply × St W → Round × St W
map_round (r, s) = (reply r, s)

-- `err != nil || result.RequeueAfter > 0`, or no requeue.
unfoldable pub ends_reconcile : Reply → Bool
ends_reconcile r = has r.error || ltb 0 r.result.requeue_after || not r.result.requeue

-- `client.IgnoreNotFound`
abbrev ignore_not_found : {A : Type 0} → Lookup A → Reply
ignore_not_found (Lookup.failed e) = error e
ignore_not_found _ = stopped

module _ (E : Env) where
  -- The initial state moves to Pending, and ends the call with a requeue.
  unfoldable pub begin_migration : Act E.World Reply Reply
  unfolding transition_phase
  begin_migration = do base ← migration; transition_phase E base Phase.pending

  -- The `switch` on the phase.
  unfoldable pub handle : ℕ → Phase → St E.World → Round × St E.World
  unfolding begin_migration
  handle fuel Phase.unset s = let (r, s') = run begin_migration s in (final r, s')
  handle fuel Phase.pending s = map_round (run (handle_pending E) s)
  handle fuel Phase.checkpointing s = map_round (run (handle_checkpointing E) s)
  handle fuel Phase.transferring s = map_round (run (handle_transferring E) s)
  handle fuel Phase.restoring s = map_round (run (handle_restoring E) s)
  handle fuel Phase.replaying s = map_round (run (handle_replaying E) s)
  handle fuel Phase.finalizing s =
      let (r, s') = run (handle_finalizing E fuel) s in (to_round r, s')
  handle fuel Phase.completed s = (final stopped, s)
  handle fuel Phase.failed s = (final stopped, s)
  handle fuel (Phase.other p) s = (final stopped, s)

  -- The loop, on fuel for its own rounds and for those of the swap's loop; `none` means that one
  -- of them ran out.
  unfoldable pub phase_loop : ℕ → ℕ → St E.World → Option Reply × St E.World
  unfolding handle ends_reconcile
  phase_loop zero swap_fuel s = (none, s)
  phase_loop (suc fuel) swap_fuel s =
      let (r, s1) = handle swap_fuel s.m.status.phase s in
      elim r [
        | out_of_fuel ↦ (none, s1)
        | final x ↦ (some x, s1)
        | reply x ↦ elim (ends_reconcile x) [
          | true ↦ (some x, s1)
          | false ↦
              let (l, w) = E.get_migration s1.m.namespace s1.m.name s1.world in
              elim l [
                | Lookup.found m ↦ phase_loop fuel swap_fuel (record s1 { m = m; world = w })
                | Lookup.not_found ↦ (some stopped, record s1 { world = w })
                | Lookup.failed e ↦ (some (error e), record s1 { world = w })
              ]
        ]
      ]

  -- A call of `Reconcile` for a namespace and a name: `none` in the state's place if nothing was
  -- fetched.
  unfoldable reconcile : ℕ → ℕ → String → String → E.World → Option Reply × Option (St E.World)
  unfolding phase_loop
  reconcile fuel swap_fuel namespace name w =
      let (l, w') = E.get_migration namespace name w in
      elim l [
        | Lookup.found m ↦
            let (r, s) = phase_loop fuel swap_fuel (record { m = m; world = w'; calls = [] }) in
            (r, some s)
        | Lookup.not_found ↦ (some stopped, none)
        | Lookup.failed e ↦ (some (error e), none)
      ]
