-- ===== src/Controller/Settling/Loop.antt =====
-- The loop over the phases returns: nine rounds are enough.
use kubernetes_controller.Base.{
  ◌≡◌, refl, sym, ap, ◌∙◌, ◌⊎◌, inl, inr, zero, suc, ℕ, Bool-cases, ◌+◌, ◌≤◌, true, Option, none,
  some, arith,
}
use kubernetes_controller.Api.{Phase}
use kubernetes_controller.Cluster.{Env, Lookup-cases}
use kubernetes_controller.Controller.Monad.{St, Act, run}
use kubernetes_controller.Controller.Helpers.{Reply, stopped, error}
use kubernetes_controller.Controller.Reconcile.{
  Round, reply, final, out_of_fuel, handle, phase_loop, ends_reconcile, to_round,
}
use kubernetes_controller.Controller.PhaseOrder.{SoleWriter, next_phase}
use kubernetes_controller.Controller.PhaseOrder.Forward.{rank, rank_bound}
use kubernetes_controller.Controller.Settling.{Settles, Settles-run}
use kubernetes_controller.Controller.Settling.Advance.{Advances}
use kubernetes_controller.Controller.Settling.Early.{
  handle_pending-Settles, handle_checkpointing-Settles, handle_transferring-Settles,
}
use kubernetes_controller.Controller.Settling.Late.{
  handle_restoring-Settles, handle_replaying-Settles,
}
use kubernetes_controller.Controller.Phases.Finalizing.{handle_finalizing}
use kubernetes_controller.Controller.Settling.Finalizing.{RunsOut, Ends, handle_finalizing-Settles}

module _ (E : Env) (L : SoleWriter E) where
  -- What a round comes to: the end of the call, the end of the fuel, or a later phase.
  data Outcome (fuel : ℕ) (p : Phase) (s : St E.World) : Round → Type 0 where
    finished : (x : Reply) → Outcome fuel p s (final x)
    ended : (x : Reply) → ends_reconcile x ≡ true → Outcome fuel p s (reply x)
    ran_out : RunsOut E fuel s → Outcome fuel p s out_of_fuel
    advanced :
        (x : Reply) → rank (L.stored s.world).phase ≡ suc (rank p) → Outcome fuel p s (reply x)

  after :
      (fuel : ℕ) (p : Phase) (a : Act E.World Reply Reply)
      → rank (next_phase p) ≡ suc (rank p)
      → Settles E (Advances E L p) (Advances E L p) a
      → (s : St E.World) → Outcome fuel p (run a s).1 (reply (run a s).0)
  after fuel p a up h s = elim (Settles-run E (Advances E L p) a h s).ends_or_stores [
    | inl e ↦ Outcome.ended _ e
    | inr e ↦ Outcome.advanced _ (ap rank e ∙ up)
  ]

  of_Ends :
      (fuel : ℕ) (p : Phase) (r : Option Reply) (s : St E.World)
      → Ends E fuel r s
      → Outcome fuel p s (to_round r)
  of_Ends fuel p none s h = elim h.ends_or_runs_out [
    | inl (x, q, e) ↦ absurd (ground (arith, q))
    | inr (q, t) ↦ Outcome.ran_out t
  ]
  of_Ends fuel p (some r) s h = elim h.ends_or_runs_out [
    | inl (x, q, e) ↦ Outcome.ended r (ground (arith, q, e))
    | inr (q, t) ↦ absurd (ground (arith, q))
  ]

  handle-Outcome :
      (fuel : ℕ) (p : Phase) (s : St E.World)
      → Outcome fuel p (handle E fuel p s).1 (handle E fuel p s).0
  unfolding handle rank
  handle-Outcome fuel Phase.unset s = Outcome.finished _
  handle-Outcome fuel Phase.pending s =
      after fuel Phase.pending _ refl (handle_pending-Settles E L) s
  handle-Outcome fuel Phase.checkpointing s =
      after fuel Phase.checkpointing _ refl (handle_checkpointing-Settles E L) s
  handle-Outcome fuel Phase.transferring s =
      after fuel Phase.transferring _ refl (handle_transferring-Settles E L) s
  handle-Outcome fuel Phase.restoring s =
      after fuel Phase.restoring _ refl (handle_restoring-Settles E L) s
  handle-Outcome fuel Phase.replaying s =
      after fuel Phase.replaying _ refl (handle_replaying-Settles E L) s
  handle-Outcome fuel Phase.finalizing s =
      of_Ends fuel Phase.finalizing _ _ (
        Settles-run E (Ends E fuel) (handle_finalizing E fuel) (handle_finalizing-Settles E fuel) s)
  handle-Outcome fuel Phase.completed s = Outcome.finished _
  handle-Outcome fuel Phase.failed s = Outcome.finished _
  handle-Outcome fuel (Phase.other x) s = Outcome.finished _

  Outcome-cases :
      {fuel : ℕ} {p : Phase} {s : St E.World} (r : Round)
      → Outcome fuel p s r
      → ((x : Reply) × (r ≡ final x))
        ⊎ ((x : Reply) × (r ≡ reply x) × (ends_reconcile x ≡ true))
        ⊎ (r ≡ out_of_fuel) × RunsOut E fuel s
        ⊎ ((x : Reply) × (r ≡ reply x) × (rank (L.stored s.world).phase ≡ suc (rank p)))
  Outcome-cases r (Outcome.finished x) = inl (x, refl)
  Outcome-cases r (Outcome.ended x e) = inr (inl (x, refl, e))
  Outcome-cases r (Outcome.ran_out t) = inr (inr (inl (refl, t)))
  Outcome-cases r (Outcome.advanced x e) = inr (inr (inr (x, refl, e)))

  -- Where nobody else writes the phase and every read finds what the API server stores: from a
  -- state that was read so, nine rounds are enough for the reconciler to reply, and one less for each
  -- phase that has passed. Otherwise it ends in a state in which the loop of the identity swap has
  -- spent its own fuel.
  pub phase_loop_returns :
      (fuel swap_fuel : ℕ) (s : St E.World)
      → s.m.status.phase ≡ (L.stored s.world).phase
      → 9 ≤ fuel + rank s.m.status.phase
      → let (r, t) = phase_loop E fuel swap_fuel s in
        ((x : Reply) × (r ≡ some x)) ⊎ (r ≡ none) × RunsOut E swap_fuel t
  unfolding phase_loop
  phase_loop_returns zero swap_fuel s e h = absurd (omega (arith, h, rank_bound s.m.status.phase))
  phase_loop_returns (suc fuel) swap_fuel s e h =
      let p = s.m.status.phase in
      let (r, s1) = handle E swap_fuel p s in
      elim (Outcome-cases r (handle-Outcome swap_fuel p s)) [
        | inl (x, q) ↦ inl (x, ground (arith, q))
        | inr (inl (x, q, ends)) ↦ inl (x, ground (arith, q, ends))
        | inr (inr (inl (q, t))) ↦
            let here : phase_loop E (suc fuel) swap_fuel s ≡ (none, s1) = ground (arith, q) in
            rw here (inr (refl, t))
        | inr (inr (inr (x, q, up))) ↦ elim (Bool-cases (ends_reconcile x)) [
          | inl ends ↦ inl (x, ground (arith, q, ends))
          | inr goes_on ↦
              elim (Lookup-cases (E.get_migration s1.m.namespace s1.m.name s1.world).0) [
                | inl (m, found) ↦
                    let w = (E.get_migration s1.m.namespace s1.m.name s1.world).1 in
                    let fresh = (L.get_reads s1.m.namespace s1.m.name s1.world found).0 in
                    let kept = L.get_migration_leaves s1.m.namespace s1.m.name s1.world in
                    let s2 : St E.World = record s1 { m = m; world = w } in
                    let on : phase_loop E (suc fuel) swap_fuel s ≡ phase_loop E fuel swap_fuel s2 =
                      ground (arith, q, goes_on, found) in
                    rw on (
                      phase_loop_returns fuel swap_fuel s2 (fresh ∙ ap (λ y. y.phase) (sym kept))
                        (omega (arith, h, up, ap rank fresh)))
                | inr (inl gone) ↦ inl (stopped, ground (arith, q, goes_on, gone))
                | inr (inr (y, failed)) ↦ inl (error y, ground (arith, q, goes_on, failed))
              ]
        ]
      ]
