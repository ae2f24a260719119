-- ===== src/Controller/Settling/Finalizing.antt =====
-- Finalizing ends the call, unless the fuel of the swap's loop runs out.
use kubernetes_controller.Base.{
  ◌≡◌, refl, ◌⊎◌, inl, inr, zero, suc, ℕ, String, true, Option, none, some, arith, not, ◌||◌, ap,
  Bool-cases,
}
use kubernetes_controller.Api.{StatefulMigration, SwapSubPhase}
use kubernetes_controller.Cluster.{Env, Lookup, Lookup-cases, Pod, Deployment, StatefulSet}
use kubernetes_controller.Controller.Monad.{St, run, skip, return_with, ◌>>=◌}
use kubernetes_controller.Controller.Helpers.{Reply, SwapReply, error, stopped, has}
use kubernetes_controller.Controller.Reconcile.{ends_reconcile}
use kubernetes_controller.Controller.Settling.{Holds, any, Settles, settling_rules}
use kubernetes_controller.Controller.Settling.Calls.{settling_calls}
use kubernetes_controller.Controller.Swap.Identity.{identity_swap, ends_loop, refetch, swap_step}
use kubernetes_controller.Controller.Phases.Finalizing.{
  stamp_finalizing, tear_down_replay, after_swap, swap, delete_source, retire_source,
  pin_deployment, settle_deployment, disown, scale_back, hand_back, complete, handle_finalizing,
}

module _ (E : Env) where
  -- The state is the one in which the loop of the swap has spent its fuel.
  abbrev pub RunsOut : ℕ → St E.World → Type 0
  RunsOut fuel t = (s : St E.World) × (identity_swap E fuel s ≡ (none, t))

  pub record Ends (fuel : ℕ) (r : Option Reply) (s : St E.World) : Type 0 where
    pub ends_or_runs_out :
        ((x : Reply) × (r ≡ some x) × (ends_reconcile x ≡ true)) ⊎ (r ≡ none) × RunsOut fuel s

module _ (E : Env) where
  identity_swap-ends_loop :
      (fuel : ℕ) (s : St E.World) (r : SwapReply)
      → (identity_swap E fuel s).0 ≡ some r
      → ends_loop r ≡ true
  unfolding identity_swap refetch ends_loop
  identity_swap-ends_loop zero s r e = absurd (ground (arith, e))
  identity_swap-ends_loop (suc fuel) s r e =
      let s1 = (run (swap_step E s.m.status.swap_sub_phase) s).1 in
      let w = (E.get_migration s1.m.namespace s1.m.name s1.world).1 in
      elim (Lookup-cases (E.get_migration s1.m.namespace s1.m.name s1.world).0) [
        | inl (m, q) ↦
            ground (arith, e, q, identity_swap-ends_loop fuel (record s1 { m = m; world = w }) r)
        | inr (inl q) ↦ ground (arith, e, q)
        | inr (inr (x, q)) ↦ ground (arith, e, q)
      ]

  error-Ends : {fuel : ℕ} (e : String) (s : St E.World) → Ends E fuel (some (error e)) s
  unfolding ends_reconcile
  error-Ends e s = record { ends_or_runs_out = inl (error e, refl, refl) }

  stopped-Ends : {fuel : ℕ} (s : St E.World) → Ends E fuel (some stopped) s
  unfolding ends_reconcile
  stopped-Ends s = record { ends_or_runs_out = inl (stopped, refl, refl) }

  ran_out : (fuel : ℕ) (s t : St E.World) → identity_swap E fuel s ≡ (none, t) → Ends E fuel none t
  ran_out fuel s t q = record { ends_or_runs_out = inr (refl, (s, q)) }

  replied :
      (fuel : ℕ) (r : SwapReply) (t : St E.World)
      → ends_loop r ≡ true
      → (has r.error || not r.done) ≡ true
      → Ends E fuel (some (record { result = r.result; error = r.error })) t
  unfolding ends_loop ends_reconcile
  replied fuel r t e leaves = record {
    ends_or_runs_out =
        inl (record { result = r.result; error = r.error }, refl, ground (arith, e, leaves));
  }

  leave_swap :
      (fuel : ℕ) (r : Option SwapReply) (s t : St E.World)
      → identity_swap E fuel s ≡ (r, t)
      → Holds E (Ends E fuel) (any E) (after_swap E r t).0 (after_swap E r t).1
  unfolding after_swap skip return_with
  leave_swap fuel none s t q = ran_out fuel s t q
  leave_swap fuel (some r) s t q = elim (Bool-cases (has r.error || not r.done)) [
    | inl b ↦ rw b (replied fuel r t (identity_swap-ends_loop fuel s r (ap (λ x. x.0) q)) b)
    | inr b ↦ rw b tt
  ]

  -- A swap that is not done, or failed, ends the handler with a reply that ends the call.
  run_swap-Settles :
      (fuel : ℕ) → Settles E (Ends E fuel) (any E) (swap E fuel >>= (λ r. after_swap E r))
  unfolding swap ◌>>=◌
  run_swap-Settles fuel = record {
    at = λ s. leave_swap fuel (identity_swap E fuel s).0 s (identity_swap E fuel s).1 refl;
  }

  delete_source-Settles :
      {fuel : ℕ} (l : Lookup Pod) → Settles E (Ends E fuel) (any E) (delete_source E l)
  unfolding delete_source
  delete_source-Settles (Lookup.found x) = search (settling_rules, settling_calls) depth 12
  delete_source-Settles Lookup.not_found = search settling_rules
  delete_source-Settles (Lookup.failed e) = search (settling_rules, error-Ends)

  retire_source-Settles : (fuel : ℕ) → Settles E (Ends E fuel) (any E) (retire_source E fuel)
  unfolding retire_source
  retire_source-Settles fuel =
      search (settling_rules, settling_calls, run_swap-Settles, delete_source-Settles) depth 15

  stamp_finalizing-Settles : {fuel : ℕ} → Settles E (Ends E fuel) (any E) (stamp_finalizing E)
  unfolding stamp_finalizing
  stamp_finalizing-Settles = search (settling_rules, settling_calls) depth 12

  tear_down_replay-Settles :
      {fuel : ℕ} (x : SwapSubPhase) → Settles E (Ends E fuel) (any E) (tear_down_replay E x)
  unfolding tear_down_replay
  tear_down_replay-Settles SwapSubPhase.unset = search (settling_rules, settling_calls) depth 12
  tear_down_replay-Settles _ = search settling_rules

  pin_deployment-Settles :
      {fuel : ℕ} (l : Lookup Deployment) → Settles E (Ends E fuel) (any E) (pin_deployment E l)
  unfolding pin_deployment
  pin_deployment-Settles (Lookup.found x) = search (settling_rules, settling_calls) depth 12
  pin_deployment-Settles Lookup.not_found = search settling_rules
  pin_deployment-Settles (Lookup.failed e) = search (settling_rules, error-Ends)

  settle_deployment-Settles : {fuel : ℕ} → Settles E (Ends E fuel) (any E) (settle_deployment E)
  unfolding settle_deployment
  settle_deployment-Settles =
      search (settling_rules, settling_calls, pin_deployment-Settles) depth 12

  disown-Settles : {fuel : ℕ} (l : Lookup Pod) → Settles E (Ends E fuel) (any E) (disown E l)
  unfolding disown
  disown-Settles (Lookup.found x) = search (settling_rules, settling_calls) depth 12
  disown-Settles Lookup.not_found = search settling_rules
  disown-Settles (Lookup.failed e) = search (settling_rules, error-Ends)

  scale_back-Settles :
      {fuel : ℕ} (l : Lookup StatefulSet) → Settles E (Ends E fuel) (any E) (scale_back E l)
  unfolding scale_back
  scale_back-Settles (Lookup.found x) = search (settling_rules, settling_calls) depth 12
  scale_back-Settles Lookup.not_found = search settling_rules
  scale_back-Settles (Lookup.failed e) = search (settling_rules, error-Ends)

  hand_back-Settles : {fuel : ℕ} → Settles E (Ends E fuel) (any E) (hand_back E)
  unfolding hand_back
  hand_back-Settles =
      search (settling_rules, settling_calls, disown-Settles, scale_back-Settles) depth 15

  complete-Settles :
      {fuel : ℕ} (base : StatefulMigration)
      → Settles E (Ends E fuel) (Ends E fuel) (complete E base)
  unfolding complete
  complete-Settles base = search (settling_rules, settling_calls, error-Ends, stopped-Ends) depth 15

  pub handle_finalizing-Settles :
      (fuel : ℕ) → Settles E (Ends E fuel) (Ends E fuel) (handle_finalizing E fuel)
  unfolding handle_finalizing
  handle_finalizing-Settles fuel =
      search
        (
          settling_rules, settling_calls, stamp_finalizing-Settles, tear_down_replay-Settles,
          retire_source-Settles, settle_deployment-Settles, hand_back-Settles, complete-Settles,
        )
        depth 15
