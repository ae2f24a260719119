-- ===== src/Controller/Routing/Cutover.antt =====
-- The cutover of a fence: the primary queue is bound again before the buffer is taken off.
use kubernetes_controller.Base.{
  ◌≡◌, ◌≢◌, String, ℕ, Bool, true, false, Always, none, ◌<>◌, arith, ◌⊎◌, inl, inr, Option-cases,
}
use kubernetes_controller.Api.{StatefulMigration, fence_buffer, replay_queue}
use kubernetes_controller.Messaging.{ControlMessageType, Payload}
use kubernetes_controller.Cluster.{Env, Lookup, StatefulSet, Pod}
use kubernetes_controller.Controller.Monad.{
  St, Act, next, return, ◌>>=◌, ◌>>◌, migration, modify, skip, run,
}
use kubernetes_controller.Controller.Keeps.{Keeps, keeps_rules}
use kubernetes_controller.Controller.Helpers.{SwapReply, swap_error}
use kubernetes_controller.Controller.Calls.{bind_queue, unbind_queue, succeeded}
use kubernetes_controller.Controller.Calls
use kubernetes_controller.Controller.Swap.Cutover.{
  scale_up, scale_up_if_found, delete_now, begin_buffer_drain, await_buffer, restore_primary,
  clean_up, drain_and_clean_up, fence_cutover,
}
use kubernetes_controller.Controller.Routing.{effect_on, is_bound, IsRouted}
use kubernetes_controller.Controller.Routing.Names.{names}

-- Every moment so far is routed, and now the primary queue is bound.
pub record Restored {W : Type 0} (p ex : String) (start : Bool) (s : St W) : Type 0 where
  pub primary : is_bound p ex start s.calls ≡ true
  pub always : Always (IsRouted p ex start) s.calls

module _ (E : Env) (p ex : String) (start : Bool) where
  get_queue_stats-Restored :
      (q : String) → Keeps {R = SwapReply} (Restored p ex start) (Calls.get_queue_stats E q)
  unfolding Calls.get_queue_stats
  get_queue_stats-Restored q = record { at = λ s h. ground (arith, h.primary, h.always) }

  get_stateful_set-Restored :
      (n x : String) → Keeps {R = SwapReply} (Restored p ex start) (Calls.get_stateful_set E n x)
  unfolding Calls.get_stateful_set
  get_stateful_set-Restored n x = record { at = λ s h. ground (arith, h.primary, h.always) }

  time_now-Restored : Keeps {R = SwapReply} (Restored p ex start) (Calls.time_now E)
  unfolding Calls.time_now
  time_now-Restored = record { at = λ s h. ground (arith, h.primary, h.always) }

  modify-Restored :
      (f : StatefulMigration → StatefulMigration)
      → Keeps {W = E.World} {R = SwapReply} (Restored p ex start) (modify f)
  unfolding modify
  modify-Restored f = record { at = λ s h. ground (arith, h.primary, h.always) }

  send_control_message-Restored :
      (pod : String) (t : ControlMessageType) (pl : Payload)
      → Keeps {R = SwapReply} (Restored p ex start) (Calls.send_control_message E pod t pl)
  unfolding Calls.send_control_message is_bound effect_on
  send_control_message-Restored pod t pl = record {
    at = λ s h. ground (arith, h.primary, h.always);
  }

  patch_status-Restored :
      (b : StatefulMigration) → Keeps {R = SwapReply} (Restored p ex start) (Calls.patch_status E b)
  unfolding Calls.patch_status is_bound effect_on
  patch_status-Restored b = record { at = λ s h. ground (arith, h.primary, h.always) }

  patch_stateful_set-Restored :
      (b x : StatefulSet)
      → Keeps {R = SwapReply} (Restored p ex start) (Calls.patch_stateful_set E b x)
  unfolding Calls.patch_stateful_set is_bound effect_on
  patch_stateful_set-Restored b x = record { at = λ s h. ground (arith, h.primary, h.always) }

  delete_secondary_queue-Restored :
      Keeps {R = SwapReply}
        (Restored p ex start)
        (Calls.delete_secondary_queue E (replay_queue p) p ex)
  unfolding Calls.delete_secondary_queue is_bound effect_on
  delete_secondary_queue-Restored = record {
    at = λ s h. ground (arith, h.primary, h.always, names p ex);
  }

  delete_buffer-Restored :
      Keeps {R = SwapReply} (Restored p ex start) (Calls.delete_queue E (fence_buffer p))
  unfolding Calls.delete_queue is_bound effect_on
  delete_buffer-Restored = record { at = λ s h. ground (arith, h.primary, h.always, names p ex) }

ruleset restored_rules = (
  keeps_rules, get_queue_stats-Restored, get_stateful_set-Restored, time_now-Restored,
  modify-Restored, send_control_message-Restored, patch_status-Restored,
  patch_stateful_set-Restored, delete_secondary_queue-Restored, delete_buffer-Restored,
)

module _ (E : Env) (p ex : String) (start : Bool) where
  scale_up_if_found-Restored :
      (n : ℕ) (l : Lookup StatefulSet) → Keeps (Restored p ex start) (scale_up_if_found E n l)
  unfolding scale_up_if_found scale_up
  scale_up_if_found-Restored n (Lookup.found x) = search restored_rules depth 12
  scale_up_if_found-Restored n Lookup.not_found = search keeps_rules
  scale_up_if_found-Restored n (Lookup.failed e) = search keeps_rules

  clean_up-Restored : Keeps (Restored p ex start) (clean_up E p ex)
  unfolding clean_up
  clean_up-Restored = search (restored_rules, scale_up_if_found-Restored) depth 20

  await_buffer-Restored : (n : ℕ) → Keeps (Restored p ex start) (await_buffer E (fence_buffer p) n)
  unfolding await_buffer begin_buffer_drain
  await_buffer-Restored n = search restored_rules depth 20

  drain_and_clean_up-Restored : Keeps (Restored p ex start) (drain_and_clean_up E p ex)
  unfolding drain_and_clean_up
  drain_and_clean_up-Restored =
      search (restored_rules, await_buffer-Restored, clean_up-Restored) depth 20

  -- The primary queue is bound again, or the handler ends with an error and the buffer stays.
  restore_primary-Restored :
      (s : St E.World)
      → is_bound (fence_buffer p) ex false s.calls ≡ true
      → Always (IsRouted p ex start) s.calls
      → ((restore_primary E p ex s).0 ≡ next tt) × Restored p ex start (restore_primary E p ex s).1
        ⊎ ((r : SwapReply) × ((restore_primary E p ex s).0 ≡ return r) × (r.error ≢ none))
          × Always (IsRouted p ex start) (restore_primary E p ex s).1.calls
  unfolding restore_primary ◌>>=◌ skip bind_queue unbind_queue is_bound effect_on
  restore_primary-Restored s bound before =
      elim (Option-cases (E.broker.bind_queue p ex "" s.world).0) [
        | inl q ↦ inl (ground (arith, bound, before, q, names p ex))
        | inr (e, q) ↦ inr (
          (swap_error ("rebind primary queue: " <> e), ground (arith, q), λ x. cc),
          ground (arith, bound, before, q, names p ex),
        )
      ]

  -- The handler from the rebind on.
  from_restore :
      (rest : Act E.World SwapReply SwapReply) (s : St E.World)
      → Keeps (Restored p ex start) rest
      → is_bound (fence_buffer p) ex false s.calls ≡ true
      → Always (IsRouted p ex start) s.calls
      → let (r, s') = run (restore_primary E p ex >> rest) s in
        Always (IsRouted p ex start) s'.calls
        × ((r.error ≢ none) ⊎ (is_bound p ex start s'.calls ≡ true))
  unfolding ◌>>=◌
  from_restore rest s k bound before =
      let s1 = (restore_primary E p ex s).1 in
      elim (restore_primary-Restored s bound before) [
        | inl (q, h) ↦ ground (arith, q, (k.at s1 h).primary, (k.at s1 h).always)
        | inr ((r, q, e), h) ↦ ground (arith, q, e, h)
      ]

module _ (E : Env) (start : Bool) where
  delete_now-IsRouted :
      (p ex : String) (l : Lookup Pod) (s : St E.World)
      → is_bound (fence_buffer p) ex false s.calls ≡ true
      → Always (IsRouted p ex start) s.calls
      → ((delete_now E l s).0 ≡ next tt)
        × (is_bound (fence_buffer p) ex false (delete_now E l s).1.calls ≡ true)
        × Always (IsRouted p ex start) (delete_now E l s).1.calls
  unfolding delete_now ◌>>=◌ skip Calls.delete_pod is_bound effect_on
  delete_now-IsRouted p ex (Lookup.found x) s bound before = ground (arith, bound, before)
  delete_now-IsRouted p ex Lookup.not_found s bound before = ground (arith, bound, before)
  delete_now-IsRouted p ex (Lookup.failed e) s bound before = ground (arith, bound, before)

  -- If the buffer is bound when the cutover begins, then after each of its calls a published message
  -- goes to the primary queue or to the buffer, and at the end the primary queue is bound, or the
  -- cutover returns an error.
  pub fence_cutover-IsRouted :
      (s : St E.World)
      → let p = s.m.spec.message_queue_config.queue_name in
        let ex = s.m.spec.message_queue_config.exchange_name in
        is_bound (fence_buffer p) ex false s.calls ≡ true
        → Always (IsRouted p ex start) s.calls
        → let (r, s') = run (fence_cutover E) s in
          Always (IsRouted p ex start) s'.calls
          × ((r.error ≢ none) ⊎ (is_bound p ex start s'.calls ≡ true))
  unfolding fence_cutover ◌>>=◌ migration Calls.get_pod
  fence_cutover-IsRouted s bound before =
      let p = s.m.spec.message_queue_config.queue_name in
      let ex = s.m.spec.message_queue_config.exchange_name in
      let (l, w) = E.get_pod s.m.namespace s.m.status.target_pod s.world in
      let s1 = record s { world = w } in
      let d = delete_now-IsRouted p ex l s1 bound before in
      ground (
        arith,
        d.0,
        from_restore E p ex start (drain_and_clean_up E p ex) (delete_now E l s1).1
            (drain_and_clean_up-Restored E p ex start) d.1 d.2,
      )
