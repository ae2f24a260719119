-- ===== src/Controller/Tracking/Fencing.antt =====
-- The fence's handlers, whose log of calls the broker keeps up with: the routing of the messages is
-- real.
use kubernetes_controller.Base.{
  String, ℕ, Bool, true, false, ◌≡◌, ◌≢◌, ◌⊎◌, inl, inr, none, arith, Bool-cases, Always, List, [],
  ◌∷◌,
}
use kubernetes_controller.Api.{StatefulMigration, fence_buffer}
use kubernetes_controller.Messaging.Rabbitmq.{Amqp}
use kubernetes_controller.Cluster.{Env, Lookup, Pod, StatefulSet}
use kubernetes_controller.Controller.Monad.{St, run, Call}
use kubernetes_controller.Controller.Keeps.{Keeps, keeps_rules}
use kubernetes_controller.Controller.Helpers.{advance}
use kubernetes_controller.Controller.Swap.Fence.{apply_fence, exchange_fence}
use kubernetes_controller.Controller.Swap.Rollback.{restore_routing, fence_rollback}
use kubernetes_controller.Controller.Swap.Cutover.{
  scale_up, scale_up_if_found, delete_now, begin_buffer_drain, await_buffer, restore_primary,
  clean_up, drain_and_clean_up, fence_cutover,
}
use kubernetes_controller.Controller.Routing.{is_bound, IsRouted}
use kubernetes_controller.Controller.Routing.Fence.{exchange_fence-IsRouted}
use kubernetes_controller.Controller.Routing.Cutover.{fence_cutover-IsRouted}
use kubernetes_controller.Controller.Tracking.{RunsOn, Tracks}
use kubernetes_controller.Controller.Tracking.Calls.{Bindings, track_rules}

now : (P : List Call → Type 0) (calls : List Call) → Always P calls → P calls
now P [] h = h
now P (c ∷ cs) h = h.0

module _ (E : Env) (A : Amqp) (T : RunsOn E A) (B : Bindings A) {q ex : String} {start : Bool} where
  advance-Tracks : (b : StatefulMigration) → Keeps (Tracks T B.bound q ex start) (advance E b)
  unfolding advance
  advance-Tracks b = search (track_rules, T, B) depth 12

  exchange_fence-Tracks : Keeps (Tracks T B.bound q ex start) (exchange_fence E)
  unfolding exchange_fence apply_fence
  exchange_fence-Tracks = search (track_rules, advance-Tracks, T, B) depth 20

  fence_rollback-Tracks : Keeps (Tracks T B.bound q ex start) (fence_rollback E)
  unfolding fence_rollback restore_routing
  fence_rollback-Tracks = search (track_rules, advance-Tracks, T, B) depth 20

  scale_up_if_found-Tracks :
      (n : ℕ) (l : Lookup StatefulSet)
      → Keeps (Tracks T B.bound q ex start) (scale_up_if_found E n l)
  unfolding scale_up_if_found scale_up
  scale_up_if_found-Tracks n (Lookup.found x) = search (track_rules, T, B) depth 12
  scale_up_if_found-Tracks n Lookup.not_found = search keeps_rules
  scale_up_if_found-Tracks n (Lookup.failed e) = search keeps_rules

  delete_now-Tracks : (l : Lookup Pod) → Keeps (Tracks T B.bound q ex start) (delete_now E l)
  unfolding delete_now
  delete_now-Tracks (Lookup.found x) = search (track_rules, T, B) depth 12
  delete_now-Tracks Lookup.not_found = search keeps_rules
  delete_now-Tracks (Lookup.failed e) = search keeps_rules

  await_buffer-Tracks :
      (j : String) (n : ℕ) → Keeps (Tracks T B.bound q ex start) (await_buffer E j n)
  unfolding await_buffer begin_buffer_drain
  await_buffer-Tracks j n = search (track_rules, T, B) depth 20

  clean_up-Tracks : (j x : String) → Keeps (Tracks T B.bound q ex start) (clean_up E j x)
  unfolding clean_up
  clean_up-Tracks j x = search (track_rules, scale_up_if_found-Tracks, T, B) depth 20

  fence_cutover-Tracks : Keeps (Tracks T B.bound q ex start) (fence_cutover E)
  unfolding fence_cutover restore_primary drain_and_clean_up
  fence_cutover-Tracks =
      search (track_rules, delete_now-Tracks, await_buffer-Tracks, clean_up-Tracks, T, B) depth 20

module _ (E : Env) (A : Amqp) (T : RunsOn E A) (B : Bindings A) where
  -- The broker keeps up with the log for the two queues that may take a message.
  pub record Follows (p ex : String) (start : Bool) (s : St E.World) : Type 0 where
    pub primary : Tracks T B.bound p ex start s
    pub buffer : Tracks T B.bound (fence_buffer p) ex false s

  -- In the broker, a message that is published reaches the primary queue or the buffer.
  abbrev pub Reaches : String → String → St E.World → Type 0
  Reaches p ex s =
      let b = (T.client s.world).broker in
      (B.bound b p ex ≡ true) ⊎ (B.bound b (fence_buffer p) ex ≡ true)

  routed-Reaches :
      (p ex : String) (start : Bool) (s : St E.World)
      → Follows p ex start s
      → IsRouted p ex start s.calls
      → Reaches p ex s
  routed-Reaches p ex start s f routed = elim (Bool-cases (is_bound p ex start s.calls)) [
    | inl bound ↦ inl (f.primary.sound bound)
    | inr unbound ↦ inr (f.buffer.sound (ground (arith, routed, unbound)))
  ]

  -- With the RabbitMQ client behind the controller, and an AMQP broker that binds and unbinds as
  -- documented: if the log counts the primary queue as bound when the fence begins, and every earlier
  -- moment as routed, then after the fence, errors included, the broker has the primary queue or the
  -- buffer bound to the exchange.
  pub exchange_fence_delivers :
      (s : St E.World) (start : Bool)
      → let p = s.m.spec.message_queue_config.queue_name in
        let ex = s.m.spec.message_queue_config.exchange_name in
        Follows p ex start s
        → is_bound p ex start s.calls ≡ true
        → Always (IsRouted p ex start) s.calls
        → Reaches p ex (exchange_fence E s).1
  exchange_fence_delivers s start f bound before =
      let p = s.m.spec.message_queue_config.queue_name in
      let ex = s.m.spec.message_queue_config.exchange_name in
      let after : Follows p ex start (exchange_fence E s).1 = record {
        primary = (exchange_fence-Tracks E A T B).at s f.primary;
        buffer = (exchange_fence-Tracks E A T B).at s f.buffer;
      } in
      routed-Reaches p ex start (exchange_fence E s).1 after (
        now (IsRouted p ex start) (exchange_fence E s).1.calls
          (exchange_fence-IsRouted E s start bound before))

  -- With the RabbitMQ client behind the controller, and an AMQP broker that binds and unbinds as
  -- documented: if the log counts the buffer as bound when the cutover begins, and every earlier moment
  -- as routed, then after the cutover, errors included, the broker has the primary queue or the buffer
  -- bound to the exchange; it has the primary queue, or the cutover returns an error.
  pub fence_cutover_delivers :
      (s : St E.World) (start : Bool)
      → let p = s.m.spec.message_queue_config.queue_name in
        let ex = s.m.spec.message_queue_config.exchange_name in
        Follows p ex start s
        → is_bound (fence_buffer p) ex false s.calls ≡ true
        → Always (IsRouted p ex start) s.calls
        → let (r, s') = run (fence_cutover E) s in
          Reaches p ex s' × ((r.error ≢ none) ⊎ (B.bound (T.client s'.world).broker p ex ≡ true))
  fence_cutover_delivers s start f bound before =
      let p = s.m.spec.message_queue_config.queue_name in
      let ex = s.m.spec.message_queue_config.exchange_name in
      let (r, s') = run (fence_cutover E) s in
      let after : Follows p ex start s' = record {
        primary = (fence_cutover-Tracks E A T B).at s f.primary;
        buffer = (fence_cutover-Tracks E A T B).at s f.buffer;
      } in
      let (routed, last) = fence_cutover-IsRouted E start s bound before in
      (
        routed-Reaches p ex start s' after (now (IsRouted p ex start) s'.calls routed),
        elim last [ inl failed ↦ inl failed | inr primary ↦ inr (after.primary.sound primary) ],
      )
