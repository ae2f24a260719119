-- ===== src/Controller/Tracking/Calls.antt =====
-- Each call of the fence keeps the log and the broker together.
use kubernetes_controller.Base.{String, ℕ, Bool, Option}
use kubernetes_controller.Api.{StatefulMigration}
use kubernetes_controller.Messaging.{ControlMessageType, Payload}
use kubernetes_controller.Messaging.Rabbitmq.{Amqp}
use kubernetes_controller.Messaging.Rabbitmq.Laws.{BindsAsDocumented}
use kubernetes_controller.Cluster.{Env, Pod, StatefulSet}
use kubernetes_controller.Controller.Monad.{modify}
use kubernetes_controller.Controller.Keeps.{Keeps, keeps_rules}
use kubernetes_controller.Controller.Calls
use kubernetes_controller.Controller.Routing.{is_bound, effect_on}
use kubernetes_controller.Controller.Tracking.{LeavesBindings, RunsOn, Tracks}
use kubernetes_controller.Controller.Tracking.Client.{
  bind_queue-Sound, unbind_queue-Sound, delete_queue-Sound, declare_and_bind_queue-Sound,
  delete_secondary_queue-Sound, get_queue_depth-Sound, get_queue_stats-Sound,
  send_control_message-Sound,
}

-- The broker under the client, with the bindings that it is observed by.
pub record Bindings (A : Amqp) : Type 0 where
  pub bound : A.Broker → String → String → Bool
  pub binds : BindsAsDocumented A bound
  pub keeps : LeavesBindings A bound

module _ (E : Env) (A : Amqp) (T : RunsOn E A) (B : Bindings A) {R : Type 0} {q ex : String}
    {start : Bool} where
  pub bind_queue-Tracks :
      (j x : String) → Keeps {R = R} (Tracks T B.bound q ex start) (Calls.bind_queue E j x)
  unfolding Calls.bind_queue is_bound
  bind_queue-Tracks j x = record {
    at = λ s h.
        let c = T.client s.world in
        let old = is_bound q ex start s.calls in
        let step = bind_queue-Sound A B.bound B.binds B.keeps q ex c old h.sound j x "" in
        let (answer, after) = T.bind_queue j x "" s.world in
        record { sound = rw (answer, after) step };
  }

  pub unbind_queue-Tracks :
      (j x : String) → Keeps {R = R} (Tracks T B.bound q ex start) (Calls.unbind_queue E j x)
  unfolding Calls.unbind_queue is_bound
  unbind_queue-Tracks j x = record {
    at = λ s h.
        let c = T.client s.world in
        let old = is_bound q ex start s.calls in
        let step = unbind_queue-Sound A B.bound B.binds B.keeps q ex c old h.sound j x in
        let (answer, after) = T.unbind_queue j x s.world in
        record { sound = rw (answer, after) step };
  }

  pub declare_and_bind_queue-Tracks :
      (j x : String)
      → Keeps {R = R} (Tracks T B.bound q ex start) (Calls.declare_and_bind_queue E j x)
  unfolding Calls.declare_and_bind_queue is_bound
  declare_and_bind_queue-Tracks j x = record {
    at = λ s h.
        let c = T.client s.world in
        let old = is_bound q ex start s.calls in
        let step = declare_and_bind_queue-Sound A B.bound B.binds B.keeps q ex c old h.sound j x in
        let (answer, after) = T.declare_and_bind_queue j x s.world in
        record { sound = rw (answer, after) step };
  }

  pub delete_queue-Tracks :
      (j : String) → Keeps {R = R} (Tracks T B.bound q ex start) (Calls.delete_queue E j)
  unfolding Calls.delete_queue is_bound
  delete_queue-Tracks j = record {
    at = λ s h.
        let c = T.client s.world in
        let old = is_bound q ex start s.calls in
        let step = delete_queue-Sound A B.bound B.binds B.keeps q ex c old h.sound j in
        let (answer, after) = T.delete_queue j s.world in
        record { sound = rw (answer, after) step };
  }

  pub delete_secondary_queue-Tracks :
      (j p x : String)
      → Keeps {R = R} (Tracks T B.bound q ex start) (Calls.delete_secondary_queue E j p x)
  unfolding Calls.delete_secondary_queue is_bound
  delete_secondary_queue-Tracks j p x = record {
    at = λ s h.
        let c = T.client s.world in
        let old = is_bound q ex start s.calls in
        let step =
          delete_secondary_queue-Sound A B.bound B.binds B.keeps q ex c old h.sound j p x in
        let (answer, after) = T.delete_secondary_queue j p x s.world in
        record { sound = rw (answer, after) step };
  }

  pub get_queue_depth-Tracks :
      (j : String) → Keeps {R = R} (Tracks T B.bound q ex start) (Calls.get_queue_depth E j)
  unfolding Calls.get_queue_depth
  get_queue_depth-Tracks j = record {
    at = λ s h.
        let c = T.client s.world in
        let old = is_bound q ex start s.calls in
        let step = get_queue_depth-Sound A B.bound B.binds B.keeps q ex c old h.sound j in
        record { sound = rw (T.get_queue_depth j s.world).1 step };
  }

  pub get_queue_stats-Tracks :
      (j : String) → Keeps {R = R} (Tracks T B.bound q ex start) (Calls.get_queue_stats E j)
  unfolding Calls.get_queue_stats
  get_queue_stats-Tracks j = record {
    at = λ s h.
        let c = T.client s.world in
        let old = is_bound q ex start s.calls in
        let step = get_queue_stats-Sound A B.bound B.binds B.keeps q ex c old h.sound j in
        record { sound = rw (T.get_queue_stats j s.world).1 step };
  }

  pub send_control_message-Tracks :
      (j : String) (t : ControlMessageType) (pl : Payload)
      → Keeps {R = R} (Tracks T B.bound q ex start) (Calls.send_control_message E j t pl)
  unfolding Calls.send_control_message is_bound effect_on
  send_control_message-Tracks j t pl = record {
    at = λ s h.
        let c = T.client s.world in
        let old = is_bound q ex start s.calls in
        let step = send_control_message-Sound A B.bound B.binds B.keeps q ex c old h.sound j t pl in
        record { sound = rw (T.send_control_message j t pl s.world).1 step };
  }

  pub get_pod-Tracks :
      (ns n : String) → Keeps {R = R} (Tracks T B.bound q ex start) (Calls.get_pod E ns n)
  unfolding Calls.get_pod
  get_pod-Tracks ns n = record {
    at = λ s h. record { sound = rw (T.get_pod ns n s.world) h.sound };
  }

  pub delete_pod-Tracks :
      (x : Pod) (g : Option ℕ)
      → Keeps {R = R} (Tracks T B.bound q ex start) (Calls.delete_pod E x g)
  unfolding Calls.delete_pod is_bound effect_on
  delete_pod-Tracks x g = record {
    at = λ s h. record { sound = rw (T.delete_pod x g s.world) h.sound };
  }

  pub get_stateful_set-Tracks :
      (ns n : String) → Keeps {R = R} (Tracks T B.bound q ex start) (Calls.get_stateful_set E ns n)
  unfolding Calls.get_stateful_set
  get_stateful_set-Tracks ns n = record {
    at = λ s h. record { sound = rw (T.get_stateful_set ns n s.world) h.sound };
  }

  pub patch_stateful_set-Tracks :
      (b x : StatefulSet)
      → Keeps {R = R} (Tracks T B.bound q ex start) (Calls.patch_stateful_set E b x)
  unfolding Calls.patch_stateful_set is_bound effect_on
  patch_stateful_set-Tracks b x = record {
    at = λ s h. record { sound = rw (T.patch_stateful_set b x s.world) h.sound };
  }

  pub patch_status-Tracks :
      (b : StatefulMigration) → Keeps {R = R} (Tracks T B.bound q ex start) (Calls.patch_status E b)
  unfolding Calls.patch_status is_bound effect_on
  patch_status-Tracks b = record {
    at = λ s h. record { sound = rw (T.patch_status b s.m s.world) h.sound };
  }

  pub time_now-Tracks : Keeps {R = R} (Tracks T B.bound q ex start) (Calls.time_now E)
  unfolding Calls.time_now
  time_now-Tracks = record { at = λ s h. h }

  pub modify-Tracks :
      (f : StatefulMigration → StatefulMigration)
      → Keeps {R = R} (Tracks T B.bound q ex start) (modify f)
  unfolding modify
  modify-Tracks f = record { at = λ s h. record { sound = h.sound } }

pub ruleset track_rules = (
  keeps_rules, bind_queue-Tracks, unbind_queue-Tracks, declare_and_bind_queue-Tracks,
  delete_queue-Tracks, delete_secondary_queue-Tracks, get_queue_depth-Tracks,
  get_queue_stats-Tracks, send_control_message-Tracks, get_pod-Tracks, delete_pod-Tracks,
  get_stateful_set-Tracks, patch_stateful_set-Tracks, patch_status-Tracks, time_now-Tracks,
  modify-Tracks,
)
