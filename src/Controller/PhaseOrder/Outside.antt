-- ===== src/Controller/PhaseOrder/Outside.antt =====
-- The calls of the clock, the broker, the kubelet and the agent keep the order of the phases.

use kubernetes_controller.Base.{◌≡◌, some, String}
use kubernetes_controller.Messaging.{ControlMessageType, Payload}
use kubernetes_controller.Cluster.{Env, KubeletClient}
use kubernetes_controller.Controller.Calls
use kubernetes_controller.Controller.Keeps.{Keeps}
use kubernetes_controller.Controller.PhaseOrder.{Stored, SoleWriter, Within}
use kubernetes_controller.Controller.PhaseOrder.Noted.{noted-Within, asked-Within}

module _ (E : Env) (L : SoleWriter E) {H Q : Stored → Type 0} {R : Type 0} where
  pub time_now-Within : Keeps (Within L H Q) (Calls.time_now E {R = R})
  unfolding Calls.time_now
  time_now-Within = record { at = λ s h. h }

  pub connect-Within : (url : String) → Keeps (Within L H Q) (Calls.connect E {R = R} url)
  unfolding Calls.connect
  connect-Within url = record {
    at = λ s h. noted-Within E L _ _ s (L.connect_leaves url s.world) tt h;
  }

  pub close-Within : Keeps (Within L H Q) (Calls.close E {R = R})
  unfolding Calls.close
  close-Within = record { at = λ s h. noted-Within E L _ _ s (L.close_leaves s.world) tt h }

  pub create_secondary_queue-Within :
      (q ex key : String) → Keeps (Within L H Q) (Calls.create_secondary_queue E {R = R} q ex key)
  unfolding Calls.create_secondary_queue
  create_secondary_queue-Within q ex key = record {
    at = λ s h. noted-Within E L _ _ s (L.create_secondary_queue_leaves q ex key s.world) tt h;
  }

  pub unbind_queue-Within :
      (q ex : String) → Keeps (Within L H Q) (Calls.unbind_queue E {R = R} q ex)
  unfolding Calls.unbind_queue
  unbind_queue-Within q ex = record {
    at = λ s h. noted-Within E L _ _ s (L.unbind_queue_leaves q ex s.world) tt h;
  }

  pub delete_secondary_queue-Within :
      (q p' ex : String) → Keeps (Within L H Q) (Calls.delete_secondary_queue E {R = R} q p' ex)
  unfolding Calls.delete_secondary_queue
  delete_secondary_queue-Within q p' ex = record {
    at = λ s h. noted-Within E L _ _ s (L.delete_secondary_queue_leaves q p' ex s.world) tt h;
  }

  pub get_queue_depth-Within :
      (q : String) → Keeps (Within L H Q) (Calls.get_queue_depth E {R = R} q)
  unfolding Calls.get_queue_depth
  get_queue_depth-Within q = record {
    at = λ s h. asked-Within E L _ s (L.get_queue_depth_leaves q s.world) h;
  }

  pub get_queue_stats-Within :
      (q : String) → Keeps (Within L H Q) (Calls.get_queue_stats E {R = R} q)
  unfolding Calls.get_queue_stats
  get_queue_stats-Within q = record {
    at = λ s h. asked-Within E L _ s (L.get_queue_stats_leaves q s.world) h;
  }

  pub send_control_message-Within :
      (pod : String) (t : ControlMessageType) (pl : Payload)
      → Keeps (Within L H Q) (Calls.send_control_message E {R = R} pod t pl)
  unfolding Calls.send_control_message
  send_control_message-Within pod t pl = record {
    at = λ s h. noted-Within E L _ _ s (L.send_control_message_leaves pod t pl s.world) tt h;
  }

  pub bind_queue-Within : (q ex : String) → Keeps (Within L H Q) (Calls.bind_queue E {R = R} q ex)
  unfolding Calls.bind_queue
  bind_queue-Within q ex = record {
    at = λ s h. noted-Within E L _ _ s (L.bind_queue_leaves q ex "" s.world) tt h;
  }

  pub declare_and_bind_queue-Within :
      (q ex : String) → Keeps (Within L H Q) (Calls.declare_and_bind_queue E {R = R} q ex)
  unfolding Calls.declare_and_bind_queue
  declare_and_bind_queue-Within q ex = record {
    at = λ s h. noted-Within E L _ _ s (L.declare_and_bind_queue_leaves q ex s.world) tt h;
  }

  pub delete_queue-Within : (q : String) → Keeps (Within L H Q) (Calls.delete_queue E {R = R} q)
  unfolding Calls.delete_queue
  delete_queue-Within q = record {
    at = λ s h. noted-Within E L _ _ s (L.delete_queue_leaves q s.world) tt h;
  }

  pub checkpoint-Within :
      (k : KubeletClient E.World) (node ns pod c : String)
      → E.kubelet ≡ some k
      → Keeps (Within L H Q) (Calls.checkpoint E {R = R} k node ns pod c)
  unfolding Calls.checkpoint
  checkpoint-Within k node ns pod c e = record {
    at = λ s h. noted-Within E L _ _ s (L.checkpoint_leaves node ns pod c e s.world) tt h;
  }

  pub agent_post-Within :
      (url : String) (body : String) → Keeps (Within L H Q) (Calls.agent_post E {R = R} url body)
  unfolding Calls.agent_post
  agent_post-Within url body = record {
    at = λ s h. noted-Within E L _ _ s (L.agent_post_leaves url body s.world) tt h;
  }
