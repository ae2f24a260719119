-- ===== src/Controller/Tracking/Client.antt =====
-- Each method of the RabbitMQ client does at least what the log counts it for.
use kubernetes_controller.Base.{String, ◌≡◌, Bool, true, eq_iff, arith}
use kubernetes_controller.Messaging.{ControlMessageType, Payload}
use kubernetes_controller.Messaging.Rabbitmq.{
  Amqp, RabbitClient, close, unbind_queue, delete_secondary_queue, get_queue_depth,
  send_control_message, bind_queue, get_queue_stats, declare_and_bind_queue, delete_queue,
}
use kubernetes_controller.Messaging.Rabbitmq.Laws.{BindsAsDocumented}
use kubernetes_controller.Controller.Monad.{Call}
use kubernetes_controller.Controller.Calls.{succeeded}
use kubernetes_controller.Controller.Routing.{effect_on}
use kubernetes_controller.Controller.Tracking.{LeavesBindings}

-- If the log counts the queue as bound, the broker has bound it.
abbrev pub Sound :
    {A : Amqp}
    → (A.Broker → String → String → Bool)
    → String
    → String
    → Bool
    → RabbitClient A
    → Type 0
Sound bound q ex counted c = counted ≡ true → bound c.broker q ex ≡ true

module _ (A : Amqp) (bound : A.Broker → String → String → Bool) (B : BindsAsDocumented A bound)
    (K : LeavesBindings A bound) (q ex : String) (c : RabbitClient A) (old : Bool)
    (sound : Sound bound q ex old c) where
  pub bind_queue-Sound :
      (j x key : String)
      → let (e, c') = bind_queue A j x key c in
        Sound bound q ex (effect_on q ex (Call.bind_queue j x (succeeded e)) old) c'
  unfolding bind_queue effect_on
  bind_queue-Sound j x key h =
      grind (arith, eq_iff j q, eq_iff x ex, B.queue_bind_binds, B.queue_bind_keeps, sound)

  pub unbind_queue-Sound :
      (j x : String)
      → let (e, c') = unbind_queue A j x c in
        Sound bound q ex (effect_on q ex (Call.unbind_queue j x (succeeded e)) old) c'
  unfolding unbind_queue effect_on
  unbind_queue-Sound j x h =
      grind (arith, eq_iff j q, eq_iff x ex, B.queue_unbind_keeps, K.unbind_keeps_others, sound)

  pub delete_queue-Sound :
      (j : String)
      → let (e, c') = delete_queue A j c in
        Sound bound q ex (effect_on q ex (Call.delete_queue j (succeeded e)) old) c'
  unfolding delete_queue effect_on
  delete_queue-Sound j h = grind (arith, eq_iff j q, B.queue_delete_keeps, sound)

  pub declare_and_bind_queue-Sound :
      (j x : String)
      → let (e, c') = declare_and_bind_queue A j x c in
        Sound bound q ex (effect_on q ex (Call.declare_and_bind_queue j x (succeeded e)) old) c'
  unfolding declare_and_bind_queue effect_on
  declare_and_bind_queue-Sound j x h = grind (
    arith,
    eq_iff j q,
    eq_iff x ex,
    B.queue_bind_binds,
    B.queue_bind_keeps,
    K.queue_declare_keeps,
    sound,
  )

  pub delete_secondary_queue-Sound :
      (j p x : String)
      → let (e, c') = delete_secondary_queue A j p x c in
        Sound bound q ex (effect_on q ex (Call.delete_secondary_queue j x (succeeded e)) old) c'
  unfolding delete_secondary_queue effect_on
  delete_secondary_queue-Sound j p x h =
      grind (arith, eq_iff j q, B.queue_unbind_keeps, B.queue_delete_keeps, sound)

  pub get_queue_depth-Sound : (j : String) → Sound bound q ex old (get_queue_depth A j c).1
  unfolding get_queue_depth
  get_queue_depth-Sound j h = grind (arith, K.queue_inspect_keeps, sound)

  pub get_queue_stats-Sound : (j : String) → Sound bound q ex old (get_queue_stats A j c).1
  unfolding get_queue_stats
  get_queue_stats-Sound j h = grind (arith, K.queue_inspect_keeps, sound)

  pub send_control_message-Sound :
      (pod : String) (t : ControlMessageType) (pl : Payload)
      → Sound bound q ex old (send_control_message A pod t pl c).1
  unfolding send_control_message
  send_control_message-Sound pod t pl h =
      grind (arith, K.queue_declare_keeps, K.publish_keeps, sound)

  pub close-Sound : Sound bound q ex old (close A c).1
  unfolding close
  close-Sound h = grind (arith, K.close_channel_keeps, K.close_connection_keeps, sound)
