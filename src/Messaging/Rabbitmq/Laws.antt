-- ===== src/Messaging/Rabbitmq/Laws.antt =====
-- What holds of the RabbitMQ client whatever the AMQP library answers, and what holds when bindings
-- behave as AMQP 0-9-1 documents them.
use kubernetes_controller.Base.{◌⊎◌, String, ◌≡◌, ◌≢◌, Bool, true, none, arith}
use kubernetes_controller.Base.Text.{append_ne_self}
use kubernetes_controller.Messaging.{ok}
use kubernetes_controller.Messaging.Rabbitmq.{
  Amqp, RabbitClient, connect, close, create_secondary_queue, delete_secondary_queue,
}
use kubernetes_controller.Api.{replay_queue}

module _ (A : Amqp) where
  -- The client holds a connection and a channel.
  abbrev pub IsConnected : RabbitClient A → Type 0
  IsConnected c = (c.conn ≢ none) × (c.ch ≢ none)

  -- The client holds neither.
  abbrev pub IsClosed : RabbitClient A → Type 0
  IsClosed c = (c.conn ≡ none) × (c.ch ≡ none)

  -- `connect` returns no error and the client holds both a connection and a channel, or it returns
  -- one and the client holds neither, whatever it held before; after `close` it holds neither.
  pub connect-close_state :
      (url : String) (c : RabbitClient A)
      → (((connect A url c).0 ≡ none) × IsConnected (connect A url c).1
          ⊎ ((connect A url c).0 ≢ none) × IsClosed (connect A url c).1)
        × IsClosed (close A c).1
  unfolding connect close
  connect-close_state url c = (ground arith, ground arith)

  -- Bindings of queues to exchanges as AMQP 0-9-1 documents them: a bind that succeeds binds, and
  -- no operation takes away the binding of a queue that it does not name.
  pub record BindsAsDocumented (bound : A.Broker → String → String → Bool) : Type 0 where
    pub queue_bind_binds :
        (ch : A.Channel) (q key ex : String) (b : A.Broker)
        → (A.queue_bind ch q key ex b).0 ≡ none
        → bound (A.queue_bind ch q key ex b).1 q ex ≡ true
    pub queue_bind_keeps :
        (ch : A.Channel) (q key ex j x : String) (b : A.Broker)
        → bound b j x ≡ true
        → bound (A.queue_bind ch q key ex b).1 j x ≡ true
    pub queue_unbind_keeps :
        (ch : A.Channel) (q key ex j x : String) (b : A.Broker)
        → q ≢ j
        → bound b j x ≡ true
        → bound (A.queue_unbind ch q key ex b).1 j x ≡ true
    pub queue_delete_keeps :
        (ch : A.Channel) (q j x : String) (b : A.Broker)
        → q ≢ j
        → bound b j x ≡ true
        → bound (A.queue_delete ch q b).1 j x ≡ true

  module _ (bound : A.Broker → String → String → Bool) (L : BindsAsDocumented bound) where
    -- When `CreateSecondaryQueue` succeeds, it returns the primary queue's name with ".ms2m-replay"
    -- behind it, and both queues are bound to the exchange.
    pub create_secondary_queue_binds :
        (q ex key : String) (c : RabbitClient A) {name : String}
        → (create_secondary_queue A q ex key c).0 ≡ ok name
        → (name ≡ replay_queue q)
          × (bound (create_secondary_queue A q ex key c).1.broker q ex ≡ true)
          × (bound (create_secondary_queue A q ex key c).1.broker (replay_queue q) ex ≡ true)
    unfolding create_secondary_queue
    create_secondary_queue_binds q ex key c h =
        grind (arith, L.queue_bind_binds, L.queue_bind_keeps)

    -- `DeleteSecondaryQueue` on the replay queue leaves the primary queue bound to its exchange,
    -- also when it fails half-way.
    pub delete_secondary_queue_keeps_primary :
        (q ex : String) (c : RabbitClient A)
        → bound c.broker q ex ≡ true
        → bound (delete_secondary_queue A (replay_queue q) q ex c).1.broker q ex ≡ true
    unfolding delete_secondary_queue
    delete_secondary_queue_keeps_primary q ex c h = grind (
      arith,
      L.queue_unbind_keeps,
      L.queue_delete_keeps,
      append_ne_self q ".ms2m-replay" (λ e. cc),
    )
