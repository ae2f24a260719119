-- ===== src/Messaging/Rabbitmq.antt =====
-- `RabbitMQClient` (internal/messaging/rabbitmq.go). The AMQP library is the parameter `Amqp`: its
-- connections, channels and calls over a state of the broker, each with the error that it returns.
pub mod Laws
use kubernetes_controller.Base.{ℕ, String, ◌<>◌, Option, none, some, List, [], ◌∷◌}
use kubernetes_controller.Base.Dict.{Dict}
use kubernetes_controller.Messaging.{BrokerClient, Result, ok, err, ControlMessageType, Payload}
use kubernetes_controller.Api.{replay_queue}

pub record Amqp : Type 1 where
  pub Broker : Type 0
  pub Connection : Type 0
  pub Channel : Type 0
  pub dial : String → Broker → Result Connection × Broker
  pub open_channel : Connection → Broker → Result Channel × Broker
  pub close_connection : Connection → Broker → Option String × Broker
  pub close_channel : Channel → Broker → Option String × Broker
  -- `ExchangeDeclare(name, kind, durable, …)`; the kind is its last argument here.
  pub exchange_declare : Channel → String → String → Broker → Option String × Broker
  pub queue_declare : Channel → String → Broker → Option String × Broker
  pub queue_bind : Channel → String → String → String → Broker → Option String × Broker
  pub queue_unbind : Channel → String → String → String → Broker → Option String × Broker
  pub queue_delete : Channel → String → Broker → Option String × Broker
  pub queue_purge : Channel → String → Broker → Option String × Broker
  -- `QueueInspect(name)`, of which the client reads `Messages`.
  pub queue_inspect : Channel → String → Broker → Result ℕ × Broker
  -- `PublishWithContext` to an exchange with a routing key, of a control message as JSON.
  pub publish :
      Channel → String → String → ControlMessageType → Payload → Broker → Option String × Broker

abbrev pub not_connected : String
not_connected = "broker channel not connected"

module _ (A : Amqp) where
  -- The client's two fields, nil as `none`, with the state of the broker that it talks to.
  pub record RabbitClient : Type 0 where
    pub conn : Option A.Connection
    pub ch : Option A.Channel
    pub broker : A.Broker

  -- A method that returns `(X, error)`.
  abbrev Method : Type 0 → Type 0
  Method X = RabbitClient → Result X × RabbitClient

  abbrev pure : {X : Type 0} → X → Method X
  pure x c = (ok x, c)

  infixl 5 ◌>>=◌ ◌>>◌
  abbrev ◌>>=◌ : {X Y : Type 0} → Method X → (X → Method Y) → Method Y
  ◌>>=◌ m f c = let (r, c') = m c in elim r [ ok x ↦ f x c' | err e ↦ (err e, c') ]

  abbrev ◌>>◌ : {X Y : Type 0} → Method X → Method Y → Method Y
  m >> k = m >>= λ _. k

  -- `if r.ch == nil { return error }`
  abbrev channel : Method A.Channel
  channel c = elim c.ch [ none ↦ (err not_connected, c) | some ch ↦ (ok ch, c) ]

  -- A library call whose error is wrapped in a prefix.
  abbrev call : String → (A.Broker → Option String × A.Broker) → Method (Unit {0})
  call what f c =
      let (e, b) = f c.broker in
      (elim e [ none ↦ ok tt | some x ↦ err (what <> ": " <> x) ], record c { broker = b })

  abbrev ask : {X : Type 0} → String → (A.Broker → Result X × A.Broker) → Method X
  ask what f c =
      let (r, b) = f c.broker in
      (elim r [ ok x ↦ ok x | err x ↦ err (what <> ": " <> x) ], record c { broker = b })

  -- A method that returns `error` alone.
  abbrev to_error : Result (Unit {0}) → Option String
  to_error (ok _) = none
  to_error (err e) = some e

  abbrev run : Method (Unit {0}) → RabbitClient → Option String × RabbitClient
  run m c = let (r, c') = m c in (to_error r, c')

  -- `%q`, for names without special characters.
  abbrev quote : String → String
  quote s = "\"" <> s <> "\""

  close_ch : Option A.Channel → A.Broker → Option String × A.Broker
  close_ch none b = (none, b)
  close_ch (some ch) b = A.close_channel ch b

  close_conn : Option A.Connection → A.Broker → Option String × A.Broker
  close_conn none b = (none, b)
  close_conn (some cn) b = A.close_connection cn b

  abbrev first_of_errors : Option String → Option String → Option String
  first_of_errors none e = e
  first_of_errors (some e) _ = some e

  unfoldable pub close : RabbitClient → Option String × RabbitClient
  unfolding close_ch close_conn
  close c =
      let (e1, b1) = close_ch c.ch c.broker in
      let (e2, b2) = close_conn c.conn b1 in
      (first_of_errors e1 e2, record { conn = none; ch = none; broker = b2 })

  -- `if r.ch != nil || r.conn != nil { _ = r.Close() }`: closing a client with neither changes
  -- nothing, so the test is left to `close`.
  open_on : A.Connection → Method (Unit {0})
  open_on cn c =
      let (r, b) = A.open_channel cn c.broker in
      elim r [
        | ok ch ↦ (ok tt, record { conn = some cn; ch = some ch; broker = b })
        | err e ↦
            let (_, b') = A.close_connection cn b in
            (err ("amqp open channel: " <> e), record c { broker = b' })
      ]

  pub connect : String → RabbitClient → Option String × RabbitClient
  unfolding close open_on
  connect url c = let (_, c') = close c in run (ask "amqp dial" (A.dial url) >>= open_on) c'

  unfoldable pub create_secondary_queue :
      String → String → String → RabbitClient → Result String × RabbitClient
  create_secondary_queue primary exchange key = do
    ch ← channel
    let secondary = replay_queue primary
    call ("declare exchange " <> quote exchange) (A.exchange_declare ch exchange "fanout")
    call ("declare queue " <> quote secondary) (A.queue_declare ch secondary)
    call ("bind primary queue " <> quote primary <> " to " <> quote exchange)
        (A.queue_bind ch primary "" exchange)
    call ("bind secondary queue " <> quote secondary <> " to " <> quote exchange)
        (A.queue_bind ch secondary "" exchange)
    pure secondary

  unfoldable pub unbind_queue : String → String → RabbitClient → Option String × RabbitClient
  unbind_queue queue exchange = run (do
    ch ← channel
    call ("unbind queue " <> quote queue <> " from " <> quote exchange)
        (A.queue_unbind ch queue "" exchange))

  unfoldable pub delete_secondary_queue :
      String → String → String → RabbitClient → Option String × RabbitClient
  delete_secondary_queue secondary primary exchange = run (do
    ch ← channel
    call ("unbind secondary queue " <> quote secondary <> " from " <> quote exchange)
        (A.queue_unbind ch secondary "" exchange)
    call ("delete queue " <> quote secondary) (A.queue_delete ch secondary))

  unfoldable pub get_queue_depth : String → RabbitClient → Result ℕ × RabbitClient
  get_queue_depth queue = do
    ch ← channel
    ask ("inspect queue " <> quote queue) (A.queue_inspect ch queue)

  -- Encoding the message as JSON cannot fail for a payload of texts.
  unfoldable pub send_control_message :
      String → ControlMessageType → Payload → RabbitClient → Option String × RabbitClient
  send_control_message pod type payload = run (do
    ch ← channel
    let control = "ms2m.control." <> pod
    call ("declare control queue " <> quote control) (A.queue_declare ch control)
    call ("publish control message to " <> quote control) (A.publish ch "" control type payload))

  unfoldable pub bind_queue : String → String → String → RabbitClient → Option String × RabbitClient
  bind_queue queue exchange key = run (do
    ch ← channel
    call ("bind queue " <> quote queue <> " to " <> quote exchange)
        (A.queue_bind ch queue "" exchange))

  pub purge_queue : String → RabbitClient → Option String × RabbitClient
  purge_queue queue =
      run (do ch ← channel; call ("purge queue " <> quote queue) (A.queue_purge ch queue))

  unfoldable pub get_queue_stats : String → RabbitClient → Result (ℕ × ℕ) × RabbitClient
  get_queue_stats queue = do
    ch ← channel
    messages ← ask ("inspect queue " <> quote queue) (A.queue_inspect ch queue)
    pure (messages, 0)

  unfoldable pub declare_and_bind_queue :
      String → String → RabbitClient → Option String × RabbitClient
  declare_and_bind_queue queue exchange = run (do
    ch ← channel
    call ("declare queue " <> quote queue) (A.queue_declare ch queue)
    call ("bind queue " <> quote queue <> " to " <> quote exchange)
        (A.queue_bind ch queue "" exchange))

  unfoldable pub delete_queue : String → RabbitClient → Option String × RabbitClient
  delete_queue queue =
      run (do ch ← channel; call ("delete queue " <> quote queue) (A.queue_delete ch queue))

  abbrev pub rabbitmq : BrokerClient RabbitClient
  rabbitmq = record {
    connect = connect;
    close = close;
    create_secondary_queue = create_secondary_queue;
    unbind_queue = unbind_queue;
    delete_secondary_queue = delete_secondary_queue;
    get_queue_depth = get_queue_depth;
    send_control_message = send_control_message;
    bind_queue = bind_queue;
    purge_queue = purge_queue;
    get_queue_stats = get_queue_stats;
    declare_and_bind_queue = declare_and_bind_queue;
    delete_queue = delete_queue;
  }
