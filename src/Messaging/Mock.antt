-- ===== src/Messaging/Mock.antt =====
-- `MockBrokerClient` (internal/messaging/mock.go): an in-memory broker with injected errors. Its
-- mutex makes every call atomic, so a call is a function of the state.
use kubernetes_controller.Base.{
  ℕ, String, Bool, true, false, Option, none, some, List, [], ◌∷◌, ◌++◌,
}
use kubernetes_controller.Base.Dict.{Dict, lookup, insert, erase}
use kubernetes_controller.Messaging.{BrokerClient, Result, ok, err, ControlMessageType, Payload}
use kubernetes_controller.Api.{replay_queue}

pub record MockControlMessage : Type 0 where
  pub target_pod : String
  pub type : ControlMessageType
  pub payload : Payload

pub record MockBrokerClient : Type 0 where
  pub connected : Bool
  pub queues : Dict ℕ
  pub control_messages : List MockControlMessage
  pub connect_err : Option String
  pub create_queue_err : Option String
  pub delete_queue_err : Option String
  pub depth_err : Option String
  pub send_err : Option String
  pub close_err : Option String

unfoldable pub new_mock_broker_client : MockBrokerClient
new_mock_broker_client = record {
  connected = false;
  queues = [];
  control_messages = [];
  connect_err = none;
  create_queue_err = none;
  delete_queue_err = none;
  depth_err = none;
  send_err = none;
  close_err = none;
}

-- `m.Queues[q]`: a missing queue reads as 0.
abbrev depth_or_zero : Option ℕ → ℕ
depth_or_zero none = 0
depth_or_zero (some n) = n

abbrev pub depth_of : String → MockBrokerClient → ℕ
depth_of q m = depth_or_zero (lookup q m.queues)

-- A step that an injected error stops.
abbrev guarded :
    Option String → MockBrokerClient → MockBrokerClient → Option String × MockBrokerClient
guarded none m m' = (none, m')
guarded (some e) m m' = (some e, m)

abbrev answered {ℓ} : {A : Type ℓ} → Option String → A → Result A
answered none a = ok a
answered (some e) a = err e

unfoldable pub connect : String → MockBrokerClient → Option String × MockBrokerClient
connect url m = guarded m.connect_err m (record m { connected = true })

-- The connection is marked closed before the injected error is returned.
unfoldable pub close : MockBrokerClient → Option String × MockBrokerClient
close m = (m.close_err, record m { connected = false })

unfoldable pub create_secondary_queue :
    String → String → String → MockBrokerClient → Result String × MockBrokerClient
create_secondary_queue primary exchange key m =
    let name = replay_queue primary in
    let (e, m') = guarded m.create_queue_err m (record m { queues = insert name 0 m.queues }) in
    (answered e name, m')

unfoldable pub unbind_queue : String → String → MockBrokerClient → Option String × MockBrokerClient
unbind_queue queue exchange m = (none, m)

unfoldable pub delete_secondary_queue :
    String → String → String → MockBrokerClient → Option String × MockBrokerClient
delete_secondary_queue secondary primary exchange m =
    guarded m.delete_queue_err m (record m { queues = erase secondary m.queues })

unfoldable pub get_queue_depth : String → MockBrokerClient → Result ℕ × MockBrokerClient
get_queue_depth queue m = (answered m.depth_err (depth_of queue m), m)

unfoldable pub send_control_message :
    String → ControlMessageType → Payload → MockBrokerClient → Option String × MockBrokerClient
send_control_message pod type payload m =
    let sent : MockControlMessage = record { target_pod = pod; type = type; payload = payload } in
    guarded m.send_err m (record m { control_messages = m.control_messages ++ (sent ∷ []) })

unfoldable pub bind_queue :
    String → String → String → MockBrokerClient → Option String × MockBrokerClient
bind_queue queue exchange key m = (none, m)

pub purge_queue : String → MockBrokerClient → Option String × MockBrokerClient
purge_queue queue m = (none, record m { queues = insert queue 0 m.queues })

unfoldable pub get_queue_stats : String → MockBrokerClient → Result (ℕ × ℕ) × MockBrokerClient
get_queue_stats queue m = (answered m.depth_err (depth_of queue m, 0), m)

abbrev declared : Option ℕ → String → Dict ℕ → Dict ℕ
declared none queue queues = insert queue 0 queues
declared (some n) queue queues = queues

unfoldable pub declare_and_bind_queue :
    String → String → MockBrokerClient → Option String × MockBrokerClient
declare_and_bind_queue queue exchange m =
    guarded m.create_queue_err m
      (record m { queues = declared (lookup queue m.queues) queue m.queues })

unfoldable pub delete_queue : String → MockBrokerClient → Option String × MockBrokerClient
delete_queue queue m = guarded m.delete_queue_err m (record m { queues = erase queue m.queues })

pub set_queue_depth : String → ℕ → MockBrokerClient → MockBrokerClient
set_queue_depth queue depth m = record m { queues = insert queue depth m.queues }

abbrev pub mock_broker : BrokerClient MockBrokerClient
mock_broker = record {
  connect = connect;
  close = close;
  create_secondary_queue = create_secondary_queue;
  unbind_queue = unbind_queue;
  delete_secondary_queue = delete_secondary_queue;
  get_queue_depth = get_queue_depth;
  send_control_message = send_control_message;
  bind_queue = bind_queue;
  purge_queue = purge_queue;
  get_queue_stats = get_queue_stats;
  declare_and_bind_queue = declare_and_bind_queue;
  delete_queue = delete_queue;
}
