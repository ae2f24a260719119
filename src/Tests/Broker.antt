-- ===== src/Tests/Broker.antt =====
-- The laws of the RabbitMQ client at concrete queues.
use kubernetes_controller.Base.{◌≡◌, refl, ◌≢◌, ◌⊎◌, String, true, false, none}
use kubernetes_controller.Api.{replay_queue}
use kubernetes_controller.Messaging.Rabbitmq
use kubernetes_controller.Messaging.Rabbitmq.Laws.{
  connect-close_state, create_secondary_queue_binds, delete_secondary_queue_keeps_primary,
  IsConnected, IsClosed,
}
use kubernetes_controller.Tests.Amqp.{
  test_amqp, bound, test_amqp-BindsAsDocumented, open_client, closed_client,
}

abbrev replay : String
replay = "orders.ms2m-replay"

connect-close_state_example :
    (((Rabbitmq.connect test_amqp "amqp://broker" closed_client).0 ≡ none)
        × IsConnected test_amqp (Rabbitmq.connect test_amqp "amqp://broker" closed_client).1
      ⊎ ((Rabbitmq.connect test_amqp "amqp://broker" closed_client).0 ≢ none)
        × IsClosed test_amqp (Rabbitmq.connect test_amqp "amqp://broker" closed_client).1)
    × IsClosed test_amqp (Rabbitmq.close test_amqp closed_client).1
connect-close_state_example = connect-close_state test_amqp "amqp://broker" closed_client

create_secondary_queue_binds_example :
    let c =
      (Rabbitmq.create_secondary_queue test_amqp "orders" "events" ""
        (open_client (λ q ex. false))).1 in
    (replay ≡ replay_queue "orders")
    × (c.broker "orders" "events" ≡ true)
    × (c.broker "orders.ms2m-replay" "events" ≡ true)
unfolding Rabbitmq.create_secondary_queue
create_secondary_queue_binds_example =
    create_secondary_queue_binds test_amqp bound test_amqp-BindsAsDocumented "orders" "events" ""
      (open_client (λ q ex. false)) {name = replay} refl

delete_secondary_queue_keeps_primary_example :
    (Rabbitmq.delete_secondary_queue test_amqp "orders.ms2m-replay" "orders" "events"
        (open_client (λ q ex. true))).1.broker
      "orders" "events"
    ≡ true
delete_secondary_queue_keeps_primary_example =
    delete_secondary_queue_keeps_primary test_amqp bound test_amqp-BindsAsDocumented "orders"
      "events" (open_client (λ q ex. true)) refl
