-- ===== src/Tests/Amqp.antt =====
-- An AMQP broker of nothing but bindings, which no call fails on.
use kubernetes_controller.Base.{
  String, Bool, false, Option, none, ◌||◌, ◌&&◌, ◌==◌, eq_iff, arith, if◌then◌else◌,
}
use kubernetes_controller.Base.Text.{==_self}
use kubernetes_controller.Messaging.{ok}
use kubernetes_controller.Messaging.Rabbitmq.{Amqp, RabbitClient}
use kubernetes_controller.Messaging.Rabbitmq.Laws.{BindsAsDocumented}

abbrev Bindings : Type 0
Bindings = String → String → Bool

abbrev pub test_amqp : Amqp
test_amqp = record {
  Broker = Bindings;
  Connection = Unit;
  Channel = Unit;
  dial = λ url b. (ok tt, b);
  open_channel = λ c b. (ok tt, b);
  close_connection = λ c b. (none, b);
  close_channel = λ c b. (none, b);
  exchange_declare = λ c ex kind b. (none, b);
  queue_declare = λ c q b. (none, b);
  queue_bind = λ c q key ex b. (none, λ j x. (j == q && x == ex) || b j x);
  queue_unbind = λ c q key ex b. (none, λ j x. if j == q && x == ex then false else b j x);
  queue_delete = λ c q b. (none, λ j x. if j == q then false else b j x);
  queue_purge = λ c q b. (none, b);
  queue_inspect = λ c q b. (ok 0, b);
  publish = λ c ex key t p b. (none, b);
}

abbrev pub bound : Bindings → String → String → Bool
bound b = b

pub test_amqp-BindsAsDocumented : BindsAsDocumented test_amqp bound
test_amqp-BindsAsDocumented = record {
  queue_bind_binds = λ ch q key ex b h. ground (arith, ==_self q, ==_self ex);
  queue_bind_keeps = λ ch q key ex j x b h. ground (arith, h);
  queue_unbind_keeps = λ ch q key ex j x b ne h. ground (arith, h, ne, eq_iff j q);
  queue_delete_keeps = λ ch q j x b ne h. ground (arith, h, ne, eq_iff j q);
}

abbrev pub open_client : Bindings → RabbitClient test_amqp
open_client b = record { conn = Option.some tt; ch = Option.some tt; broker = b }

abbrev pub closed_client : RabbitClient test_amqp
closed_client = record { conn = none; ch = none; broker = λ q ex. false }
