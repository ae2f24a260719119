-- ===== src/Tests/World.antt =====
-- A world for the tests: the mock broker, the stored migration, a clock, and dictionaries of pods and
-- StatefulSets.
use kubernetes_controller.Base.{
  ℕ, ◌*◌, String, ◌==◌, true, Option, none, some, List, [], ◌∷◌, refl, inr, if◌then◌else◌, nat_eq,
  ltb, leb,
}
use kubernetes_controller.Base.Int.{pos, pos_part}
use kubernetes_controller.Base.Dict.{Dict, lookup, insert, erase}
use kubernetes_controller.Api.{
  StatefulMigration, StatefulMigrationSpec, Phase, Strategy, TransferMode, ReplayMode,
  IdentitySwapMode, SwapSubPhase,
}
use kubernetes_controller.Json.{JsonObject}
use kubernetes_controller.Messaging.{BrokerClient, ok}
use kubernetes_controller.Messaging.Mock.{MockBrokerClient, new_mock_broker_client, mock_broker}
use kubernetes_controller.Messaging.Mock
use kubernetes_controller.Cluster.{
  Env, Float64, KubeletClient, Pod, StatefulSet, Lookup, Created, Deleted,
}
use kubernetes_controller.Controller.Helpers.{second}
use kubernetes_controller.Controller.PhaseOrder.{SoleWriter}

pub record TestWorld : Type 0 where
  pub broker : MockBrokerClient
  pub migration : StatefulMigration
  pub clock : ℕ
  pub pods : Dict Pod
  pub sets : Dict StatefulSet

abbrev lift : {A : Type 0} → (MockBrokerClient → A × MockBrokerClient) → TestWorld → A × TestWorld
lift f w = let (a, b) = f w.broker in (a, record w { broker = b })

abbrev test_broker : BrokerClient TestWorld
test_broker = record {
  connect = λ url. lift (mock_broker.connect url);
  close = lift mock_broker.close;
  create_secondary_queue = λ q ex key. lift (mock_broker.create_secondary_queue q ex key);
  unbind_queue = λ q ex. lift (mock_broker.unbind_queue q ex);
  delete_secondary_queue = λ q p ex. lift (mock_broker.delete_secondary_queue q p ex);
  get_queue_depth = λ q. lift (mock_broker.get_queue_depth q);
  send_control_message = λ pod t p. lift (mock_broker.send_control_message pod t p);
  bind_queue = λ q ex key. lift (mock_broker.bind_queue q ex key);
  purge_queue = λ q. lift (mock_broker.purge_queue q);
  get_queue_stats = λ q. lift (mock_broker.get_queue_stats q);
  declare_and_bind_queue = λ q ex. lift (mock_broker.declare_and_bind_queue q ex);
  delete_queue = λ q. lift (mock_broker.delete_queue q);
}

-- The texts of the two requests of the tests.
abbrev pub load_text : String
load_text = "{\"containerName\":\"app\",\"imageTag\":\"t\",\"tarPath\":\"/a.tar\"}"

abbrev pub push_text : String
push_text =
    "{\"containerName\":\"app\",\"imageRef\":\"t\",\"insecure\":true,\"tarPath\":\"/a.tar\"}"

-- Writes these two.
unfoldable pub write_json : JsonObject → String
unfolding lookup
write_json o = elim (lookup "insecure" o) [ none ↦ load_text | some x ↦ push_text ]

-- Fractions of natural numbers, in place of rounded numbers: a numerator and a denominator.
abbrev pub fractions : Float64
fractions = record {
  Value = ℕ × ℕ;
  of_int = λ z. (pos_part z, 1);
  seconds = λ z. (pos_part z, second);
  div = λ x y. (x.0 * y.1, x.1 * y.0);
  lt = λ x y. ltb (x.0 * y.1) (y.0 * x.1);
  le = λ x y. leb (x.0 * y.1) (y.0 * x.1);
}

abbrev to_lookup : {A : Type 0} → Option A → Lookup A
to_lookup none = Lookup.not_found
to_lookup (some a) = Lookup.found a

-- Digits, and stamps of whole seconds.
abbrev digit : ℕ → String
digit n = if nat_eq n 0 then "0" else if nat_eq n 3 then "3" else if nat_eq n 8 then "8" else "many"

abbrev of_digit : String → Option ℕ
of_digit s =
    if s == "0" then some 0 else if s == "3" then some 3 else if s == "8" then some 8 else none

abbrev stamp_text : ℕ → String
stamp_text n = if nat_eq n 0 then "0s" else if nat_eq n (10 * second) then "10s" else "some time"

abbrev of_stamp : String → Option ℕ
of_stamp s = if s == "0s" then some 0 else if s == "10s" then some (10 * second) else none

abbrev pub test_env : Option (KubeletClient TestWorld) → Env
test_env kubelet = record {
  float = fractions;
  World = TestWorld;
  broker = test_broker;
  kubelet = kubelet;
  now = λ w. w.clock;
  get_migration = λ ns n w. (Lookup.found w.migration, w);
  update_migration = λ m w. (ok (record m { status = w.migration.status }), w);
  patch_status = λ base m w. (ok m, record w { migration = m });
  get_pod = λ ns n w. (to_lookup (lookup n w.pods), w);
  get_stateful_set = λ ns n w. (to_lookup (lookup n w.sets), w);
  get_deployment = λ ns n w. (Lookup.not_found, w);
  get_replica_set = λ ns n w. (Lookup.not_found, w);
  get_job = λ ns n w. (Lookup.not_found, w);
  create_pod = λ p w. (Created.created, record w { pods = insert p.name p w.pods });
  create_job = λ j w. (Created.created, w);
  patch_pod = λ b p w. (none, record w { pods = insert p.name p w.pods });
  patch_stateful_set = λ b x w. (none, record w { sets = insert x.name x w.sets });
  patch_deployment = λ b x w. (none, w);
  delete_pod = λ p g w. (Deleted.deleted, record w { pods = erase p.name w.pods });
  list_agent_pods = λ w. (ok [], w);
  write_json = write_json;
  agent_post = λ url body w. (ok (200, ""), w);
  format_time = stamp_text;
  parse_time = of_stamp;
  format_int = digit;
  scan_int = of_digit;
  format_millis = λ d. "a while";
  format_seconds = λ d. "a while";
}

-- A kubelet that answers with one list of archives.
abbrev pub test_kubelet : List String → KubeletClient TestWorld
test_kubelet items = record { checkpoint = λ node ns pod c w. (ok items, w) }

unfoldable pub sole_writer : SoleWriter (test_env none)
unfolding Mock.connect Mock.close Mock.create_secondary_queue Mock.unbind_queue
    Mock.delete_secondary_queue Mock.get_queue_depth Mock.get_queue_stats Mock.send_control_message
    Mock.bind_queue Mock.declare_and_bind_queue Mock.delete_queue
sole_writer = record {
  stored = λ w. record {
    phase = w.migration.status.phase;
    sub_phase = w.migration.status.swap_sub_phase;
  };
  connect_leaves = λ url w. refl;
  close_leaves = λ w. refl;
  create_secondary_queue_leaves = λ q ex key w. refl;
  unbind_queue_leaves = λ q ex w. refl;
  delete_secondary_queue_leaves = λ q p ex w. refl;
  get_queue_depth_leaves = λ q w. refl;
  get_queue_stats_leaves = λ q w. refl;
  send_control_message_leaves = λ pod t pl w. refl;
  bind_queue_leaves = λ q ex key w. refl;
  declare_and_bind_queue_leaves = λ q ex w. refl;
  delete_queue_leaves = λ q w. refl;
  checkpoint_leaves = λ node ns pod c e. cc;
  agent_post_leaves = λ url body w. refl;
  get_migration_leaves = λ ns n w. refl;
  get_pod_leaves = λ ns n w. refl;
  get_stateful_set_leaves = λ ns n w. refl;
  get_deployment_leaves = λ ns n w. refl;
  get_replica_set_leaves = λ ns n w. refl;
  get_job_leaves = λ ns n w. refl;
  create_pod_leaves = λ p w. refl;
  create_job_leaves = λ j w. refl;
  delete_pod_leaves = λ p g w. refl;
  patch_pod_leaves = λ b p w. refl;
  patch_stateful_set_leaves = λ b x w. refl;
  patch_deployment_leaves = λ b x w. refl;
  list_agent_pods_leaves = λ w. refl;
  update_migration_leaves = λ m w. refl;
  patch_stores = λ base m w e. refl;
  failed_patch_stores = λ base m w. inr refl;
  patch_answers = λ base m w e. (cc, cc);
  update_answers = λ m w e. cc;
  get_reads = λ ns n w e. (cc, cc);
}

abbrev test_spec : StatefulMigrationSpec
test_spec = record {
  source_pod = "consumer-0";
  container_name = "consumer";
  target_node = "node-b";
  checkpoint_image_repository = "registry:5000";
  replay_cutoff_seconds = pos 5;
  replay_mode = ReplayMode.drain;
  message_queue_config = record {
    queue_name = "orders";
    broker_url = "amqp://broker";
    exchange_name = "events";
    routing_key = "";
  };
  migration_strategy = Strategy.shadow_pod;
  transfer_mode = TransferMode.registry;
  identity_swap_mode = IdentitySwapMode.exchange_fence;
}

abbrev pub test_migration : Phase → SwapSubPhase → Dict String → StatefulMigration
test_migration p sub timings = record {
  name = "move";
  namespace = "shop";
  spec = test_spec;
  status = record {
    phase = p;
    source_node = "node-a";
    checkpoint_id = "archive.tar";
    target_pod = "consumer-0-shadow";
    container_name = "consumer";
    conditions = [];
    start_time = none;
    phase_timings = timings;
    stateful_set_name = "consumer";
    deployment_name = "";
    original_replicas = 0;
    source_pod_labels = ("app", "consumer") ∷ [];
    source_containers = [];
    swap_sub_phase = sub;
    replacement_pod = "";
  };
}

abbrev pub test_broker_state : Dict ℕ → MockBrokerClient
test_broker_state queues = record new_mock_broker_client { connected = true; queues = queues }

abbrev pub test_world : ℕ → Dict ℕ → StatefulMigration → TestWorld
test_world clock queues m = record {
  broker = test_broker_state queues;
  migration = m;
  clock = clock;
  pods = [];
  sets = [];
}
