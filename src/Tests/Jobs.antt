-- ===== src/Tests/Jobs.antt =====
-- The agent's server and the programs of the Jobs, at the other end of what the controller sends.
use kubernetes_controller.Base.{
  ℕ, String, ◌≡◌, ◌↔◌, refl, ◌==◌, true, Option, none, [], if◌then◌else◌,
}
use kubernetes_controller.Api.{StatefulMigration, Phase, SwapSubPhase}
use kubernetes_controller.Messaging.{BrokerClient, Result, ok, err}
use kubernetes_controller.Cluster.{Env}
use kubernetes_controller.Flow.{Flow, run, next}
use kubernetes_controller.NodeAgent.{Host, NodeState}
use kubernetes_controller.NodeAgent.Server
use kubernetes_controller.NodeAgent.Server.{serve, exit}
use kubernetes_controller.NodeAgent.Laws
use kubernetes_controller.NodeAgent.Laws.{Loaded}
use kubernetes_controller.Transfer
use kubernetes_controller.Transfer.{SendState}
use kubernetes_controller.Transfer.Send.{main}
use kubernetes_controller.Transfer.Laws.{Posted}
use kubernetes_controller.Controller.Monad.{St}
use kubernetes_controller.Controller.Agent.{
  call_agent_local_load, call_agent_registry_push, load_body, push_body,
}
use kubernetes_controller.Controller.Delivery.{
  Delivers, json_post, call_agent_local_load_iff, call_agent_registry_push_iff,
}
use kubernetes_controller.Controller.Phases.Transferring.{transfer_job, image_ref}
use kubernetes_controller.Controller.Swap.Transfer.{swap_transfer_job}
use kubernetes_controller.Controller.JobRuns.{
  JobDone, transfer_job_iff, transfer_job_http, swap_transfer_job_iff,
}
use kubernetes_controller.Tests.World.{test_migration, write_json}
use kubernetes_controller.Tests.Quiet.{quiet_env}
use kubernetes_controller.Base.Dict.{lookup}
use kubernetes_controller.Tests.Node.{read_json, test_oci, test_host, uploads}

abbrev node : Host
node = test_host none

abbrev idle : NodeState node
idle = record { world = 7; effects = [] }

-- What the agent answers to a body at a path.
abbrev reply : String → String → NodeState node → Result (ℕ × String) × NodeState node
reply path body w =
    let (r, w') = run (serve node uploads (json_post path body)) w in (ok (r.status, r.body), w')

abbrev silent : {A : Type 0} → NodeState node → Option A × NodeState node
silent w = (none, w)

abbrev silent_broker : BrokerClient (NodeState node)
silent_broker = record {
  connect = λ url w. (none, w);
  close = λ w. (none, w);
  create_secondary_queue = λ q ex key w. (ok q, w);
  unbind_queue = λ q ex w. (none, w);
  delete_secondary_queue = λ q p ex w. (none, w);
  get_queue_depth = λ q w. (ok 0, w);
  send_control_message = λ pod t p w. (none, w);
  bind_queue = λ q ex key w. (none, w);
  purge_queue = λ q w. (none, w);
  get_queue_stats = λ q w. (ok (0, 0), w);
  declare_and_bind_queue = λ q ex w. (none, w);
  delete_queue = λ q w. (none, w);
}

-- A cluster whose only other part is the node with its agent.
abbrev one_node : Env
one_node = quiet_env silent_broker λ url body w.
    if url == "http://10.0.0.7:9443/local-load"
    then reply "/local-load" body w
    else if url == "http://10.0.0.7:9443/registry-push"
    then reply "/registry-push" body w
    else (err "no route to host", w)

abbrev load_route : Delivers one_node node uploads "10.0.0.7" "/local-load"
load_route = record { node = λ w. w; answer = λ body w. refl; effect = λ body w. refl }

abbrev push_route : Delivers one_node node uploads "10.0.0.7" "/registry-push"
push_route = record { node = λ w. w; answer = λ body w. refl; effect = λ body w. refl }

abbrev start : St (NodeState node)
start = record {
  m = test_migration Phase.transferring SwapSubPhase.unset [];
  world = idle;
  calls = [];
}

call_agent_local_load_iff_example :
    (Path
      (Flow String (Option String))
      (call_agent_local_load one_node "10.0.0.7" "/a.tar" "app" "t" start).0
      (next none))
    ↔ Loaded node "/a.tar" "app" "t" idle
        (call_agent_local_load one_node {R = String} "10.0.0.7" "/a.tar" "app" "t" start).1.world
unfolding read_json write_json load_body push_body lookup
call_agent_local_load_iff_example =
    call_agent_local_load_iff one_node node uploads "10.0.0.7" String start load_route "/a.tar"
      "app" "t" refl

call_agent_registry_push_iff_example :
    (Path
      (Flow String (Option String))
      (call_agent_registry_push one_node "10.0.0.7" "/a.tar" "app" "t" start).0
      (next none))
    ↔ Laws.Pushed node "/a.tar" "app" "t" true idle
        (call_agent_registry_push one_node {R = String} "10.0.0.7" "/a.tar" "app" "t" start).1.world
unfolding read_json write_json load_body push_body lookup
call_agent_registry_push_iff_example =
    call_agent_registry_push_iff one_node node uploads "10.0.0.7" String start push_route "/a.tar"
      "app" "t" refl

-- The host of a transfer job whose calls all succeed.
abbrev sender : Transfer.Host
sender = record {
  World = ℕ;
  File = String;
  oci = test_oci;
  open_file = λ path w. (ok path, w);
  write_field = λ name value w. (none, w);
  create_form_file = λ name file w. (none, w);
  copy_file = λ f w. (none, w);
  close_writer = λ w. (none, w);
  post = λ url parts whole w. (ok (200, ""), w);
  push_image = λ img ref insecure w. (none, w);
  getenv = λ key. if key == "INSECURE_REGISTRY" then "true" else "";
  format_int = λ n. "200";
}

abbrev unsent : SendState sender
unsent = record { world = 0; sent = [] }

abbrev migration : StatefulMigration
migration = test_migration Phase.transferring SwapSubPhase.unset []

-- The same with a repository whose name starts with "http".
abbrev http_migration : StatefulMigration
http_migration = record migration {
  spec = record (migration.spec) { checkpoint_image_repository = "httpd.example.com/images" };
}

transfer_job_iff_example :
    ((main sender (transfer_job migration).args unsent).0 ≡ 0)
    ↔ JobDone sender migration unsent (main sender (transfer_job migration).args unsent).1
transfer_job_iff_example = transfer_job_iff sender migration unsent refl

transfer_job_http_example :
    ((main sender (transfer_job http_migration).args unsent).0 ≡ 0)
    ↔ Posted sender http_migration.status.checkpoint_id
        (image_ref http_migration)
        http_migration.status.container_name
        unsent
        (main sender (transfer_job http_migration).args unsent).1
transfer_job_http_example = transfer_job_http sender http_migration unsent refl refl

swap_transfer_job_iff_example :
    let result = run (Server.main node (swap_transfer_job migration "t").args) idle in
    (result.0 ≡ exit 0) ↔ Loaded node "archive.tar" "consumer" "t" idle result.1
swap_transfer_job_iff_example = swap_transfer_job_iff node migration "t" idle
