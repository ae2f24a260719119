-- ===== src/Tests/Quiet.antt =====
-- An environment in which only the broker and the node agent do anything.
use kubernetes_controller.Base.{ℕ, String, none, []}
use kubernetes_controller.Messaging.{BrokerClient, Result, ok}
use kubernetes_controller.Cluster.{Env, Lookup, Created, Deleted}
use kubernetes_controller.Tests.World.{fractions, write_json}

-- A cluster with a broker, an agent and nothing else.
abbrev pub quiet_env :
    {W : Type 0} → BrokerClient W → (String → String → W → Result (ℕ × String) × W) → Env
quiet_env {W} broker agent = record {
  World = W;
  float = fractions;
  broker = broker;
  kubelet = none;
  now = λ w. 0;
  get_migration = λ ns n w. (Lookup.not_found, w);
  update_migration = λ m w. (ok m, w);
  patch_status = λ base m w. (ok m, w);
  get_pod = λ ns n w. (Lookup.not_found, w);
  get_stateful_set = λ ns n w. (Lookup.not_found, w);
  get_deployment = λ ns n w. (Lookup.not_found, w);
  get_replica_set = λ ns n w. (Lookup.not_found, w);
  get_job = λ ns n w. (Lookup.not_found, w);
  create_pod = λ p w. (Created.created, w);
  create_job = λ j w. (Created.created, w);
  patch_pod = λ b p w. (none, w);
  patch_stateful_set = λ b x w. (none, w);
  patch_deployment = λ b x w. (none, w);
  delete_pod = λ p g w. (Deleted.deleted, w);
  list_agent_pods = λ w. (ok [], w);
  write_json = write_json;
  agent_post = agent;
  format_time = λ t. "";
  parse_time = λ t. none;
  format_int = λ n. "";
  scan_int = λ t. none;
  format_millis = λ d. "";
  format_seconds = λ d. "";
}
