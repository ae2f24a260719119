-- ===== src/Controller/Agent.antt =====
-- The HTTP helpers for the ms2m-agent DaemonSet.
use kubernetes_controller.Base.{
  String, ◌<>◌, ◌==◌, true, not, Option, none, some, List, [], ◌∷◌, ◌&&◌, nat_eq, if◌then◌else◌,
}
use kubernetes_controller.Messaging.{Result, ok, err}
use kubernetes_controller.Cluster.{is_running, Pod, Env}
use kubernetes_controller.Json.{text, flag, JsonObject}
use kubernetes_controller.Controller.Monad.{Act, ◌>>=◌, pure}
use kubernetes_controller.Controller.Calls.{agent_post, list_agent_pods}

-- The first pod that runs on the node and has an address.
agent_on : String → List Pod → Option String
agent_on node [] = none
agent_on node (p ∷ ps) =
    let rest = agent_on node ps in
    if p.node_name == node && is_running p.phase && not (p.pod_ip == "")
    then some p.pod_ip
    else rest

abbrev or_missing : String → Option String → Result String
or_missing node none = err ("no running ms2m-agent found on node " <> node)
or_missing node (some ip) = ok ip

-- The bodies of the two requests; json.Marshal writes the members of a map in the order of their keys.
unfoldable pub push_body : String → String → String → JsonObject
push_body tar container image =
    ("containerName", text container)
    ∷ ("imageRef", text image)
    ∷ ("insecure", flag true)
    ∷ ("tarPath", text tar)
    ∷ []

unfoldable pub load_body : String → String → String → JsonObject
load_body tar container tag =
    ("containerName", text container) ∷ ("imageTag", text tag) ∷ ("tarPath", text tar) ∷ []

module _ (E : Env) {R : Type 0} where
  -- `findAgentPodIP`
  unfoldable pub find_agent_pod_ip : String → Act E.World R (Result String)
  unfolding agent_on
  find_agent_pod_ip node = do
    r ← list_agent_pods E
    pure (elim r [
      | err e ↦ err ("list agent pods: " <> e)
      | ok pods ↦ or_missing node (agent_on node pods)
    ])

  -- `callAgent`
  unfoldable pub call_agent : String → String → String → Act E.World R (Option String)
  call_agent ip path body = do
    let url = "http://" <> ip <> ":9443" <> path
    r ← agent_post E url body
    pure (elim r [
      | err e ↦ some ("HTTP call to agent " <> url <> ": " <> e)
      | ok (status, answer) ↦
          if nat_eq status 200
          then none
          else some ("agent returned " <> E.format_int status <> ": " <> answer)
    ])

  -- `callAgentRegistryPush`
  unfoldable pub call_agent_registry_push :
      String → String → String → String → Act E.World R (Option String)
  unfolding call_agent
  call_agent_registry_push ip tar container image =
      call_agent ip "/registry-push" (E.write_json (push_body tar container image))

  -- `callAgentLocalLoad`
  unfoldable pub call_agent_local_load :
      String → String → String → String → Act E.World R (Option String)
  unfolding call_agent
  call_agent_local_load ip tar container image =
      call_agent ip "/local-load" (E.write_json (load_body tar container image))
