-- ===== src/Cluster.antt =====
-- What surrounds the controller: the Kubernetes objects that it reads and writes, restricted to the
-- fields that internal/controller/statefulmigration_controller.go names, and `Env`, the services that
-- it calls (API server, broker, kubelet, ms2m-agent, clock) over a state of the world.
use kubernetes_controller.Base.{
  ◌≡◌, refl, ◌⊎◌, inl, inr, ℕ, String, Bool, true, false, Option, List,
}
use kubernetes_controller.Base.Int.{ℤ}
use kubernetes_controller.Base.Dict.{Dict}
use kubernetes_controller.Api.{StatefulMigration, Container}
use kubernetes_controller.Messaging.{BrokerClient, Result}
use kubernetes_controller.Json.{JsonObject}

pub record OwnerReference : Type 0 where
  pub kind : String
  pub name : String

-- `pod.Status.Phase`, which the controller only compares with `PodRunning`.
pub data PodPhase : Type 0 where
  running : PodPhase
  other : String → PodPhase

abbrev pub is_running : PodPhase → Bool
is_running running = true
is_running (other _) = false

pub record Pod : Type 0 where
  pub name : String
  pub namespace : String
  pub labels : Dict String
  pub annotations : Dict String
  pub owner_references : List OwnerReference
  -- `DeletionTimestamp != nil`
  pub deleting : Bool
  pub phase : PodPhase
  pub node_name : String
  pub pod_ip : String
  pub containers : List Container

pub record StatefulSet : Type 0 where
  pub name : String
  pub replicas : Option ℕ
  -- `Spec.Template.Spec.NodeSelector`
  pub node_selector : Dict String
  pub update_revision : String

pub record NodeRequirement : Type 0 where
  pub key : String
  pub operator : String
  pub values : List String

pub record Deployment : Type 0 where
  pub name : String
  -- the one required term of `Spec.Template.Spec.Affinity.NodeAffinity`
  pub node_affinity : Option NodeRequirement

pub record Job : Type 0 where
  pub name : String
  pub namespace : String
  pub labels : Dict String
  pub owner_references : List OwnerReference
  pub node_selector : Dict String
  pub container_name : String
  pub image : String
  pub args : List String
  pub env : List (String × String)
  pub privileged : Bool
  -- mounted host paths, each with `ReadOnly`
  pub mounts : List (String × Bool)
  pub succeeded : ℕ
  pub failed : ℕ

-- `Get`: an object, an `IsNotFound` error, or another error.
pub data Lookup (A : Type 0) : Type 0 where
  found : A → Lookup A
  not_found : Lookup A
  failed : String → Lookup A

-- Either an object is found, or there is none to be had.
pub Lookup-cases :
    {A : Type 0} (l : Lookup A)
    → ((a : A) × (l ≡ found a)) ⊎ ((l ≡ not_found) ⊎ ((e : String) × (l ≡ failed e)))
Lookup-cases (found a) = inl (a, refl)
Lookup-cases not_found = inr (inl refl)
Lookup-cases (failed e) = inr (inr (e, refl))

-- `Create`, with the `IsAlreadyExists` error apart.
pub data Created : Type 0 where
  created already_exists : Created
  failed : String → Created

-- `Delete`, with the `IsNotFound` error apart.
pub data Deleted : Type 0 where
  deleted not_found : Deleted
  failed : String → Deleted

-- `kubelet.Client`: node, namespace, pod and container to the archives' paths.
pub record KubeletClient (W : Type 0) : Type 0 where
  pub checkpoint : String → String → String → String → W → Result (List String) × W

-- Go's `float64`, as far as the controller computes with it.
pub record Float64 : Type 1 where
  pub Value : Type 0
  -- `float64(n)`
  pub of_int : ℤ → Value
  -- `Duration.Seconds`, of nanoseconds
  pub seconds : ℤ → Value
  -- `a / b`, `a < b` and `a <= b`
  pub div : Value → Value → Value
  pub lt : Value → Value → Bool
  pub le : Value → Value → Bool

pub record Env : Type 1 where
  pub float : Float64
  pub World : Type 0
  pub broker : BrokerClient World
  -- nil in environments without a kubelet
  pub kubelet : Option (KubeletClient World)
  -- the clock, in nanoseconds since the epoch
  pub now : World → ℕ
  pub get_migration : String → String → World → Lookup StatefulMigration × World
  pub update_migration : StatefulMigration → World → Result StatefulMigration × World
  -- `Status().Patch(m, MergeFrom(base))` on `base` and `m`; the client decodes the answer into `m`.
  pub patch_status :
      StatefulMigration → StatefulMigration → World → Result StatefulMigration × World
  pub get_pod : String → String → World → Lookup Pod × World
  pub get_stateful_set : String → String → World → Lookup StatefulSet × World
  pub get_deployment : String → String → World → Lookup Deployment × World
  -- a ReplicaSet, of which only the owners are read
  pub get_replica_set : String → String → World → Lookup (List OwnerReference) × World
  pub get_job : String → String → World → Lookup Job × World
  pub create_pod : Pod → World → Created × World
  pub create_job : Job → World → Created × World
  pub patch_pod : Pod → Pod → World → Option String × World
  pub patch_stateful_set : StatefulSet → StatefulSet → World → Option String × World
  pub patch_deployment : Deployment → Deployment → World → Option String × World
  -- with the grace period in seconds, if one is given
  pub delete_pod : Pod → Option ℕ → World → Deleted × World
  -- the pods with the label app=ms2m-agent in the namespace ms2m-system
  pub list_agent_pods : World → Result (List Pod) × World
  -- POST of a JSON body to a URL: the status code and the body
  -- `json.Marshal`
  pub write_json : JsonObject → String
  pub agent_post : String → String → World → Result (ℕ × String) × World
  -- `t.Format(time.RFC3339)` and `time.Parse(time.RFC3339, s)`
  pub format_time : ℕ → String
  pub parse_time : String → Option ℕ
  -- `fmt.Sprintf("%d", n)` and `fmt.Sscanf(s, "%d", &n)`
  pub format_int : ℕ → String
  pub scan_int : String → Option ℕ
  -- `d.Round(time.Millisecond).String()` and `d.Round(time.Second).String()`
  pub format_millis : ℤ → String
  pub format_seconds : ℤ → String
