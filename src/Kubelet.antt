-- ===== src/Kubelet.antt =====
-- internal/kubelet/client.go: the call of the kubelet's checkpoint API through the API server, over
-- client-go's REST client.
pub mod Laws
use kubernetes_controller.Base.{
  ℕ, String, ◌<>◌, ◌==◌, Bool, ◌||◌, Option, none, some, List, [], ◌∷◌, nat_eq, if◌then◌else◌,
}
use kubernetes_controller.Messaging.{Result, ok, err}
use kubernetes_controller.Json.{JsonObject, texts_field}
use kubernetes_controller.Cluster.{KubeletClient}

-- `rest.Result`: its error, its status code, and its body, which may fail to be read.
pub record RestResult : Type 0 where
  pub error : Option String
  pub status_code : ℕ
  pub raw : Result String

-- `rest.Interface`, and encoding/json's reading of a text as an object.
pub record Rest (W : Type 0) : Type 0 where
  -- a POST to a resource, by its name and the parts of its subresource
  pub post : String → String → List String → W → RestResult × W
  pub parse : String → Result JsonObject
  -- `%d`
  pub format_int : ℕ → String

-- The decoding of `CheckpointResponse`.
unfoldable pub checkpoint_response : JsonObject → Result (List String)
unfolding texts_field
checkpoint_response o = texts_field "items" o

abbrev quoted : String → String
quoted s = "\"" <> s <> "\""

unfoldable pub is_incomplete : String → String → String → String → Bool
is_incomplete node namespace pod container =
    node == "" || namespace == "" || pod == "" || container == ""

module _ {W : Type 0} (R : Rest W) where
  -- The checks of the answer.
  unfoldable pub read_result : String → String → String → String → RestResult → Result (List String)
  unfolding checkpoint_response
  read_result node namespace pod container r =
      let place = namespace <> "/" <> pod <> "/" <> container in
      elim r.error [
        | some e ↦ err (
            "checkpoint request for container " <> place <> " on node " <> node <> " failed: " <> e)
        | none ↦
            if nat_eq r.status_code 200
            then elim r.raw [
              | err e ↦ err ("reading checkpoint response body: " <> e)
              | ok body ↦ elim (R.parse body) [
                | err e ↦ err ("parsing checkpoint response: " <> e)
                | ok o ↦ elim (checkpoint_response o) [
                  | err e ↦ err ("parsing checkpoint response: " <> e)
                  | ok items ↦ ok items
                ]
              ]
            ]
            else err (
                "checkpoint returned unexpected status "
                <> R.format_int r.status_code
                <> " for "
                <> place
                <> " on "
                <> node)
      ]

  -- `Checkpoint`
  unfoldable pub checkpoint : String → String → String → String → W → Result (List String) × W
  unfolding is_incomplete read_result
  checkpoint node namespace pod container w =
      if is_incomplete node namespace pod container
      then (
        err (
            "all checkpoint parameters are required (node="
            <> quoted node
            <> ", ns="
            <> quoted namespace
            <> ", pod="
            <> quoted pod
            <> ", container="
            <> quoted container
            <> ")"),
        w,
      )
      else let (r, w') =
          R.post "nodes" node ("proxy" ∷ "checkpoint" ∷ namespace ∷ pod ∷ container ∷ []) w in
        (read_result node namespace pod container r, w')

  -- `NewClient`: what the controller is given as its kubelet.
  abbrev pub kubelet_client : KubeletClient W
  kubelet_client = record { checkpoint = checkpoint }
