-- ===== src/Controller/Delivery.antt =====
-- The controller's calls of the node agent, with the agent's own server at the other end.
use kubernetes_controller.Base.{String, ◌<>◌, ◌≡◌, ◌↔◌, refl, true, Option, none, arith}
use kubernetes_controller.Messaging.{ok, err}
use kubernetes_controller.Json.{text_field, flag_field, read_members}
use kubernetes_controller.Cluster.{Env}
use kubernetes_controller.Flow.{run, next, Flow, ◌>>=◌}
use kubernetes_controller.NodeAgent.{Host, NodeState, HttpRequest, Response}
use kubernetes_controller.NodeAgent.Load.{decode_load, decode_push, LoadRequest, PushRequest}
use kubernetes_controller.NodeAgent.Upload.{UploadHandler}
use kubernetes_controller.NodeAgent.Server.{serve}
use kubernetes_controller.NodeAgent.Laws.{Loaded, Pushed}
use kubernetes_controller.NodeAgent.Answers.{handle_local_load_iff, handle_registry_push_iff}
use kubernetes_controller.Controller.Monad.{St}
use kubernetes_controller.Controller.Calls.{agent_post}
use kubernetes_controller.Controller.Agent.{
  push_body, load_body, call_agent, call_agent_local_load, call_agent_registry_push,
}

abbrev pub load_request : String → String → String → LoadRequest
load_request tar container tag = record {
  tar_path = tar;
  container_name = container;
  image_tag = tag;
}

-- `insecure` is what the controller always asks for.
abbrev pub push_request : String → String → String → PushRequest
push_request tar container ref = record {
  tar_path = tar;
  container_name = container;
  image_ref = ref;
  insecure = true;
}

-- The agent reads each of the controller's two requests as it was written.
pub decode-body :
    (tar container image : String)
    → (decode_load (load_body tar container image) ≡ ok (load_request tar container image))
      × (decode_push (push_body tar container image) ≡ ok (push_request tar container image))
unfolding decode_load decode_push load_body push_body text_field flag_field read_members
decode-body tar container image = (refl, refl)

-- A POST of a text.
abbrev pub json_post : {U : Type 0} → String → String → HttpRequest U
json_post path body = record {
  method = "POST";
  path = path;
  body = body;
  form = err "request Content-Type isn't multipart/form-data";
}

-- A POST to the path at the address reaches the agent of the node, and its answer comes back.
pub record Delivers (E : Env) (H : Host) (h : UploadHandler) (ip path : String) : Type 0 where
  pub node : E.World → NodeState H
  pub answer :
      (body : String) (w : E.World)
      → let r = (run (serve H h (json_post path body)) (node w)).0 in
        (E.agent_post ("http://" <> ip <> ":9443" <> path) body w).0 ≡ ok (r.status, r.body)
  pub effect :
      (body : String) (w : E.World)
      → node (E.agent_post ("http://" <> ip <> ":9443" <> path) body w).1
        ≡ (run (serve H h (json_post path body)) (node w)).1

-- The answer that the agent gives to a body, and the node after it.
abbrev served : (H : Host) → UploadHandler → NodeState H → String → String → Response × NodeState H
served H h n path body = run (serve H h (json_post path body)) n

module _ (H : Host) (h : UploadHandler) (n : NodeState H) (tar container image : String) where
  served_load :
      (text : String)
      → H.read_json text ≡ ok (load_body tar container image)
      → ((served H h n "/local-load" text).0.status ≡ 200)
        ↔ Loaded H tar container image n (served H h n "/local-load" text).1
  unfolding serve
  served_load text reads =
      let r = json_post "/local-load" text in
      let answers = handle_local_load_iff H r n in
      let decoded = (decode-body tar container image).0 in
      (
        λ ok_status.
            let (q, a, l) = answers.0 ok_status in
            let same : q ≡ load_request tar container image = cc (a.json, a.decoded, decoded) in
            rw same at l,
        λ l. answers.1 (
          load_request tar container image,
          record {
            post = refl;
            object = load_body tar container image;
            json = reads;
            decoded = decoded;
          },
          l,
        ),
      )

  served_push :
      (text : String)
      → H.read_json text ≡ ok (push_body tar container image)
      → ((served H h n "/registry-push" text).0.status ≡ 200)
        ↔ Pushed H tar container image true n (served H h n "/registry-push" text).1
  unfolding serve
  served_push text reads =
      let r = json_post "/registry-push" text in
      let answers = handle_registry_push_iff H r n in
      let decoded = (decode-body tar container image).1 in
      (
        λ ok_status.
            let (q, a, l) = answers.0 ok_status in
            let same : q ≡ push_request tar container image = cc (a.json, a.decoded, decoded) in
            rw same at l,
        λ l. answers.1 (
          push_request tar container image,
          record {
            post = refl;
            object = push_body tar container image;
            json = reads;
            decoded = decoded;
          },
          l,
        ),
      )

module _ (E : Env) (H : Host) (h : UploadHandler) (ip : String) (R : Type 0) (s : St E.World) where
  abbrev Answer : Type 0
  Answer = Flow R (Option String)

  call_agent_lem :
      (path : String) (D : Delivers E H h ip path) (body : String)
      → ((Path Answer (call_agent E ip path body s).0 (next none))
          ↔ ((served H h (D.node s.world) path body).0.status ≡ 200))
        × (D.node (call_agent E {R = R} ip path body s).1.world
            ≡ (served H h (D.node s.world) path body).1)
  unfolding ◌>>=◌ call_agent agent_post
  call_agent_lem path D body =
      let answer = D.answer body s.world in
      let effect = D.effect body s.world in
      ((λ e. ground (arith, answer), λ e. ground (arith, answer)), ground (arith, effect))

  -- The controller's call of /local-load returns no error exactly if the agent on the node made the
  -- archive an image and loaded it under the tag that the controller named, when the network delivers
  -- the call to the agent, which reads back the body that the controller wrote.
  pub call_agent_local_load_iff :
      (D : Delivers E H h ip "/local-load") (tar container image : String)
      → H.read_json (E.write_json (load_body tar container image))
        ≡ ok (load_body tar container image)
      → (Path Answer (call_agent_local_load E ip tar container image s).0 (next none))
        ↔ Loaded H tar container image
            (D.node s.world)
            (D.node (call_agent_local_load E {R = R} ip tar container image s).1.world)
  unfolding call_agent_local_load
  call_agent_local_load_iff D tar container image reads =
      let (answer, left) =
        call_agent_lem "/local-load" D (E.write_json (load_body tar container image)) in
      let loaded = served_load H h (D.node s.world) tar container image _ reads in
      (λ e. rw left (loaded.0 (answer.0 e)), λ l. answer.1 (loaded.1 (rw left at l)))

  -- The controller's call of /registry-push returns no error exactly if the agent on the node made the
  -- archive an image and pushed it, without TLS, under the reference that the controller named, when the
  -- network delivers the call to the agent, which reads back the body that the controller wrote.
  pub call_agent_registry_push_iff :
      (D : Delivers E H h ip "/registry-push") (tar container image : String)
      → H.read_json (E.write_json (push_body tar container image))
        ≡ ok (push_body tar container image)
      → (Path Answer (call_agent_registry_push E ip tar container image s).0 (next none))
        ↔ Pushed H tar container image true
            (D.node s.world)
            (D.node (call_agent_registry_push E {R = R} ip tar container image s).1.world)
  unfolding call_agent_registry_push
  call_agent_registry_push_iff D tar container image reads =
      let (answer, left) =
        call_agent_lem "/registry-push" D (E.write_json (push_body tar container image)) in
      let loaded = served_push H h (D.node s.world) tar container image _ reads in
      (λ e. rw left (loaded.0 (answer.0 e)), λ l. answer.1 (loaded.1 (rw left at l)))
