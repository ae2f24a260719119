-- ===== src/NodeAgent/Answers.antt =====
-- When the agent's server answers 200, and which requests it refuses.
use kubernetes_controller.Base.{
  ℕ, ◌<>◌, if◌then◌else◌, String, ◌≡◌, ◌↔◌, refl, ◌==◌, eq_iff, Option, none, [], ◌∷◌, arith,
  Bool-cases, Option-cases, inl, inr, ◌⊎◌,
}
use kubernetes_controller.Messaging.{Result, ok, Result-cases}
use kubernetes_controller.Json.{JsonObject}
use kubernetes_controller.Flow.{run, next, return, ◌>>=◌, invoke, skip}
use kubernetes_controller.NodeAgent.{Host, NodeState, HttpRequest, Act}
use kubernetes_controller.NodeAgent.Calls.{return_if_error, value_or_return, http_error}
use kubernetes_controller.NodeAgent.Load.{
  LoadRequest, PushRequest, local_load, registry_push, accept, decode_load, decode_push, carry_out,
  handle_local_load, handle_registry_push,
}
use kubernetes_controller.NodeAgent.Server.{main, load_command, exit}
use kubernetes_controller.NodeAgent.Laws.{
  Loaded, Pushed, local_load-Loaded, Loaded-local_load, registry_push-Pushed, Pushed-registry_push,
}

module _ (H : Host) (command : String) (body : Act H (Option String) (Option String)) where
  -- The command's answer is 200 exactly if it returned no error, and it leaves what the command left.
  pub carry_out_lem :
      (s : NodeState H)
      → (((run (carry_out H command body) s).0.status ≡ 200) ↔ ((run body s).0 ≡ none))
        × ((carry_out H command body s).1 ≡ (run body s).1)
  unfolding ◌>>=◌ carry_out return_if_error invoke
  carry_out_lem s = ((λ h. ground arith, λ h. ground arith), ground arith)

module _ (H : Host) (r : HttpRequest H.Upload) (s : NodeState H) where
  -- A POST whose body decodes to the request `q`.
  pub record Accepted {A : Type 0} (decode : JsonObject → Result A) (q : A) : Type 0 where
    pub post : r.method ≡ "POST"
    pub object : JsonObject
    pub json : H.read_json r.body ≡ ok object
    pub decoded : decode object ≡ ok q

  -- The status of the answer to any other request.
  abbrev pub refusal : ℕ
  refusal = if r.method == "POST" then 400 else 405

  Accepted-accept :
      {A : Type 0} (decode : JsonObject → Result A) (q : A)
      → Accepted decode q
      → accept H decode r s ≡ (next q, s)
  unfolding ◌>>=◌ accept value_or_return skip
  Accepted-accept decode q a = rw (a.post, a.json, a.decoded) (refl)

  pub accept_cases :
      {A : Type 0} (decode : JsonObject → Result A)
      → ((q : A) × Accepted decode q)
        ⊎ ((e : String) × (accept H decode r s ≡ (return (http_error refusal e), s)))
  unfolding ◌>>=◌ accept value_or_return skip
  accept_cases decode = elim (Bool-cases (r.method == "POST")) [
    | inr other ↦ inr ("method not allowed", rw other (refl))
    | inl posted ↦ elim (Result-cases (H.read_json r.body)) [
      | inr (e, bad) ↦ inr ("decode request: " <> e, rw (posted, bad) (refl))
      | inl (o, json) ↦ elim (Result-cases (decode o)) [
        | inr (e, bad) ↦ inr ("decode request: " <> e, rw (posted, json, bad) (refl))
        | inl (q, decoded) ↦ inl (
          q,
          record {
            post = (eq_iff r.method "POST").0 posted;
            object = o;
            json = json;
            decoded = decoded;
          },
        )
      ]
    ]
  ]

  pub handle_local_load_goes_on :
      (q : LoadRequest)
      → Accepted decode_load q
      → handle_local_load H r s
        ≡ carry_out H "local-load" (local_load H q.tar_path q.container_name q.image_tag) s
  unfolding ◌>>=◌ handle_local_load
  handle_local_load_goes_on q a = rw (Accepted-accept decode_load q a) (refl)

  pub handle_local_load_refused :
      (e : String)
      → accept H decode_load r s ≡ (return (http_error refusal e), s)
      → handle_local_load H r s ≡ (return (http_error refusal e), s)
  unfolding ◌>>=◌ handle_local_load
  handle_local_load_refused e refused = rw refused (refl)

  -- The server answers 200 to /local-load exactly if the request is a POST whose body decodes, and its
  -- archive was made an image and loaded under its tag.
  pub handle_local_load_iff : ((run (handle_local_load H r) s).0.status ≡ 200) ↔ (
      (q : LoadRequest) × Accepted decode_load q
      × Loaded H q.tar_path q.container_name q.image_tag s (run (handle_local_load H r) s).1)
  handle_local_load_iff = (
    λ h. elim (accept_cases decode_load) [
      | inr (e, refused) ↦ absurd (ground (arith, h, handle_local_load_refused e refused))
      | inl (q, a) ↦
          let same = handle_local_load_goes_on q a in
          let (answer, left) =
            carry_out_lem H "local-load" (local_load H q.tar_path q.container_name q.image_tag) s in
          (
            q,
            a,
            rw (same, left)
                (local_load-Loaded H q.tar_path q.container_name q.image_tag s
                  (answer.0 (rw same at h))),
          )
    ],
    λ (q, a, l).
        let same = handle_local_load_goes_on q a in
        let (answer, left) =
          carry_out_lem H "local-load" (local_load H q.tar_path q.container_name q.image_tag) s in
        rw same (
          answer.1
            (Loaded-local_load H q.tar_path q.container_name q.image_tag s (rw (same, left) at l))),
  )

  pub handle_registry_push_goes_on :
      (q : PushRequest)
      → Accepted decode_push q
      → handle_registry_push H r s
        ≡ carry_out H "registry-push"
            (registry_push H q.tar_path q.container_name q.image_ref q.insecure)
            s
  unfolding ◌>>=◌ handle_registry_push
  handle_registry_push_goes_on q a = rw (Accepted-accept decode_push q a) (refl)

  pub handle_registry_push_refused :
      (e : String)
      → accept H decode_push r s ≡ (return (http_error refusal e), s)
      → handle_registry_push H r s ≡ (return (http_error refusal e), s)
  unfolding ◌>>=◌ handle_registry_push
  handle_registry_push_refused e refused = rw refused (refl)

  -- The server answers 200 to /registry-push exactly if the request is a POST whose body decodes, and its
  -- archive was made an image and pushed under its reference.
  pub handle_registry_push_iff : ((run (handle_registry_push H r) s).0.status ≡ 200) ↔ (
      (q : PushRequest) × Accepted decode_push q
      × Pushed H q.tar_path q.container_name q.image_ref q.insecure s
          (run (handle_registry_push H r) s).1)
  handle_registry_push_iff = (
    λ h. elim (accept_cases decode_push) [
      | inr (e, refused) ↦ absurd (ground (arith, h, handle_registry_push_refused e refused))
      | inl (q, a) ↦
          let same = handle_registry_push_goes_on q a in
          let (answer, left) =
            carry_out_lem H "registry-push"
              (registry_push H q.tar_path q.container_name q.image_ref q.insecure) s in
          (
            q,
            a,
            rw (same, left)
                (registry_push-Pushed H q.tar_path q.container_name q.image_ref q.insecure s
                  (answer.0 (rw same at h))),
          )
    ],
    λ (q, a, l).
        let same = handle_registry_push_goes_on q a in
        let (answer, left) =
          carry_out_lem H "registry-push"
            (registry_push H q.tar_path q.container_name q.image_ref q.insecure) s in
        rw same (
          answer.1 (
            Pushed-registry_push H q.tar_path q.container_name q.image_ref q.insecure s
              (rw (same, left) at l))),
  )

-- The command line of the agent, `local-load` with three arguments, exits with 0 exactly if the archive
-- was made an image and loaded under the tag.
pub main_load_iff :
    (H : Host) (tar container tag : String) (s : NodeState H)
    → ((run (main H ("local-load" ∷ tar ∷ container ∷ tag ∷ [])) s).0 ≡ exit 0)
      ↔ Loaded H tar container tag s (run (main H ("local-load" ∷ tar ∷ container ∷ tag ∷ [])) s).1
unfolding main load_command ◌>>=◌ invoke
main_load_iff H tar container tag s =
    let done = local_load-Loaded H tar container tag s in
    let only = Loaded-local_load H tar container tag s in
    elim (Option-cases (run (local_load H tar container tag) s).0) [
      | inl fine ↦ (λ e. done fine, λ l. ground (arith, fine))
      | inr (x, failed) ↦
          (λ e. absurd (ground (arith, failed)), λ l. absurd (ground (arith, failed, only l)))
    ]
